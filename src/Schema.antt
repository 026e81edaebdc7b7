-- ===== src/Schema.antt =====
-- app/models/__init__.py: the tables, their rows and the constraints that the database enforces.
-- A row holds the columns that the program's decisions read; a column with a CHECK on a list of
-- words is a data type of those words. An id is a UUID, read as a number: the program compares ids,
-- and the order of canonical UUID texts is that of the numbers. Timestamps are numbers too.
pub mod Constraints
use whs_secure_coding.Prelude.{ℕ, String, Bool, true, false, Option, none, some, List, []}
use whs_secure_coding.Text.{Text}

pub data Role : Type 0 where
  user admin : Role

pub data UserStatus : Type 0 where
  active dormant : UserStatus

pub data ProductStatus : Type 0 where
  active hidden sold deleted : ProductStatus

pub data TargetType : Type 0 where
  user product : TargetType

pub data ReportStatus : Type 0 where
  pending confirmed rejected : ReportStatus

-- `wallet`, `updated_at` and the relationships are derived from the other tables or only displayed.
pub record User : Type 0 where
  pub id : ℕ
  pub username : Text
  pub password_hash : Text
  pub bio : Text
  pub role : Role
  pub status : UserStatus
  pub auth_version : ℕ
  pub created_at : ℕ

pub record Wallet : Type 0 where
  pub user_id : ℕ
  pub balance : ℕ

pub record Product : Type 0 where
  pub id : ℕ
  pub seller_id : ℕ
  pub title : Text
  pub description : Text
  pub price : ℕ
  pub image_filename : Option Text
  pub status : ProductStatus
  pub moderation_previous_status : Option ProductStatus
  pub created_at : ℕ

pub record Report : Type 0 where
  pub id : ℕ
  pub reporter_id : ℕ
  pub target_type : TargetType
  pub target_id : ℕ
  pub reason : Text
  pub status : ReportStatus
  pub reviewed_by_id : Option ℕ
  pub reviewed_at : Option ℕ
  pub created_at : ℕ

pub record DirectConversation : Type 0 where
  pub id : ℕ
  pub user1_id : ℕ
  pub user2_id : ℕ
  pub created_at : ℕ

pub record ChatMessage : Type 0 where
  pub id : ℕ
  pub sender_id : ℕ
  pub conversation_id : Option ℕ
  pub body : Text
  pub is_hidden : Bool
  pub created_at : ℕ

pub record Transfer : Type 0 where
  pub id : ℕ
  pub sender_id : ℕ
  pub recipient_id : ℕ
  pub amount : ℕ
  pub idempotency_key : Text
  pub created_at : ℕ

-- What a JSON value of `details` can be; `other` is a value that is not a scalar.
pub data Value : Type 0 where
  str : String → Value
  text : Text → Value
  num : ℕ → Value
  bool : Bool → Value
  null other : Value

abbrev pub Details : Type 0
Details = List (String × Value)

pub record AuditLog : Type 0 where
  pub id : ℕ
  pub actor_user_id : Option ℕ
  pub action : String
  pub target_type : String
  pub target_id : Option ℕ
  pub details : Option Details
  pub created_at : ℕ

pub record Db : Type 0 where
  pub users : List User
  pub wallets : List Wallet
  pub products : List Product
  pub reports : List Report
  pub conversations : List DirectConversation
  pub messages : List ChatMessage
  pub transfers : List Transfer
  pub audit_logs : List AuditLog

abbrev pub empty_db : Db
empty_db = record {
  users = [];
  wallets = [];
  products = [];
  reports = [];
  conversations = [];
  messages = [];
  transfers = [];
  audit_logs = [];
}

-- `User.is_active`
abbrev pub is_active : UserStatus → Bool
is_active UserStatus.active = true
is_active UserStatus.dormant = false

abbrev pub is_admin : Role → Bool
is_admin Role.admin = true
is_admin Role.user = false

abbrev pub same_target : TargetType → TargetType → Bool
same_target TargetType.user TargetType.user = true
same_target TargetType.product TargetType.product = true
same_target _ _ = false
