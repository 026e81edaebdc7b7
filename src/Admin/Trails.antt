-- ===== src/Admin/Trails.antt =====
-- app/admin/services.py: the listings of transfers, of the audit log and of reports, with
-- `get_report`, `_target_names` and `_target_display`; and `dashboard_counts`.
use whs_secure_coding.Prelude.{
  Bool, List, Option, String, [], count, find, length, none, option_map, some, ℕ, ◌&&◌, ◌==◌, ◌∷◌,
}
use whs_secure_coding.Admin.Listings.{Search, word_filter}
use whs_secure_coding.Admin.Reports.{is_pending, report_status_word, target_word}
use whs_secure_coding.Audit.Policy.{safe_details_for_display}
use whs_secure_coding.Listing.{Key, Page, is_oldest, join, list_page, meets_query}
use whs_secure_coding.Schema.{
  AuditLog, Db, Details, Product, Report, ReportStatus, TargetType, Transfer, User,
}
use whs_secure_coding.Session.{query}
use whs_secure_coding.Text.{Text, codes}

pub record AdminTransferView : Type 0 where
  pub id : ℕ
  pub sender_username : Text
  pub recipient_username : Text
  pub amount : ℕ
  pub created_at : ℕ

pub record AdminAuditLogView : Type 0 where
  pub actor_username : Option Text
  pub action : String
  pub target_type : String
  pub target_id : Option ℕ
  pub details : Details
  pub created_at : ℕ

pub record AdminReportSummary : Type 0 where
  pub id : ℕ
  pub reporter_username : Text
  pub target_type : TargetType
  pub target_display_name : Text
  pub status : ReportStatus
  pub created_at : ℕ

-- What `get_report` shows beside the summary.
pub record AdminReportView : Type 0 where
  pub summary : AdminReportSummary
  pub reason : Text
  pub reviewer_username : Option Text
  pub reviewed_at : Option ℕ

-- A transfer with its sender and its recipient: the two joins.
abbrev pub Entry : Type 0
Entry = (Transfer × User) × User

abbrev pub transfers_with_users : Db → List Entry
transfers_with_users db =
    join (λ ((t, s) : Transfer × User) (r : User). t.recipient_id == r.id)
      (join (λ (t : Transfer) (s : User). t.sender_id == s.id) db.transfers db.users) db.users

unfoldable pub transfer_filter : Option Text → Entry → Bool
transfer_filter query ((t, s), r) = meets_query query (s.username ∷ r.username ∷ [])

abbrev pub entry_key : Entry → Key
entry_key ((t, s), r) = record { created_at = t.created_at; id = t.id }

abbrev pub transfer_view : Entry → AdminTransferView
transfer_view ((t, s), r) = record {
  id = t.id;
  sender_username = s.username;
  recipient_username = r.username;
  amount = t.amount;
  created_at = t.created_at;
}

unfoldable pub list_transfers : Search → Db → Page AdminTransferView
list_transfers q db =
    list_page entry_key transfer_view (transfer_filter q.query) (is_oldest q.sort) q.page q.per_page
      (transfers_with_users db)

abbrev audit_targets : List String
audit_targets = "user" ∷ "product" ∷ "report" ∷ "message" ∷ "transfer" ∷ []

unfoldable pub audit_filter : Option Text → Text → AuditLog → Bool
audit_filter query target_type a =
    meets_query query (codes a.action ∷ []) && word_filter audit_targets target_type a.target_type

abbrev pub audit_key : AuditLog → Key
audit_key a = record { created_at = a.created_at; id = a.id }

-- `.outerjoin(actor, AuditLog.actor_user_id == actor.id)`
abbrev username_of : Option ℕ → Db → Option Text
username_of none db = none
username_of (some id) db =
    option_map (λ (u : User). u.username) (find (λ (u : User). u.id == id) db.users)

abbrev pub audit_view : Db → AuditLog → AdminAuditLogView
audit_view db a = record {
  actor_username = username_of a.actor_user_id db;
  action = a.action;
  target_type = a.target_type;
  target_id = a.target_id;
  details = safe_details_for_display a.action a.details;
  created_at = a.created_at;
}

unfoldable pub list_audit_logs : Search → Text → Db → Page AdminAuditLogView
list_audit_logs q target_type db =
    list_page audit_key (audit_view db) (audit_filter q.query target_type) (is_oldest q.sort) q.page
      q.per_page db.audit_logs

-- `_target_names` and `_target_display`: the name of the target, or that there is none.
unfoldable pub target_display : TargetType → ℕ → Db → Text
target_display TargetType.user id db = elim (find (λ (u : User). u.id == id) db.users) [
  | none ↦ codes "이용할 수 없는 사용자"
  | some u ↦ u.username
]
target_display TargetType.product id db = elim (find (λ (p : Product). p.id == id) db.products) [
  | none ↦ codes "이용할 수 없는 상품"
  | some p ↦ p.title
]

-- `.join(User, Report.reporter_id == User.id)`
abbrev pub reports_with_reporters : Db → List (Report × User)
reports_with_reporters db =
    join (λ (r : Report) (u : User). r.reporter_id == u.id) db.reports db.users

unfoldable pub report_filter : Option Text → Text → Text → Report × User → Bool
report_filter query target_type status (r, u) =
    meets_query query (u.username ∷ [])
    && word_filter ("user" ∷ "product" ∷ []) target_type (target_word r.target_type)
    && word_filter ("pending" ∷ "confirmed" ∷ "rejected" ∷ []) status (report_status_word r.status)

abbrev pub report_key : Report × User → Key
report_key (r, u) = record { created_at = r.created_at; id = r.id }

abbrev pub report_summary : Db → Report × User → AdminReportSummary
report_summary db (r, u) = record {
  id = r.id;
  reporter_username = u.username;
  target_type = r.target_type;
  target_display_name = target_display r.target_type r.target_id db;
  status = r.status;
  created_at = r.created_at;
}

unfoldable pub list_reports : Search → Text → Text → Db → Page AdminReportSummary
list_reports q target_type status db =
    list_page report_key (report_summary db) (report_filter q.query target_type status)
      (is_oldest q.sort) q.page q.per_page (reports_with_reporters db)

abbrev report_view : Db → Report × User → AdminReportView
report_view db (r, u) = record {
  summary = report_summary db (r, u);
  reason = r.reason;
  reviewer_username = username_of r.reviewed_by_id db;
  reviewed_at = r.reviewed_at;
}

-- `get_report`
unfoldable pub get_report_view : ℕ → Db → Option AdminReportView
get_report_view id db =
    option_map (report_view db)
      (find (λ ((r, u) : Report × User). r.id == id) (reports_with_reporters db))

pub record DashboardCounts : Type 0 where
  pub users : ℕ
  pub products : ℕ
  pub pending_reports : ℕ
  pub messages : ℕ

unfoldable pub dashboard_counts : Db → DashboardCounts
dashboard_counts db = record {
  users = length db.users;
  products = length db.products;
  pending_reports = count (λ (r : Report). is_pending r.status) db.reports;
  messages = length db.messages;
}
