-- ===== src/Admin/Listings.antt =====
-- app/admin/services.py: the listings of users, products and messages, `get_user` and
-- `get_product`, with the views of app/admin/views.py. `updated_at`, which is only displayed, is
-- left out.
use whs_secure_coding.Prelude.{
  Bool, List, Option, String, [], any, find, not, option_map, ℕ, ◌&&◌, ◌==◌, ◌||◌, ◌∷◌,
}
use whs_secure_coding.Admin.Messages.{scope_word, visibility_word}
use whs_secure_coding.Admin.Products.{product_status_word, restore_status}
use whs_secure_coding.Admin.Users.{user_status_word}
use whs_secure_coding.Listing.{Key, Page, is_oldest, join, list_page, meets_query}
use whs_secure_coding.Schema.{ChatMessage, Db, Product, ProductStatus, Role, User, UserStatus}
use whs_secure_coding.Text.{Text, codes, text_eq}

pub record AdminUserSummary : Type 0 where
  pub username : Text
  pub role : Role
  pub status : UserStatus
  pub created_at : ℕ

pub record AdminProductSummary : Type 0 where
  pub id : ℕ
  pub title : Text
  pub seller_username : Text
  pub price : ℕ
  pub status : ProductStatus
  pub restore_to : Option ProductStatus
  pub created_at : ℕ

pub record AdminMessageView : Type 0 where
  pub id : ℕ
  pub sender_username : Text
  pub scope : String
  pub body : Text
  pub is_hidden : Bool
  pub created_at : ℕ

-- The arguments that the listings share.
pub record Search : Type 0 where
  pub query : Option Text
  pub sort : Text
  pub page : ℕ
  pub per_page : ℕ

-- A filter is added where the word is one of the column's.
abbrev pub word_filter : List String → Text → String → Bool
word_filter words asked column =
    not (any (λ (w : String). text_eq asked (codes w)) words) || text_eq asked (codes column)

abbrev pub role_word : Role → String
role_word Role.user = "user"
role_word Role.admin = "admin"

unfoldable pub user_filter : Option Text → Text → Text → User → Bool
user_filter query role status u =
    meets_query query (u.username ∷ [])
    && word_filter ("user" ∷ "admin" ∷ []) role (role_word u.role)
    && word_filter ("active" ∷ "dormant" ∷ []) status (user_status_word u.status)

abbrev pub user_key : User → Key
user_key u = record { created_at = u.created_at; id = u.id }

abbrev pub user_summary : User → AdminUserSummary
user_summary u = record {
  username = u.username;
  role = u.role;
  status = u.status;
  created_at = u.created_at;
}

unfoldable pub list_users : Search → Text → Text → Db → Page AdminUserSummary
list_users q role status db =
    list_page user_key user_summary (user_filter q.query role status) (is_oldest q.sort) q.page
      q.per_page db.users

-- `get_user`
unfoldable pub get_user : Text → Db → Option AdminUserSummary
get_user name db = option_map user_summary (find (λ (u : User). text_eq u.username name) db.users)

-- `.join(User, Product.seller_id == User.id)`
abbrev pub products_with_sellers : Db → List (Product × User)
products_with_sellers db =
    join (λ (p : Product) (u : User). p.seller_id == u.id) db.products db.users

unfoldable pub product_filter : Option Text → Text → Product × User → Bool
product_filter query status (p, u) =
    meets_query query (p.title ∷ u.username ∷ [])
    && word_filter ("active" ∷ "sold" ∷ "hidden" ∷ "deleted" ∷ []) status
        (product_status_word p.status)

abbrev pub product_key : Product × User → Key
product_key (p, u) = record { created_at = p.created_at; id = p.id }

abbrev pub product_summary : Product × User → AdminProductSummary
product_summary (p, u) = record {
  id = p.id;
  title = p.title;
  seller_username = u.username;
  price = p.price;
  status = p.status;
  restore_to = restore_status p.moderation_previous_status p.status;
  created_at = p.created_at;
}

unfoldable pub list_products : Search → Text → Db → Page AdminProductSummary
list_products q status db =
    list_page product_key product_summary (product_filter q.query status) (is_oldest q.sort) q.page
      q.per_page (products_with_sellers db)

-- `get_product`
unfoldable pub get_product_view : ℕ → Db → Option AdminProductSummary
get_product_view id db =
    option_map product_summary
      (find (λ ((p, u) : Product × User). p.id == id) (products_with_sellers db))

-- `.join(User, ChatMessage.sender_id == User.id)`
abbrev pub messages_with_senders : Db → List (ChatMessage × User)
messages_with_senders db =
    join (λ (m : ChatMessage) (u : User). m.sender_id == u.id) db.messages db.users

unfoldable pub message_filter : Option Text → Text → Text → ChatMessage × User → Bool
message_filter query scope visibility (m, u) =
    meets_query query (u.username ∷ m.body ∷ [])
    && word_filter ("global" ∷ "direct" ∷ []) scope (scope_word m.conversation_id)
    && word_filter ("visible" ∷ "hidden" ∷ []) visibility (visibility_word m.is_hidden)

abbrev pub message_key : ChatMessage × User → Key
message_key (m, u) = record { created_at = m.created_at; id = m.id }

abbrev pub message_view : ChatMessage × User → AdminMessageView
message_view (m, u) = record {
  id = m.id;
  sender_username = u.username;
  scope = scope_word m.conversation_id;
  body = m.body;
  is_hidden = m.is_hidden;
  created_at = m.created_at;
}

unfoldable pub list_messages : Search → Text → Text → Db → Page AdminMessageView
list_messages q scope visibility db =
    list_page message_key message_view (message_filter q.query scope visibility) (is_oldest q.sort)
      q.page q.per_page (messages_with_senders db)
