-- ===== src/Wallet/History.antt =====
-- app/wallet/services.py: `get_wallet_summary`, `list_transfer_history` and `get_transfer_detail`,
-- with the views of app/wallet/views.py.
use whs_secure_coding.Prelude.{
  Bool, List, Option, count, find, if◌then◌else◌, ltb, map, none, option_map, some, true, ℕ, ◌&&◌,
  ◌+◌, ◌-◌, ◌==◌, ◌||◌,
}
use whs_secure_coding.Listing.{Key, Page, is_oldest, join, limit_offset, ordered, pages_of}
use whs_secure_coding.Schema.{Db, Transfer, User, Wallet, is_active}
use whs_secure_coding.Text.{Text, codes, text_eq}

pub data Direction : Type 0 where
  sent received : Direction

pub record TransferHistoryView : Type 0 where
  pub id : ℕ
  pub direction : Direction
  pub counterpart_username : Text
  pub amount : ℕ
  pub created_at : ℕ

-- The page with its neighbours.
pub record TransferHistoryPage : Type 0 where
  pub content : Page TransferHistoryView
  pub has_prev : Bool
  pub has_next : Bool
  pub prev_num : Option ℕ
  pub next_num : Option ℕ

pub record TransferDetailView : Type 0 where
  pub id : ℕ
  pub sender_username : Text
  pub recipient_username : Text
  pub direction : Direction
  pub amount : ℕ
  pub created_at : ℕ

-- `or_(Transfer.sender_id == user_id, Transfer.recipient_id == user_id)`
abbrev pub takes_part : ℕ → Transfer → Bool
takes_part user_id t = t.sender_id == user_id || t.recipient_id == user_id

unfoldable pub history_filter : ℕ → Text → Transfer → Bool
history_filter user_id direction t =
    takes_part user_id t
    && (if text_eq direction (codes "sent")
        then t.sender_id == user_id
        else if text_eq direction (codes "received")
        then t.recipient_id == user_id
        else true)

-- `case((Transfer.sender_id == user_id, "sent"), else_="received")`
abbrev pub direction_of : ℕ → Transfer → Direction
direction_of user_id t = if t.sender_id == user_id then Direction.sent else Direction.received

-- A transfer with its sender and its recipient: the two joins.
abbrev pub Entry : Type 0
Entry = (Transfer × User) × User

abbrev pub transfer_entries : Db → List Entry
transfer_entries db =
    join (λ ((t, s) : Transfer × User) (r : User). t.recipient_id == r.id)
      (join (λ (t : Transfer) (s : User). t.sender_id == s.id) db.transfers db.users) db.users

abbrev pub transfer_of : Entry → Transfer
transfer_of ((t, s), r) = t

abbrev pub entry_key : Entry → Key
entry_key e = record { created_at = (transfer_of e).created_at; id = (transfer_of e).id }

abbrev pub history_view : ℕ → Entry → TransferHistoryView
history_view user_id ((t, s), r) = record {
  id = t.id;
  direction = direction_of user_id t;
  counterpart_username = if t.sender_id == user_id then r.username else s.username;
  amount = t.amount;
  created_at = t.created_at;
}

-- The total is counted without the joins.
abbrev history_content : ℕ → Text → Text → ℕ → ℕ → Db → Page TransferHistoryView
history_content user_id direction sort page per_page db =
    let total = count (history_filter user_id direction) db.transfers in
    let rows =
      ordered entry_key (λ e. history_filter user_id direction (transfer_of e)) (is_oldest sort)
        (transfer_entries db) in
    record {
      items = map (history_view user_id) (limit_offset page per_page rows);
      page = page;
      per_page = per_page;
      total = total;
      pages = pages_of total per_page;
    }

unfoldable pub list_transfer_history : ℕ → Text → Text → ℕ → ℕ → Db → TransferHistoryPage
list_transfer_history user_id direction sort page per_page db =
    let content = history_content user_id direction sort page per_page db in
    record {
      content = content;
      has_prev = ltb 1 page;
      has_next = ltb page content.pages;
      prev_num = if ltb 1 page then some (page - 1) else none;
      next_num = if ltb page content.pages then some (page + 1) else none;
    }

abbrev pub detail_view : ℕ → Entry → TransferDetailView
detail_view user_id ((t, s), r) = record {
  id = t.id;
  sender_username = s.username;
  recipient_username = r.username;
  direction = direction_of user_id t;
  amount = t.amount;
  created_at = t.created_at;
}

unfoldable pub get_transfer_detail : ℕ → ℕ → Db → Option TransferDetailView
get_transfer_detail user_id transfer_id db = option_map (detail_view user_id) (
    find (λ (e : Entry). (transfer_of e).id == transfer_id && takes_part user_id (transfer_of e))
      (transfer_entries db))

pub record WalletSummaryView : Type 0 where
  pub username : Text
  pub balance : ℕ

unfoldable pub get_wallet_summary : ℕ → Db → Option WalletSummaryView
get_wallet_summary user_id db =
    option_map (λ ((u, w) : User × Wallet). record { username = u.username; balance = w.balance })
      (find (λ ((u, w) : User × Wallet). u.id == user_id && is_active u.status)
        (join (λ (u : User) (w : Wallet). w.user_id == u.id) db.users db.wallets))
