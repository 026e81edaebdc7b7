-- ===== src/Wallet/HistoryLaws.antt =====
-- Who sees which transfers.
use whs_secure_coding.Prelude.{
  ==_iff, All, Bool-cases, Memᴰ, Option, and_parts, arith, find, find_sound, inl, inr, none,
  option_map, refl, some, some_injective, sym, true, ℕ, ◌&&◌, ◌==◌, ◌≡◌, ◌⊎◌,
}
use whs_secure_coding.Listing.Members.{Memᴰ-join, find-Memᴰ, page_members}
use whs_secure_coding.Schema.{Db}
use whs_secure_coding.Text.{Text}
use whs_secure_coding.Wallet.History.{
  Entry, TransferDetailView, TransferHistoryView, detail_view, get_transfer_detail, history_filter,
  history_view, list_transfer_history, takes_part, transfer_entries, transfer_of,
}

-- A transfer of the database, with the rows of its sender and its recipient.
pub record IsBooked (db : Db) (e : Entry) : Type 0 where
  pub transfer : Memᴰ e.0.0 db.transfers
  pub sender : Memᴰ e.0.1 db.users
  pub recipient : Memᴰ e.1 db.users
  pub sent_by : e.0.0.sender_id ≡ e.0.1.id
  pub sent_to : e.0.0.recipient_id ≡ e.1.id

-- The user sends or receives it.
abbrev pub IsParty : ℕ → Entry → Type 0
IsParty user_id e = ((transfer_of e).sender_id ≡ user_id) ⊎ ((transfer_of e).recipient_id ≡ user_id)

-- What is shown is a transfer of the database and of the user, sent or received as it says.
pub record IsOwn (user_id : ℕ) (db : Db) (v : TransferHistoryView) : Type 0 where
  pub entry : Entry
  pub booked : IsBooked db entry
  pub own : IsParty user_id entry
  pub view : v ≡ history_view user_id entry

pub record IsDetail (user_id transfer_id : ℕ) (db : Db) (v : TransferDetailView) : Type 0 where
  pub entry : Entry
  pub booked : IsBooked db entry
  pub own : IsParty user_id entry
  pub of_id : (transfer_of entry).id ≡ transfer_id
  pub view : v ≡ detail_view user_id entry

Memᴰ-IsBooked : (db : Db) (e : Entry) → Memᴰ e (transfer_entries db) → IsBooked db e
Memᴰ-IsBooked db ((t, s), r) m =
    let (h, recipient, to) = Memᴰ-join _ _ db.users (t, s) r m in
    let (transfer, sender, by) = Memᴰ-join _ db.transfers db.users t s h in
    record {
      transfer = transfer;
      sender = sender;
      recipient = recipient;
      sent_by = (==_iff t.sender_id s.id).0 by;
      sent_to = (==_iff t.recipient_id r.id).0 to;
    }

takes_part-IsParty :
    (user_id : ℕ) (e : Entry) → takes_part user_id (transfer_of e) ≡ true → IsParty user_id e
takes_part-IsParty user_id e h = elim (Bool-cases ((transfer_of e).sender_id == user_id)) [
  | inl sent ↦ inl ((==_iff _ user_id).0 sent)
  | inr other ↦ inr ((==_iff _ user_id).0 (rw other at h))
]

filter_takes_part :
    (user_id : ℕ) (direction : Text) (e : Entry)
    → history_filter user_id direction (transfer_of e) ≡ true
    → takes_part user_id (transfer_of e) ≡ true
unfolding history_filter
filter_takes_part user_id direction e h = ground arith

-- Whatever the filters and the page, `list_transfer_history` shows a user only transfers of the
-- database that the user sends or receives, with the names of their users, and
-- `get_transfer_detail` gives such a transfer, of the id that is asked for, or none.
pub history_private :
    (user_id : ℕ) (direction sort : Text) (page per_page transfer_id : ℕ) (db : Db)
    → All
        (IsOwn user_id db)
        (list_transfer_history user_id direction sort page per_page db).content.items
      × ((v : TransferDetailView)
          → get_transfer_detail user_id transfer_id db ≡ some v
          → IsDetail user_id transfer_id db v)
unfolding list_transfer_history get_transfer_detail
history_private user_id direction sort page per_page transfer_id db = (
  page_members (IsOwn user_id db) (history_view user_id) _
      (λ (e : Entry). history_filter user_id direction (transfer_of e)) page per_page
      (transfer_entries db)
      (λ e m taken. record {
        entry = e;
        booked = Memᴰ-IsBooked db e m;
        own = takes_part-IsParty user_id e (filter_takes_part user_id direction e taken);
        view = refl;
      }),
  λ v h. detail v _ refl h,
)
  where
    detail :
        (v : TransferDetailView) (o : Option Entry)
        → find
            (λ (e : Entry). (transfer_of e).id == transfer_id && takes_part user_id (transfer_of e))
            (transfer_entries db)
          ≡ o
        → option_map (detail_view user_id) o ≡ some v
        → IsDetail user_id transfer_id db v
    detail v none e h = absurd (cc)
    detail v (some x) e h =
        let (same, own) = and_parts _ _ (find_sound _ (transfer_entries db) x e) in
        record {
          entry = x;
          booked = Memᴰ-IsBooked db x (find-Memᴰ _ (transfer_entries db) x e);
          own = takes_part-IsParty user_id x own;
          of_id = (==_iff (transfer_of x).id transfer_id).0 same;
          view = sym (some_injective h);
        }
