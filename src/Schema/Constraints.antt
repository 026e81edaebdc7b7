-- ===== src/Schema/Constraints.antt =====
-- The UNIQUE, CHECK and FOREIGN KEY constraints of app/models/__init__.py that an insertion meets:
-- each function says whether the database takes the row. A violation is an IntegrityError.
use whs_secure_coding.Prelude.{
  Bool, Option, all, any, false, leb, length, ltb, none, not, some, true, ℕ, ◌&&◌, ◌==◌,
}
use whs_secure_coding.Schema.{
  ChatMessage, Db, DirectConversation, Product, Report, Transfer, User, Wallet, same_target,
}
use whs_secure_coding.Text.{Text, is_hex, is_word, text_eq}

-- A foreign key to `users.id`, with `PRAGMA foreign_keys=ON`.
abbrev pub user_exists : Db → ℕ → Bool
user_exists db id = any (λ (u : User). u.id == id) db.users

-- A nullable foreign key to `direct_conversations.id`.
abbrev pub conversation_known : Db → Option ℕ → Bool
conversation_known db none = true
conversation_known db (some id) = any (λ (c : DirectConversation). c.id == id) db.conversations

unfoldable pub user_allowed : Db → User → Bool
user_allowed db u =
    leb 4 (length u.username)
    && leb (length u.username) 32
    && all is_word u.username
    && leb (length u.bio) 500
    && leb 1 u.auth_version
    && not (any (λ (v : User). v.id == u.id) db.users)
    && not (any (λ (v : User). text_eq v.username u.username) db.users)

unfoldable pub wallet_allowed : Db → Wallet → Bool
wallet_allowed db w =
    user_exists db w.user_id && not (any (λ (v : Wallet). v.user_id == w.user_id) db.wallets)

unfoldable pub report_allowed : Db → Report → Bool
report_allowed db r =
    leb 10 (length r.reason)
    && leb (length r.reason) 500
    && user_exists db r.reporter_id
    && not (any (λ (q : Report). q.id == r.id) db.reports)
    && not (
        any
          (λ (q : Report).
            q.reporter_id == r.reporter_id
            && same_target q.target_type r.target_type
            && q.target_id == r.target_id)
          db.reports)

unfoldable pub transfer_allowed : Db → Transfer → Bool
transfer_allowed db t =
    leb 1 t.amount
    && leb t.amount 1000000000
    && length t.idempotency_key == 64
    && all is_hex t.idempotency_key
    && not (t.sender_id == t.recipient_id)
    && user_exists db t.sender_id
    && user_exists db t.recipient_id
    && not (any (λ (v : Transfer). v.id == t.id) db.transfers)
    && not (any (λ (v : Transfer). text_eq v.idempotency_key t.idempotency_key) db.transfers)

unfoldable pub conversation_allowed : Db → DirectConversation → Bool
conversation_allowed db c =
    ltb c.user1_id c.user2_id
    && user_exists db c.user1_id
    && user_exists db c.user2_id
    && not (any (λ (v : DirectConversation). v.id == c.id) db.conversations)
    && not (
        any (λ (v : DirectConversation). v.user1_id == c.user1_id && v.user2_id == c.user2_id)
          db.conversations)

unfoldable pub message_allowed : Db → ChatMessage → Bool
message_allowed db m =
    leb 1 (length m.body)
    && leb (length m.body) 500
    && user_exists db m.sender_id
    && conversation_known db m.conversation_id
    && not (any (λ (n : ChatMessage). n.id == m.id) db.messages)

-- The CHECK constraints of a product.
abbrev pub product_checked : Product → Bool
product_checked p =
    leb 1 (length p.title)
    && leb (length p.title) 100
    && leb 1 (length p.description)
    && leb (length p.description) 2000
    && leb 1 p.price
    && leb p.price 1000000000

abbrev pub same_filename : Option Text → Option Text → Bool
same_filename (some s) (some t) = text_eq s t
same_filename _ _ = false

unfoldable pub product_allowed : Db → Product → Bool
product_allowed db p =
    product_checked p
    && user_exists db p.seller_id
    && not (any (λ (q : Product). q.id == p.id) db.products)
    && not (any (λ (q : Product). same_filename q.image_filename p.image_filename) db.products)

-- A row that is changed: the checks, and the unique file name among the other rows.
unfoldable pub product_change_allowed : Db → Product → Bool
product_change_allowed db p =
    product_checked p
    && not (
        any (λ (q : Product). not (q.id == p.id) && same_filename q.image_filename p.image_filename)
          db.products)
