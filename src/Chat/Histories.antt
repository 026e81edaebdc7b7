-- ===== src/Chat/Histories.antt =====
-- app/chat/services.py: `get_message_history`, with the views of
-- app/chat/views.py; times are shown as numbers.
use whs_secure_coding.Prelude.{
  ==_iff, All, Bool, List, Memᴰ, Option, [], and_parts, ap, count, false, holds, if◌then◌else◌, ltb,
  map, none, not, not-true, refl, some, true, ℕ, ◌&&◌, ◌++◌, ◌+◌, ◌-◌, ◌==◌, ◌∷◌, ◌≡◌,
}
use whs_secure_coding.Listing.{Key, Page, join, limit_offset, ordered, pages_of}
use whs_secure_coding.Listing.Members.{Memᴰ-join, page_members}
use whs_secure_coding.Schema.{ChatMessage, Db, User}
use whs_secure_coding.Text.{Text}

pub record ChatMessageView : Type 0 where
  pub id : ℕ
  pub sender_username : Text
  pub body : Text
  pub created_at : ℕ

-- The page with its neighbours.
pub record ChatMessagePage : Type 0 where
  pub content : Page ChatMessageView
  pub has_prev : Bool
  pub has_next : Bool
  pub prev_num : Option ℕ
  pub next_num : Option ℕ

-- `scope_filter`
abbrev pub in_scope : Option ℕ → Option ℕ → Bool
in_scope none none = true
in_scope none (some c) = false
in_scope (some conversation_id) c = holds c conversation_id

unfoldable pub message_shown : Option ℕ → ChatMessage → Bool
message_shown conversation_id m = in_scope conversation_id m.conversation_id && not m.is_hidden

abbrev pub chat_rows : Db → List (ChatMessage × User)
chat_rows db = join (λ (m : ChatMessage) (u : User). m.sender_id == u.id) db.messages db.users

abbrev pub chat_key : ChatMessage × User → Key
chat_key (m, u) = record { created_at = m.created_at; id = m.id }

abbrev pub chat_view : ChatMessage × User → ChatMessageView
chat_view (m, u) = record {
  id = m.id;
  sender_username = u.username;
  body = m.body;
  created_at = m.created_at;
}

-- `reversed(rows)`
unfoldable pub reversed : {A : Type 0} → List A → List A
reversed [] = []
reversed (x ∷ xs) = reversed xs ++ x ∷ []

abbrev history_content : Option ℕ → ℕ → ℕ → Db → Page ChatMessageView
history_content conversation_id page per_page db =
    let total = count (message_shown conversation_id) db.messages in
    let newest_first =
      ordered chat_key (λ ((m, u) : ChatMessage × User). message_shown conversation_id m) false
        (chat_rows db) in
    record {
      items = reversed (map chat_view (limit_offset page per_page newest_first));
      page = page;
      per_page = per_page;
      total = total;
      pages = pages_of total per_page;
    }

unfoldable pub get_message_history : Option ℕ → ℕ → ℕ → Db → ChatMessagePage
get_message_history conversation_id page per_page db =
    let content = history_content conversation_id page per_page db in
    record {
      content = content;
      has_prev = ltb 1 page;
      has_next = ltb page content.pages;
      prev_num = if ltb 1 page then some (page - 1) else none;
      next_num = if ltb page content.pages then some (page + 1) else none;
    }

-- What is shown is a message of the database, in the scope and not hidden, under its sender's name.
pub record IsShown (conversation_id : Option ℕ) (db : Db) (v : ChatMessageView) : Type 0 where
  pub message : ChatMessage
  pub sender : User
  pub stored : Memᴰ message db.messages
  pub known : Memᴰ sender db.users
  pub sent_by : message.sender_id ≡ sender.id
  pub scope : message.conversation_id ≡ conversation_id
  pub visible : message.is_hidden ≡ false
  pub view : v ≡ chat_view (message, sender)

in_scope_same : (o c : Option ℕ) → in_scope o c ≡ true → c ≡ o
in_scope_same none none h = refl
in_scope_same none (some c) h = absurd (cc)
in_scope_same (some x) none h = absurd (cc)
in_scope_same (some x) (some c) h = ap some ((==_iff c x).0 h)

Memᴰ-IsShown :
    (conversation_id : Option ℕ) (db : Db) (x : ChatMessage × User)
    → Memᴰ x (chat_rows db)
    → message_shown conversation_id x.0 ≡ true
    → IsShown conversation_id db (chat_view x)
unfolding message_shown
Memᴰ-IsShown conversation_id db (m, u) found shown =
    let (stored, known, by) = Memᴰ-join _ db.messages db.users m u found in
    let (scope, visible) = and_parts (in_scope conversation_id m.conversation_id) _ shown in
    record {
      message = m;
      sender = u;
      stored = stored;
      known = known;
      sent_by = (==_iff m.sender_id u.id).0 by;
      scope = in_scope_same conversation_id m.conversation_id scope;
      visible = not-true m.is_hidden visible;
      view = refl;
    }

All-append : {A : Type 0} (P : A → Type 0) (xs ys : List A) → All P xs → All P ys → All P (xs ++ ys)
All-append P [] ys h k = k
All-append P (x ∷ xs) ys (p, h) k = (p, All-append P xs ys h k)

All-reversed : {A : Type 0} (P : A → Type 0) (xs : List A) → All P xs → All P (reversed xs)
unfolding reversed
All-reversed P [] h = tt
All-reversed P (x ∷ xs) (p, h) = All-append P (reversed xs) (x ∷ []) (All-reversed P xs h) (p, tt)

-- Whatever the page, `get_message_history` shows only messages of the database that are in the
-- conversation that is asked for, or in the global room where none is, and that no administrator
-- has hidden, each under the name of its sender.
pub history_hides :
    (conversation_id : Option ℕ) (page per_page : ℕ) (db : Db)
    → All
        (IsShown conversation_id db)
        (get_message_history conversation_id page per_page db).content.items
unfolding get_message_history
history_hides conversation_id page per_page db = All-reversed (IsShown conversation_id db) _ (
    page_members (IsShown conversation_id db) chat_view _
      (λ ((m, u) : ChatMessage × User). message_shown conversation_id m) page per_page
      (chat_rows db) (Memᴰ-IsShown conversation_id db))
