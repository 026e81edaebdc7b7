-- ===== src/Chat/Messages.antt =====
-- app/chat/services.py: `save_message`, `get_direct_conversation` and `list_direct_conversations`.
use whs_secure_coding.Prelude.{
  Bool, List, Option, [], count, false, find, if◌then◌else◌, ltb, map, none, option_map, some, ℕ,
  ◌&&◌, ◌++◌, ◌+◌, ◌-◌, ◌==◌, ◌||◌, ◌∷◌,
}
use whs_secure_coding.Chat.Histories.{ChatMessageView, chat_view}
use whs_secure_coding.Listing.{Key, Page, join, limit_offset, ordered, pages_of}
use whs_secure_coding.Schema.{ChatMessage, Db, DirectConversation, User, is_active}
use whs_secure_coding.Schema.Constraints.{message_allowed}
use whs_secure_coding.Session.{
  Tx, attempt, commit, flush, new_uuid, or_return, pure, query, rollback, utc_now, ◌>>=◌, ◌>>◌,
}
use whs_secure_coding.Text.{Text}
use whs_secure_coding.Wallet.{find_sender}

pub data MessageSaveResult : Type 0 where
  saved : ChatMessageView → MessageSaveResult
  database_error : MessageSaveResult

-- `db.session.add(message)`
abbrev pub add_message : ChatMessage → Db → Db
add_message m db = record db { messages = db.messages ++ m ∷ [] }

unfoldable pub save_message : ℕ → Option ℕ → Text → Tx MessageSaveResult
save_message sender_id conversation_id body = do
  sender ← query (find_sender sender_id)
  or_return sender (pure MessageSaveResult.database_error) λ (u : User). do
    created_at ← utc_now
    attempt
        (do
          id ← new_uuid
          let message : ChatMessage = record {
            id = id;
            sender_id = sender_id;
            conversation_id = conversation_id;
            body = body;
            is_hidden = false;
            created_at = created_at;
          }
          flush (λ db. message_allowed db message) (add_message message)
          commit
          pure (MessageSaveResult.saved (chat_view (message, u))))
        (λ _. do rollback; pure MessageSaveResult.database_error)

-- `participant_filter`
abbrev pub is_participant : ℕ → DirectConversation → Bool
is_participant user_id c = c.user1_id == user_id || c.user2_id == user_id

-- `counterpart_join`
abbrev pub is_counterpart : ℕ → DirectConversation → User → Bool
is_counterpart user_id c u =
    (c.user1_id == user_id && u.id == c.user2_id) || (c.user2_id == user_id && u.id == c.user1_id)

abbrev pub conversation_rows : ℕ → Db → List (DirectConversation × User)
conversation_rows user_id db = join (is_counterpart user_id) db.conversations db.users

pub record DirectConversationView : Type 0 where
  pub id : ℕ
  pub counterpart_username : Text
  pub counterpart_is_active : Bool

unfoldable pub get_direct_conversation : ℕ → ℕ → Db → Option DirectConversationView
get_direct_conversation conversation_id user_id db =
    option_map
      (λ ((c, u) : DirectConversation × User). record {
        id = c.id;
        counterpart_username = u.username;
        counterpart_is_active = is_active u.status;
      })
      (find
        (λ ((c, u) : DirectConversation × User).
          c.id == conversation_id && is_participant user_id c)
        (conversation_rows user_id db))

pub record DirectConversationSummary : Type 0 where
  pub id : ℕ
  pub counterpart_username : Text
  pub counterpart_is_active : Bool
  pub created_at : ℕ

-- The page with its neighbours.
pub record DirectConversationPage : Type 0 where
  pub content : Page DirectConversationSummary
  pub has_prev : Bool
  pub has_next : Bool
  pub prev_num : Option ℕ
  pub next_num : Option ℕ

abbrev pub conversation_key : DirectConversation × User → Key
conversation_key (c, u) = record { created_at = c.created_at; id = c.id }

abbrev pub conversation_summary : DirectConversation × User → DirectConversationSummary
conversation_summary (c, u) = record {
  id = c.id;
  counterpart_username = u.username;
  counterpart_is_active = is_active u.status;
  created_at = c.created_at;
}

abbrev conversation_content : ℕ → ℕ → ℕ → Db → Page DirectConversationSummary
conversation_content user_id page per_page db =
    let total = count (is_participant user_id) db.conversations in
    let rows =
      ordered conversation_key (λ ((c, u) : DirectConversation × User). is_participant user_id c)
        false (conversation_rows user_id db) in
    record {
      items = map conversation_summary (limit_offset page per_page rows);
      page = page;
      per_page = per_page;
      total = total;
      pages = pages_of total per_page;
    }

unfoldable pub list_direct_conversations : ℕ → ℕ → ℕ → Db → DirectConversationPage
list_direct_conversations user_id page per_page db =
    let content = conversation_content user_id page per_page db in
    record {
      content = content;
      has_prev = ltb 1 page;
      has_next = ltb page content.pages;
      prev_num = if ltb 1 page then some (page - 1) else none;
      next_num = if ltb page content.pages then some (page + 1) else none;
    }
