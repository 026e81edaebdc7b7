-- ===== src/Chat/Conversations.antt =====
-- app/chat/services.py: `start_direct_conversation`.
use whs_secure_coding.Prelude.{
  Bool, Option, [], find, if◌then◌else◌, leb, none, not, some, ℕ, ◌&&◌, ◌++◌, ◌==◌, ◌∷◌,
}
use whs_secure_coding.Moderation.{find_active_user}
use whs_secure_coding.Schema.{Db, DirectConversation, User, is_active}
use whs_secure_coding.Schema.Constraints.{conversation_allowed}
use whs_secure_coding.Session.{
  Error, Tx, attempt, commit, flush, integrity_error, new_uuid, or_return, pure, query, return_if,
  rollback, utc_now, ◌>>=◌, ◌>>◌,
}
use whs_secure_coding.Text.{Text}

pub data DirectConversationResult : Type 0 where
  created existing target_unavailable self_target database_error : DirectConversationResult

-- The pair that the service returns.
pub record Started : Type 0 where
  pub result : DirectConversationResult
  pub conversation_id : Option ℕ

abbrev pub not_started : DirectConversationResult → Started
not_started r = record { result = r; conversation_id = none }

abbrev pub is_between : ℕ → ℕ → DirectConversation → Bool
is_between user1 user2 c = c.user1_id == user1 && c.user2_id == user2

abbrev pub find_conversation : ℕ → ℕ → Db → Option DirectConversation
find_conversation user1 user2 db = find (is_between user1 user2) db.conversations

-- `db.session.add(conversation)`
abbrev pub add_conversation : DirectConversation → Db → Db
add_conversation c db = record db { conversations = db.conversations ++ c ∷ [] }

-- The two `except` clauses.
unfoldable pub on_start_error : ℕ → ℕ → Error → Tx Started
on_start_error user1 user2 integrity_error = do
  rollback
  found ← query (find_conversation user1 user2)
  or_return found (pure (not_started DirectConversationResult.database_error))
      λ (c : DirectConversation).
        pure (record { result = DirectConversationResult.existing; conversation_id = some c.id })
on_start_error user1 user2 _ = do
  rollback
  pure (not_started DirectConversationResult.database_error)

-- From the lookup of the pair, which is sorted, to the end.
unfoldable pub open_pair : ℕ → ℕ → Tx Started
open_pair user1 user2 = do
  found ← query (find_conversation user1 user2)
  or_return found
      (attempt
        (do
          id ← new_uuid
          now ← utc_now
          let conversation : DirectConversation = record {
            id = id;
            user1_id = user1;
            user2_id = user2;
            created_at = now;
          }
          flush (λ db. conversation_allowed db conversation) (add_conversation conversation)
          commit
          pure (record { result = DirectConversationResult.created; conversation_id = some id }))
        (on_start_error user1 user2))
      λ (c : DirectConversation).
        pure (record { result = DirectConversationResult.existing; conversation_id = some c.id })

-- `sorted((current_row.id, target_row.id))`
abbrev pub smaller : ℕ → ℕ → ℕ
smaller a b = if leb a b then a else b

abbrev pub larger : ℕ → ℕ → ℕ
larger a b = if leb a b then b else a

abbrev pub user_by_id : ℕ → Db → Option User
user_by_id id db = find (λ (u : User). u.id == id) db.users

unfoldable pub start_direct_conversation : ℕ → Text → Tx Started
start_direct_conversation authenticated_id target_username = do
  current ← query (user_by_id authenticated_id)
  target ← query (find_active_user target_username)
  or_return current (pure (not_started DirectConversationResult.target_unavailable)) λ (u : User).
      return_if (not (is_active u.status))
        (pure (not_started DirectConversationResult.target_unavailable))
        (or_return target (pure (not_started DirectConversationResult.target_unavailable))
          λ (v : User).
            return_if (u.id == v.id) (pure (not_started DirectConversationResult.self_target))
              (open_pair (smaller u.id v.id) (larger u.id v.id)))
