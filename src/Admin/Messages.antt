-- ===== src/Admin/Messages.antt =====
-- app/admin/services.py: `change_message_visibility`.
use whs_secure_coding.Prelude.{
  Bool, Option, String, [], false, find, if◌then◌else◌, none, not, some, true, update, ℕ, ◌==◌, ◌∷◌,
}
use whs_secure_coding.Admin.{
  AdminMutationResult, Mutation, commit_with_audit, ok_or_idempotent, only,
}
use whs_secure_coding.Schema.{ChatMessage, Db, Details, Value}
use whs_secure_coding.Session.{Tx, modify, or_return, pure, query, ◌>>=◌, ◌>>◌}
use whs_secure_coding.Text.{Text, codes, text_eq}

-- `action not in {"hide", "show"}`, with `desired_hidden` where it is one.
abbrev pub desired_hidden_of : Text → Option Bool
desired_hidden_of t =
    if text_eq t (codes "hide")
    then some true
    else if text_eq t (codes "show")
    then some false
    else none

abbrev pub visibility_word : Bool → String
visibility_word hidden = if hidden then "hidden" else "visible"

abbrev pub message_audit_action : Bool → String
message_audit_action hidden = if hidden then "admin.message.hidden" else "admin.message.visible"

abbrev pub scope_word : Option ℕ → String
scope_word none = "global"
scope_word (some c) = "direct"

-- `db.session.get(ChatMessage, id)`
abbrev pub get_message : ℕ → Db → Option ChatMessage
get_message id db = find (λ (m : ChatMessage). m.id == id) db.messages

abbrev pub set_hidden : ℕ → Bool → Db → Db
set_hidden id hidden db = record db {
  messages =
      update (λ (m : ChatMessage). m.id == id)
        (λ (m : ChatMessage). record m { is_hidden = hidden }) db.messages;
}

abbrev pub same_bool : Bool → Bool → Bool
same_bool a b = if a then b else not b

abbrev pub visibility_details : ChatMessage → Bool → Details
visibility_details m hidden =
    ("previous_visibility", Value.str (visibility_word m.is_hidden))
    ∷ ("new_visibility", Value.str (visibility_word hidden))
    ∷ ("scope", Value.str (scope_word m.conversation_id))
    ∷ []

unfoldable pub change_message_visibility : ℕ → ℕ → Text → Tx Mutation
change_message_visibility actor_id message_id action =
    or_return (desired_hidden_of action) (pure (only AdminMutationResult.invalid_state)) λ hidden.
      do
        message ← query (get_message message_id)
        or_return message (pure (only AdminMutationResult.not_found)) λ (m : ChatMessage). do
          modify (set_hidden m.id hidden)
          commit_with_audit (only (ok_or_idempotent (not (same_bool m.is_hidden hidden)))) actor_id
              (message_audit_action hidden) "message" m.id (visibility_details m hidden)
