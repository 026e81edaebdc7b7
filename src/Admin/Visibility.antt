-- ===== src/Admin/Visibility.antt =====
-- What `change_message_visibility` makes of the messages.
use whs_secure_coding.Prelude.{
  ==_iff, Bool, [], ap, arith, false, find-update_others, find-update_same, find_sound, not, refl,
  some, true, ℕ, ◌++◌, ◌==◌, ◌∙◌, ◌∷◌, ◌≡◌,
}
use whs_secure_coding.Admin.{commit_with_audit, ok_or_idempotent, only}
use whs_secure_coding.Admin.Messages.{
  change_message_visibility, desired_hidden_of, get_message, message_audit_action, same_bool,
  visibility_details,
}
use whs_secure_coding.Audit.{add_audit_log, entry}
use whs_secure_coding.Audit.Policy.{
  is_member, is_sensitive, lookup_keys, safe_items, validate_audit_details,
}
use whs_secure_coding.Schema.{ChatMessage, Db}
use whs_secure_coding.Session.{ok, open_session, ◌>>=◌}
use whs_secure_coding.Text.{Text}

visibility_details_safe :
    (m : ChatMessage) (hidden : Bool)
    → validate_audit_details (message_audit_action hidden) (some (visibility_details m hidden))
      ≡ some (some (visibility_details m hidden))
unfolding validate_audit_details lookup_keys is_member safe_items is_sensitive
visibility_details_safe m true = refl
visibility_details_safe m false = refl

-- The message as the action leaves it.
abbrev pub shown_as : Bool → ChatMessage → ChatMessage
shown_as hidden m = record m { is_hidden = hidden }

-- Where the database does not fail and the message is there, the answer is OK or IDEMPOTENT as its
-- visibility changes, what is committed has one audit row more, the message of that id then has the
-- visibility asked for and is otherwise the same, and every other message and every other table is
-- as it was.
pub change_message_visibility_sets :
    (actor_id message_id : ℕ) (action : Text) (db : Db) (uuids : ℕ → ℕ) (now : ℕ) (hidden : Bool)
    (m : ChatMessage)
    → desired_hidden_of action ≡ some hidden
    → get_message message_id db ≡ some m
    → let (r, t) =
        change_message_visibility actor_id message_id action (open_session db [] uuids now) in
      (r ≡ ok (only (ok_or_idempotent (not (same_bool m.is_hidden hidden)))))
      × (t.committed.audit_logs
          ≡ db.audit_logs
            ++ entry
                (uuids 0)
                now
                (some actor_id)
                (message_audit_action hidden)
                "message"
                (some message_id)
                (some (visibility_details m hidden))
              ∷ [])
      × (get_message message_id t.committed ≡ some (shown_as hidden m))
      × ((i : ℕ) → (message_id == i) ≡ false → get_message i t.committed ≡ get_message i db)
      × (t.committed
          ≡ record db { messages = t.committed.messages; audit_logs = t.committed.audit_logs })
unfolding change_message_visibility commit_with_audit add_audit_log ◌>>=◌
change_message_visibility_sets actor_id message_id action db uuids now hidden m known found =
    let own : m.id ≡ message_id =
      (==_iff m.id message_id).0
        (find_sound (λ (x : ChatMessage). x.id == message_id) db.messages m found) in
    rw (known, found, visibility_details_safe m hidden, own)
      (
        refl,
        refl,
        find-update_same (λ (x : ChatMessage). x.id == message_id) (shown_as hidden) db.messages m
              found (λ y h. h)
            ∙ ap (λ (i : ℕ). some (record m { id = i; is_hidden = hidden })) own,
        λ i other.
            find-update_others (λ (x : ChatMessage). x.id == i)
              (λ (x : ChatMessage). x.id == message_id) (shown_as hidden) db.messages
              (λ x h. grind arith) (λ x h. grind arith),
        refl,
      )
