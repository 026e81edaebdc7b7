-- ===== src/Audit.antt =====
-- app/audit/services.py: rows of the audit log. The policy of app/audit/policy.py is the child Policy.
pub mod Policy
pub mod Laws
pub mod Display
pub mod Writes
mod Tests
use whs_secure_coding.Prelude.{
  Bool, Option, String, [], if◌then◌else◌, leb, length, not, ℕ, ◌&&◌, ◌++◌, ◌∷◌,
}
use whs_secure_coding.Schema.{AuditLog, Db, Details}
use whs_secure_coding.Session.{
  Tx, modify, new_uuid, or_return, raise, utc_now, value_error, ◌>>=◌, ◌>>◌,
}
use whs_secure_coding.Text.{codes}
use Policy.{validate_audit_details}

abbrev pub valid_target_type : String → Bool
valid_target_type t = leb 1 (length (codes t)) && leb (length (codes t)) 50

-- `db.session.add(audit_log)`: the row is written with the next statement that flushes.
abbrev pub add_row : AuditLog → Db → Db
add_row row db = record db { audit_logs = db.audit_logs ++ row ∷ [] }

-- The row that a call writes.
abbrev pub entry : ℕ → ℕ → Option ℕ → String → String → Option ℕ → Option Details → AuditLog
entry id now actor action target_type target_id details = record {
  id = id;
  actor_user_id = actor;
  action = action;
  target_type = target_type;
  target_id = target_id;
  details = details;
  created_at = now;
}

unfoldable pub add_audit_log :
    Option ℕ → String → String → Option ℕ → Option Details → Tx (Unit {0})
add_audit_log actor action target_type target_id details =
    if not (valid_target_type target_type)
    then raise value_error
    else or_return (validate_audit_details action details) (raise value_error) λ safe_details. do
      id ← new_uuid
      now ← utc_now
      modify (add_row (entry id now actor action target_type target_id safe_details))
