-- ===== src/Admin/Reports.antt =====
-- app/admin/services.py: `decide_report`.
use whs_secure_coding.Prelude.{
  Bool, Option, String, [], false, find, if◌then◌else◌, none, not, some, true, update, ℕ, ◌==◌, ◌∷◌,
}
use whs_secure_coding.Admin.{AdminMutationResult, Mutation, commit_with_audit, only}
use whs_secure_coding.Schema.{Db, Details, Report, ReportStatus, TargetType, Value}
use whs_secure_coding.Session.{Tx, modify, or_return, pure, query, return_if, utc_now, ◌>>=◌, ◌>>◌}
use whs_secure_coding.Text.{Text, codes, text_eq}

pub data Decision : Type 0 where
  confirm reject : Decision

-- `status_by_decision.get(decision)`
abbrev pub decision_of : Text → Option Decision
decision_of t =
    if text_eq t (codes "confirm")
    then some Decision.confirm
    else if text_eq t (codes "reject")
    then some Decision.reject
    else none

abbrev pub decided_status : Decision → ReportStatus
decided_status Decision.confirm = ReportStatus.confirmed
decided_status Decision.reject = ReportStatus.rejected

abbrev pub decision_word : Decision → String
decision_word Decision.confirm = "confirm"
decision_word Decision.reject = "reject"

abbrev pub report_status_word : ReportStatus → String
report_status_word ReportStatus.pending = "pending"
report_status_word ReportStatus.confirmed = "confirmed"
report_status_word ReportStatus.rejected = "rejected"

abbrev pub report_audit_action : Decision → String
report_audit_action Decision.confirm = "admin.report.confirmed"
report_audit_action Decision.reject = "admin.report.rejected"

abbrev pub target_word : TargetType → String
target_word TargetType.user = "user"
target_word TargetType.product = "product"

abbrev pub is_pending : ReportStatus → Bool
is_pending ReportStatus.pending = true
is_pending _ = false

-- `db.session.get(Report, id)`
abbrev pub get_report : ℕ → Db → Option Report
get_report id db = find (λ (r : Report). r.id == id) db.reports

abbrev pub decided : ℕ → Decision → ℕ → Report → Report
decided actor_id d now r = record r {
  status = decided_status d;
  reviewed_by_id = some actor_id;
  reviewed_at = some now;
}

abbrev pub set_decision : ℕ → Report → Decision → ℕ → Db → Db
set_decision actor_id r d now db = record db {
  reports = update (λ (q : Report). q.id == r.id) (decided actor_id d now) db.reports;
}

abbrev pub decision_details : Report → Decision → Details
decision_details r d =
    ("target_type", Value.str (target_word r.target_type))
    ∷ ("decision", Value.str (decision_word d))
    ∷ ("previous_status", Value.str (report_status_word r.status))
    ∷ ("new_status", Value.str (report_status_word (decided_status d)))
    ∷ []

unfoldable pub decide_report : ℕ → ℕ → Text → Tx Mutation
decide_report actor_id report_id decision =
    or_return (decision_of decision) (pure (only AdminMutationResult.invalid_state)) λ d. do
      report ← query (get_report report_id)
      or_return report (pure (only AdminMutationResult.not_found)) λ (r : Report).
          return_if (not (is_pending r.status)) (pure (only AdminMutationResult.idempotent)) do
            now ← utc_now
            modify (set_decision actor_id r d now)
            commit_with_audit (only AdminMutationResult.done) actor_id (report_audit_action d)
                "report" r.id (decision_details r d)
