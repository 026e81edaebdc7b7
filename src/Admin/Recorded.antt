-- ===== src/Admin/Recorded.antt =====
-- How the `try` statement of a mutation ends, whatever the database does: all of what the session
-- holds is committed with one audit row, or nothing is.
use whs_secure_coding.Prelude.{String, inl, inr, refl, some, true, ℕ, ◌≡◌, ◌⊎◌}
use whs_secure_coding.Admin.{AdminMutationResult, Mutation, commit_with_audit, only}
use whs_secure_coding.Audit.{add_row, entry, valid_target_type}
use whs_secure_coding.Audit.Policy.{validate_audit_details}
use whs_secure_coding.Audit.Writes.{Ends-add_audit_log}
use whs_secure_coding.Schema.{Db, Details}
use whs_secure_coding.Session.Ends.{
  Ends, Ends-attempt, Ends-commit, Ends-pure, Ends-rollback, Unless,
}

pub data Recorded (db w : Db) (answer : Mutation) (actor_id : ℕ) (action target_type : String)
    (target_id : ℕ) (details : Details) (d : Db) (o : Mutation) : Type 0 where
  rolled_back :
      d ≡ db
      → o ≡ only AdminMutationResult.database_error
      → Recorded db w answer actor_id action target_type target_id details d o
  recorded :
      (audit_id now : ℕ)
      → d
        ≡ add_row
            (entry audit_id now (some actor_id) action target_type (some target_id) (some details))
            w
      → (o ≡ answer) ⊎ (o ≡ only AdminMutationResult.database_error)
      → Recorded db w answer actor_id action target_type target_id details d o

pub commit_with_audit-Recorded :
    {db w : Db} (P : Db → Mutation → Type 0) (answer : Mutation) (actor_id : ℕ)
    (action target_type : String) (target_id : ℕ) (details : Details)
    → valid_target_type target_type ≡ true
    → validate_audit_details action (some details) ≡ some (some details)
    → ((d : Db) (o : Mutation)
        → Recorded db w answer actor_id action target_type target_id details d o
        → P d o)
    → Ends w db
        (commit_with_audit answer actor_id action target_type target_id details)
        (Unless db P)
unfolding commit_with_audit
commit_with_audit-Recorded P answer actor_id action target_type target_id details valid safe h =
    Ends-attempt _ (
      Ends-add_audit_log _ _ _ _ _ _ valid safe λ audit_id now.
        Ends-commit _ (λ e. Ends-rollback _ (Ends-pure _ (h _ _ (rolled_back refl refl))))
          (Ends-rollback _ (Ends-pure _ (h _ _ (recorded audit_id now refl (inr refl)))))
          (Ends-pure _ (h _ _ (recorded audit_id now refl (inl refl)))))
