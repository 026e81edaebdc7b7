-- ===== src/Admin.antt =====
-- app/admin/services.py: the results of the administrators' mutations, and the `try` statement that
-- each of them ends with. The mutations themselves are the children Users, Products, Reports and
-- Messages; app/admin/decorators.py is here too.
pub mod Users
pub mod Products
pub mod Reports
pub mod Messages
pub mod Listings
pub mod Trails
pub mod ListingLaws
pub mod Recorded
pub mod Guard
pub mod StatusLaws
pub mod Lifecycle
pub mod Machine
pub mod Decisions
pub mod Visibility
mod Tests
use whs_secure_coding.Prelude.{Bool, Option, String, if◌then◌else◌, none, some, ℕ, ◌&&◌}
use whs_secure_coding.Audit.{add_audit_log}
use whs_secure_coding.Schema.{Details, User, is_active, is_admin}
use whs_secure_coding.Session.{Tx, attempt, commit, pure, rollback, ◌>>=◌, ◌>>◌}

pub data AdminMutationResult : Type 0 where
  done idempotent not_found invalid_state self_protected last_admin database_error :
      AdminMutationResult

-- What a mutation returns, and the user whose sockets it disconnects.
pub record Mutation : Type 0 where
  pub result : AdminMutationResult
  pub disconnects : Option ℕ

abbrev pub only : AdminMutationResult → Mutation
only r = record { result = r; disconnects = none }

-- `OK if changed else IDEMPOTENT`
abbrev pub ok_or_idempotent : Bool → AdminMutationResult
ok_or_idempotent changed =
    if changed then AdminMutationResult.done else AdminMutationResult.idempotent

-- The `try` statement at the end of each mutation: the audit row, the commit, and the rollback.
unfoldable pub commit_with_audit : Mutation → ℕ → String → String → ℕ → Details → Tx Mutation
commit_with_audit answer actor_id action target_type target_id details =
    attempt
      (do
        add_audit_log (some actor_id) action target_type (some target_id) (some details)
        commit
        pure answer)
      (λ _. do rollback; pure (only AdminMutationResult.database_error))

-- `admin_required` lets the view run.
unfoldable pub admin_allowed : User → Bool
admin_allowed u = is_admin u.role && is_active u.status
