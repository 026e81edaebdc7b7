-- ===== src/Moderation.antt =====
-- app/moderation/services.py: reports of users and products, and the restriction that the third
-- effective report brings. The policy of app/moderation/policy.py is the child Policy.
pub mod Policy
pub mod Filing
pub mod Restriction
pub mod Runs
pub mod OwnReports
mod Tests
use whs_secure_coding.Prelude.{
  Bool, Option, String, [], any, count, find, leb, none, not, some, update, ℕ, ◌&&◌, ◌++◌, ◌+◌,
  ◌==◌, ◌∷◌,
}
use whs_secure_coding.Admin.Products.{product_status_word}
use whs_secure_coding.Admin.Reports.{target_word}
use whs_secure_coding.Audit.{add_audit_log}
use whs_secure_coding.Config.{report_auto_restriction_threshold}
use whs_secure_coding.Platform.{Platform}
use whs_secure_coding.Schema.{
  Db, Details, Product, ProductStatus, Report, ReportStatus, TargetType, User, UserStatus, Value,
  is_active, is_admin, same_target,
}
use whs_secure_coding.Schema.Constraints.{report_allowed}
use whs_secure_coding.Session.{
  Error, Tx, attempt, commit, flush, integrity_error, modify, new_uuid, or_return, pure, query,
  raise, return_if, rollback, utc_now, value_error, ◌>>=◌, ◌>>◌,
}
use whs_secure_coding.Text.{Text, text_eq}
use whs_secure_coding.Wallet.Policy.{Arg}
use Policy.{Reason, is_effective, is_reportable, normalize_report_reason}

pub data ReportCreateResult : Type 0 where
  created duplicate self_target target_unavailable auto_restricted database_error :
      ReportCreateResult

-- What a service returns, and the user whose sockets it disconnects.
pub record ReportOutcome : Type 0 where
  pub result : ReportCreateResult
  pub disconnects : Option ℕ

abbrev pub answer : ReportCreateResult → ReportOutcome
answer r = record { result = r; disconnects = none }

-- `user_target` or `product_target`.
pub data Target : Type 0 where
  user_target : User → Target
  product_target : Product → Target

abbrev pub target_type_of : Target → TargetType
target_type_of (Target.user_target u) = TargetType.user
target_type_of (Target.product_target p) = TargetType.product

abbrev pub target_id_of : Target → ℕ
target_id_of (Target.user_target u) = u.id
target_id_of (Target.product_target p) = p.id

abbrev pub is_same_report : ℕ → TargetType → ℕ → Report → Bool
is_same_report reporter_id t id r =
    r.reporter_id == reporter_id && same_target r.target_type t && r.target_id == id

-- `_already_reported`
unfoldable pub already_reported : ℕ → TargetType → ℕ → Db → Bool
already_reported reporter_id t id db = any (is_same_report reporter_id t id) db.reports

-- `_effective_report_count`
unfoldable pub effective_report_count : TargetType → ℕ → Db → ℕ
effective_report_count t id db =
    count
      (λ (r : Report). same_target r.target_type t && r.target_id == id && is_effective r.status)
      db.reports

-- `db.session.add(report)`
abbrev pub add_report : Report → Db → Db
add_report r db = record db { reports = db.reports ++ r ∷ [] }

-- The conditions of the two restrictions, with the number of effective reports.
abbrev pub restricts : Target → ℕ → Bool
restricts (Target.product_target p) n =
    leb report_auto_restriction_threshold n && is_reportable p.status
restricts (Target.user_target u) n =
    leb report_auto_restriction_threshold n && is_active u.status && not (is_admin u.role)

-- The assignments to the target.
abbrev pub restrict_target : Target → Db → Db
restrict_target (Target.product_target p) db = record db {
  products =
      update (λ (q : Product). q.id == p.id)
        (λ (q : Product). record q {
          moderation_previous_status = some p.status;
          status = ProductStatus.hidden;
        })
        db.products;
}
restrict_target (Target.user_target u) db = record db {
  users =
      update (λ (v : User). v.id == u.id)
        (λ (v : User). record v { status = UserStatus.dormant; auth_version = v.auth_version + 1 })
        db.users;
}

abbrev pub restriction_action : Target → String
restriction_action (Target.product_target p) = "moderation.product.auto_hidden"
restriction_action (Target.user_target u) = "moderation.user.auto_dormant"

abbrev pub restriction_details : Target → ℕ → Details
restriction_details (Target.product_target p) n =
    ("previous_status", Value.str (product_status_word p.status))
    ∷ ("new_status", Value.str "hidden")
    ∷ ("report_count", Value.num n)
    ∷ []
restriction_details (Target.user_target u) n =
    ("previous_status", Value.str "active")
    ∷ ("new_status", Value.str "dormant")
    ∷ ("report_count", Value.num n)
    ∷ []

abbrev pub restricted_answer : Target → ReportOutcome
restricted_answer (Target.product_target p) = answer ReportCreateResult.auto_restricted
restricted_answer (Target.user_target u) = record {
  result = ReportCreateResult.auto_restricted;
  disconnects = some u.id;
}

-- The two branches after the count.
unfoldable pub restrict : Target → ℕ → Tx ReportOutcome
restrict t n =
    return_if (restricts t n)
      (do
        modify (restrict_target t)
        add_audit_log none (restriction_action t) (target_word (target_type_of t))
            (some (target_id_of t)) (some (restriction_details t n))
        commit
        pure (restricted_answer t))
      (do commit; pure (answer ReportCreateResult.created))

-- The two `except` clauses.
unfoldable pub on_report_error : ℕ → Target → Error → Tx ReportOutcome
on_report_error reporter_id t integrity_error = do
  rollback
  already ← query (already_reported reporter_id (target_type_of t) (target_id_of t))
  return_if already (pure (answer ReportCreateResult.duplicate))
      (pure (answer ReportCreateResult.database_error))
on_report_error reporter_id t _ = do rollback; pure (answer ReportCreateResult.database_error)

-- From the insertion of the report to the end.
unfoldable pub file_report : ℕ → Target → Text → Tx ReportOutcome
file_report reporter_id t reason =
    attempt
      (do
        id ← new_uuid
        now ← utc_now
        let report : Report = record {
          id = id;
          reporter_id = reporter_id;
          target_type = target_type_of t;
          target_id = target_id_of t;
          reason = reason;
          status = ReportStatus.pending;
          reviewed_by_id = none;
          reviewed_at = none;
          created_at = now;
        }
        flush (λ db. report_allowed db report) (add_report report)
        add_audit_log (some reporter_id) "report.created" "report" (some id)
            (some (("target_type", Value.str (target_word (target_type_of t))) ∷ []))
        n ← query (effective_report_count (target_type_of t) (target_id_of t))
        restrict t n)
      (on_report_error reporter_id t)

-- `_create_report` after `normalize_report_reason`.
abbrev pub report_reason : ℕ → Target → Reason → Tx ReportOutcome
report_reason reporter_id t (Reason.valid text) = do
  already ← query (already_reported reporter_id (target_type_of t) (target_id_of t))
  return_if already (pure (answer ReportCreateResult.duplicate)) (file_report reporter_id t text)
report_reason reporter_id t Reason.invalid = pure (answer ReportCreateResult.database_error)
report_reason reporter_id t Reason.unencodable = raise value_error

-- `_create_report`
unfoldable pub create_report : Platform → ℕ → Target → Arg → Tx ReportOutcome
create_report p reporter_id t reason =
    report_reason reporter_id t (normalize_report_reason p reason)

abbrev pub find_active_user : Text → Db → Option User
find_active_user name db =
    find (λ (u : User). text_eq u.username name && is_active u.status) db.users

abbrev pub find_reportable_product : ℕ → Db → Option Product
find_reportable_product id db =
    find (λ (p : Product). p.id == id && is_reportable p.status) db.products

unfoldable pub create_user_report : Platform → ℕ → Text → Arg → Tx ReportOutcome
create_user_report p reporter_id target_username reason = do
  target ← query (find_active_user target_username)
  or_return target (pure (answer ReportCreateResult.target_unavailable)) λ (u : User).
      return_if (u.id == reporter_id) (pure (answer ReportCreateResult.self_target))
        (create_report p reporter_id (Target.user_target u) reason)

unfoldable pub create_product_report : Platform → ℕ → ℕ → Arg → Tx ReportOutcome
create_product_report p reporter_id product_id reason = do
  target ← query (find_reportable_product product_id)
  or_return target (pure (answer ReportCreateResult.target_unavailable)) λ (q : Product).
      return_if (q.seller_id == reporter_id) (pure (answer ReportCreateResult.self_target))
        (create_report p reporter_id (Target.product_target q) reason)
