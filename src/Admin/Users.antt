-- ===== src/Admin/Users.antt =====
-- app/admin/services.py: `change_user_status`.
use whs_secure_coding.Prelude.{
  Bool, Option, String, [], count, find, if◌then◌else◌, ltb, none, not, some, update, ℕ, ◌&&◌, ◌+◌,
  ◌==◌, ◌∷◌,
}
use whs_secure_coding.Admin.{AdminMutationResult, Mutation, commit_with_audit, only}
use whs_secure_coding.Schema.{Db, Details, User, UserStatus, Value, is_active, is_admin}
use whs_secure_coding.Session.{Tx, modify, or_return, pure, query, return_if, ◌>>=◌, ◌>>◌}
use whs_secure_coding.Text.{Text, codes, text_eq}

abbrev pub user_status_word : UserStatus → String
user_status_word UserStatus.active = "active"
user_status_word UserStatus.dormant = "dormant"

-- `new_status not in {"active", "dormant"}`, with the status where it is one.
abbrev pub user_status_of : Text → Option UserStatus
user_status_of t =
    if text_eq t (codes "active")
    then some UserStatus.active
    else if text_eq t (codes "dormant")
    then some UserStatus.dormant
    else none

abbrev pub same_user_status : UserStatus → UserStatus → Bool
same_user_status s t = if is_active s then is_active t else not (is_active t)

abbrev pub user_status_action : UserStatus → String
user_status_action UserStatus.active = "admin.user.active"
user_status_action UserStatus.dormant = "admin.user.dormant"

-- `select(User).where(User.username == name)`
abbrev pub find_user : Text → Db → Option User
find_user name db = find (λ (u : User). text_eq u.username name) db.users

abbrev pub is_active_admin : User → Bool
is_active_admin u = is_admin u.role && is_active u.status

-- `other_active_admins`
abbrev pub other_active_admins : ℕ → Db → ℕ
other_active_admins id db = count (λ (u : User). is_active_admin u && not (u.id == id)) db.users

abbrev pub with_status : UserStatus → User → User
with_status new u = record u { status = new; auth_version = u.auth_version + 1 }

-- The assignments to the row of `target`.
abbrev pub set_user_status : ℕ → UserStatus → Db → Db
set_user_status id new db = record db {
  users = update (λ (u : User). u.id == id) (with_status new) db.users;
}

-- The assignments under `if changed`.
abbrev pub apply_user_status : User → UserStatus → Db → Db
apply_user_status target new db =
    if same_user_status target.status new then db else set_user_status target.id new db

abbrev pub user_status_answer : User → UserStatus → Mutation
user_status_answer target new =
    if same_user_status target.status new
    then only AdminMutationResult.idempotent
    else record { result = AdminMutationResult.done; disconnects = some target.id }

abbrev pub user_status_details : User → UserStatus → Details
user_status_details target new =
    ("previous_status", Value.str (user_status_word target.status))
    ∷ ("new_status", Value.str (user_status_word new))
    ∷ []

-- From `previous = target.status` to the end.
unfoldable pub settle_user_status : ℕ → User → UserStatus → Tx Mutation
settle_user_status actor_id target new = do
  modify (apply_user_status target new)
  commit_with_audit (user_status_answer target new) actor_id (user_status_action new) "user"
      target.id (user_status_details target new)

unfoldable pub change_user_status : ℕ → Text → Text → Tx Mutation
change_user_status actor_id target_username new_status =
    or_return (user_status_of new_status) (pure (only AdminMutationResult.invalid_state)) λ new. do
      target ← query (find_user target_username)
      or_return target (pure (only AdminMutationResult.not_found)) λ (u : User).
          return_if (not (is_active new) && u.id == actor_id)
            (pure (only AdminMutationResult.self_protected))
            (return_if (not (is_active new) && is_active_admin u)
              (do
                others ← query (other_active_admins u.id)
                return_if (ltb others 1) (pure (only AdminMutationResult.last_admin))
                    (settle_user_status actor_id u new))
              (settle_user_status actor_id u new))
