-- ===== src/Accounts.antt =====
-- app/auth/services.py, and `change_password` of app/users/services.py. The salt of
-- `generate_password_hash` is an argument.
pub mod Registration
pub mod Passwords
pub mod Sessions
pub mod Revocation
pub mod Profiles
pub mod Administrators
mod Tests
use whs_secure_coding.Prelude.{
  Option, [], if◌then◌else◌, none, not, some, update, ℕ, ◌++◌, ◌+◌, ◌==◌, ◌∷◌,
}
use whs_secure_coding.Admin.Users.{find_user}
use whs_secure_coding.Config.{initial_balance}
use whs_secure_coding.Platform.{Platform}
use whs_secure_coding.Schema.{Db, Role, User, UserStatus, Wallet, is_active}
use whs_secure_coding.Schema.Constraints.{user_allowed, wallet_allowed}
use whs_secure_coding.Session.{
  Error, Tx, attempt, commit, flush, integrity_error, modify, new_uuid, or_return, pure, query,
  return_if, rollback, utc_now, ◌>>=◌, ◌>>◌,
}
use whs_secure_coding.Text.{Text}

pub data RegistrationResult : Type 0 where
  created duplicate_username database_error : RegistrationResult

-- `Wallet(user=user, balance=100000)` beside the new user.
abbrev pub add_user : User → Db → Db
add_user u db = record db { users = db.users ++ u ∷ [] }

abbrev pub add_wallet : Wallet → Db → Db
add_wallet w db = record db { wallets = db.wallets ++ w ∷ [] }

abbrev pub new_user : Platform → ℕ → ℕ → Text → Text → ℕ → User
new_user p salt id username password now = record {
  id = id;
  username = username;
  password_hash = p.generate_password_hash salt password;
  bio = [];
  role = Role.user;
  status = UserStatus.active;
  auth_version = 1;
  created_at = now;
}

abbrev pub new_wallet : ℕ → Wallet
new_wallet id = record { user_id = id; balance = initial_balance }

-- The two `except` clauses.
unfoldable pub on_register_error : Error → Tx RegistrationResult
on_register_error integrity_error = do rollback; pure RegistrationResult.duplicate_username
on_register_error _ = do rollback; pure RegistrationResult.database_error

unfoldable pub register_user : Platform → ℕ → Text → Text → Tx RegistrationResult
register_user p salt username password = do
  existing_user ← query (find_user username)
  or_return existing_user
      (attempt
        (do
          id ← new_uuid
          now ← utc_now
          flush (λ db. user_allowed db (new_user p salt id username password now))
              (add_user (new_user p salt id username password now))
          flush (λ db. wallet_allowed db (new_wallet id)) (add_wallet (new_wallet id))
          commit
          pure RegistrationResult.created)
        on_register_error)
      (λ _. pure RegistrationResult.duplicate_username)

-- The tests of `authenticate_user` on the row; the check against the dummy hash has no result.
abbrev pub authenticated : Platform → Text → Option User → Option User
authenticated p password none = none
authenticated p password (some u) =
    if not (is_active u.status)
    then none
    else if p.check_password_hash u.password_hash password
    then some u
    else none

unfoldable pub authenticate_user : Platform → Text → Text → Tx (Option User)
authenticate_user p username password = do
  found ← query (find_user username)
  pure (authenticated p password found)

pub data PasswordChangeResult : Type 0 where
  changed current_password_invalid password_unchanged database_error : PasswordChangeResult

abbrev pub with_password : Text → User → User
with_password hash u = record u { password_hash = hash; auth_version = u.auth_version + 1 }

-- The assignments to the row of `user`.
abbrev pub set_password : ℕ → Text → Db → Db
set_password id hash db = record db {
  users = update (λ (u : User). u.id == id) (with_password hash) db.users;
}

-- `change_password`, of the user that the session has loaded.
unfoldable pub change_password : Platform → ℕ → User → Text → Text → Tx PasswordChangeResult
change_password p salt user current_password new_password =
    return_if (not (p.check_password_hash user.password_hash current_password))
      (pure PasswordChangeResult.current_password_invalid)
      (return_if (p.check_password_hash user.password_hash new_password)
        (pure PasswordChangeResult.password_unchanged)
        do
          modify (set_password user.id (p.generate_password_hash salt new_password))
          attempt (do commit; pure PasswordChangeResult.changed)
              (λ _. do rollback; pure PasswordChangeResult.database_error))
