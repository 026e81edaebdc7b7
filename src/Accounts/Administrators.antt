-- ===== src/Accounts/Administrators.antt =====
-- app/cli.py: the command create-admin. The user name is its option, and the password and the
-- confirmation are what `click.prompt` returns.
use whs_secure_coding.Prelude.{
  Bool, [], is_none, leb, length, none, not, some, true, ℕ, ◌&&◌, ◌∷◌, ◌≡◌, ◌≢◌, ◌⊎◌,
}
use whs_secure_coding.Accounts.{add_user, add_wallet, new_user, new_wallet}
use whs_secure_coding.Admin.Users.{find_user}
use whs_secure_coding.Audit.{add_audit_log, add_row, entry}
use whs_secure_coding.Platform.{Platform}
use whs_secure_coding.Schema.{Db, Details, Role, User, Value}
use whs_secure_coding.Schema.Constraints.{user_allowed, wallet_allowed}
use whs_secure_coding.Session.{
  Tx, attempt, commit, flush, new_uuid, pure, query, return_if, rollback, utc_now,
}
use whs_secure_coding.Session.Ends.{Ends, Post, Unless}
use whs_secure_coding.Text.{Text, matches_username, strip, text_eq}
use whs_secure_coding.Session.{◌>>=◌, ◌>>◌}

-- The account is created, or the message of the ClickException.
pub data AdminCreation : Type 0 where
  created invalid_username unavailable confirmation_differs bad_length creation_failed :
      AdminCreation

-- `_valid_username`
unfoldable pub valid_username : Text → Bool
valid_username s = leb 4 (length s) && leb (length s) 32 && matches_username s

-- `User(username=..., role="admin", status="active", auth_version=1)`, with its password.
abbrev pub new_admin : Platform → ℕ → ℕ → Text → Text → ℕ → User
new_admin p salt id username password now = record (new_user p salt id username password now) {
  role = Role.admin;
}

abbrev pub account_details : Text → Details
account_details username = ("username", Value.text username) ∷ []

-- From `admin = User(...)` to the end.
unfoldable pub insert_admin : Platform → ℕ → Text → Text → Tx AdminCreation
insert_admin p salt username password =
    attempt
      (do
        id ← new_uuid
        now ← utc_now
        flush (λ db. user_allowed db (new_admin p salt id username password now))
            (add_user (new_admin p salt id username password now))
        flush (λ db. wallet_allowed db (new_wallet id)) (add_wallet (new_wallet id))
        add_audit_log none "admin.account_created" "user" (some id)
            (some (account_details username))
        commit
        pure AdminCreation.created)
      (λ _. do rollback; pure AdminCreation.creation_failed)

unfoldable pub create_admin : Platform → ℕ → Text → Text → Text → Tx AdminCreation
create_admin p salt username password confirmation =
    return_if (not (valid_username (strip username))) (pure AdminCreation.invalid_username) do
      existing ← query (find_user (strip username))
      return_if (not (is_none existing)) (pure AdminCreation.unavailable) (
          return_if (not (text_eq password confirmation)) (pure AdminCreation.confirmation_differs)
            (return_if (not (leb 12 (length password) && leb (length password) 128))
              (pure AdminCreation.bad_length) (insert_admin p salt (strip username) password)))

-- The database with the administrator, its wallet and the audit row.
abbrev pub with_admin : Platform → ℕ → ℕ → ℕ → ℕ → ℕ → Text → Text → Db → Db
with_admin p salt id now audit_id audit_now username password db =
    add_row
      (entry audit_id audit_now none "admin.account_created" "user" (some id)
        (some (account_details username)))
      (add_wallet (new_wallet id) (add_user (new_admin p salt id username password now) db))

-- Nothing is committed and the account is not created; or all three rows are committed, of a name
-- that is valid and was free and of a confirmed password, and the account is created or the commit
-- raised.
pub data AdminEffect (p : Platform) (salt : ℕ) (username password confirmation : Text) (db d : Db)
    (o : AdminCreation) : Type 0 where
  kept :
      d ≡ db → o ≢ AdminCreation.created → AdminEffect p salt username password confirmation db d o
  enrolled :
      (id now audit_id audit_now : ℕ)
      → valid_username (strip username) ≡ true
      → is_none (find_user (strip username) db) ≡ true
      → text_eq password confirmation ≡ true
      → leb 12 (length password) && leb (length password) 128 ≡ true
      → d ≡ with_admin p salt id now audit_id audit_now (strip username) password db
      → (o ≡ AdminCreation.created) ⊎ (o ≡ AdminCreation.creation_failed)
      → AdminEffect p salt username password confirmation db d o

module _ (p : Platform) (salt : ℕ) (username password confirmation : Text) (db : Db) where
  abbrev AdminPost : Post AdminCreation
  AdminPost = Unless db (AdminEffect p salt username password confirmation db)
