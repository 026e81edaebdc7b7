-- ===== src/Accounts/Passwords.antt =====
-- What a change of the password makes of the user's row.
use whs_secure_coding.Prelude.{
  [], false, find, find-update_same, refl, some, true, ℕ, ◌+◌, ◌==◌, ◌≡◌,
}
use whs_secure_coding.Accounts.{PasswordChangeResult, change_password, with_password}
use whs_secure_coding.Platform.{Platform, PlatformLaws}
use whs_secure_coding.Schema.{Db, User}
use whs_secure_coding.Session.{ok, open_session, ◌>>=◌}
use whs_secure_coding.Text.{Text}

-- Where the database does not fail and a password is accepted against its own hashes: a change with
-- the right current password, to one that is not accepted yet, is answered CHANGED, and the row of
-- the user then has a session version one higher, is otherwise the same but for the hash, and
-- accepts the new password.
pub change_password_renews :
    (p : Platform) (laws : PlatformLaws p) (salt : ℕ) (user : User)
    (current_password new_password : Text) (db : Db) (uuids : ℕ → ℕ) (now : ℕ)
    → find (λ (u : User). u.id == user.id) db.users ≡ some user
    → p.check_password_hash user.password_hash current_password ≡ true
    → p.check_password_hash user.password_hash new_password ≡ false
    → let (r, s) =
        change_password p salt user current_password new_password (open_session db [] uuids now) in
      (r ≡ ok PasswordChangeResult.changed)
      × ((hash : Text) × (find (λ (u : User). u.id == user.id) s.committed.users
            ≡ some (record user { password_hash = hash; auth_version = user.auth_version + 1 }))
          × (p.check_password_hash hash new_password ≡ true))
unfolding change_password ◌>>=◌
change_password_renews p laws salt user current_password new_password db uuids now found right
      fresh =
    let hash = p.generate_password_hash salt new_password in
    rw (right, fresh)
      (
        refl,
        (
          hash,
          find-update_same (λ (u : User). u.id == user.id) (with_password hash) db.users user found
              (λ y h. h),
          laws.check_generated salt new_password,
        ),
      )
