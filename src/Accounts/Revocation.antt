-- ===== src/Accounts/Revocation.antt =====
-- What a change of the password does to the sessions of the user.
use whs_secure_coding.Prelude.{
  ==_refl, Bool, List, Option, arith, false, find-update_same, holds, if◌then◌else◌, inl, inr, ltb,
  none, not, refl, some, subst, sym, true, ℕ, ◌&&◌, ◌+◌, ◌==◌, ◌||◌, ◌≡◌, ◌≢◌, ◌⊎◌,
}
use whs_secure_coding.Accounts.{PasswordChangeResult, change_password, set_password, with_password}
use whs_secure_coding.Accounts.Sessions.{
  Cookie, clear_authentication_session, establish_authenticated_session, load_user, loaded,
}
use whs_secure_coding.Chat.Connections.{ConnectionRecord, is_stale, is_stale_for}
use whs_secure_coding.Chat.Conversations.{user_by_id}
use whs_secure_coding.Config.{chat_socket_max_age_seconds}
use whs_secure_coding.Platform.{Platform, PlatformLaws}
use whs_secure_coding.Schema.{Db, User, is_active}
use whs_secure_coding.Session.{Result, Signal, open_session, raised}
use whs_secure_coding.Session.Ends.{
  Ends, Ends-attempt, Ends-commit, Ends-modify, Ends-pure, Ends-return_if, Ends-rollback,
  Ends-weaken, Unless,
}
use whs_secure_coding.Text.{Text}
use whs_secure_coding.Session.{ok}

-- Nothing is committed and the answer is not CHANGED, or the new hash is, with a version one higher.
pub data PasswordEffect (p : Platform) (salt : ℕ) (user : User) (new_password : Text) (db d : Db)
    (o : PasswordChangeResult) : Type 0 where
  kept : d ≡ db → o ≢ PasswordChangeResult.changed → PasswordEffect p salt user new_password db d o
  renewed :
      d ≡ set_password user.id (p.generate_password_hash salt new_password) db
      → (o ≡ PasswordChangeResult.changed) ⊎ (o ≡ PasswordChangeResult.database_error)
      → PasswordEffect p salt user new_password db d o

change_password-Ends :
    (p : Platform) (salt : ℕ) (user : User) (current_password new_password : Text) (db : Db)
    → Ends db db
        (change_password p salt user current_password new_password)
        (Unless db (PasswordEffect p salt user new_password db))
unfolding change_password
change_password-Ends p salt user current_password new_password db =
    Ends-return_if _ (λ wrong. Ends-pure _ (kept refl (λ e. cc)))
      (λ right.
        Ends-return_if _ (λ same. Ends-pure _ (kept refl (λ e. cc)))
          (λ fresh. Ends-modify _ _ (
            Ends-attempt _ (
              Ends-commit _ (λ e. Ends-rollback _ (Ends-pure _ (kept refl (λ e. cc))))
                (Ends-rollback _ (Ends-pure _ (renewed refl (inr refl))))
                (Ends-pure _ (renewed refl (inl refl)))))))

-- The sessions and the sockets of the user that were opened before are not accepted any more.
pub record IsRevoked (user : User) (d : Db) : Type 0 where
  pub session : (load_user user.id (establish_authenticated_session user) d).0 ≡ none
  pub sockets :
      (r : ConnectionRecord) (now : ℕ)
      → r.user_id ≡ user.id
      → r.auth_version ≡ user.auth_version
      → is_stale d now r ≡ true

-- The user may log in with the password, and the session that is opened then is accepted.
pub record IsRenewed (p : Platform) (user : User) (password : Text) (d : Db) : Type 0 where
  pub row : User
  pub found : user_by_id user.id d ≡ some row
  pub accepts : p.check_password_hash row.password_hash password ≡ true
  pub session :
      is_active user.status ≡ true
      → (load_user user.id (establish_authenticated_session row) d).0 ≡ some row

renewed_row :
    (user : User) (hash : Text) (db : Db)
    → user_by_id user.id db ≡ some user
    → user_by_id user.id (set_password user.id hash db) ≡ some (with_password hash user)
renewed_row user hash db found =
    find-update_same (λ (u : User). u.id == user.id) (with_password hash) db.users user found
      (λ y h. h)

older_version : (n : ℕ) → (n == n + 1) ≡ false
older_version n = ground arith

newer_version : (n : ℕ) → (n + 1 == n) ≡ false
newer_version n = ground arith

-- A row of another version, whether it is active or not.
loaded_other :
    (cookie : Cookie) (u : User)
    → holds cookie.auth_version u.auth_version ≡ false
    → (loaded cookie (some u)).0 ≡ none
loaded_other cookie u h = by_status (is_active u.status)
  where
    by_status :
        (b : Bool)
        → let out : Option User × Cookie =
            if b && holds cookie.auth_version u.auth_version
            then (some u, cookie)
            else (none, clear_authentication_session cookie) in
          out.0 ≡ none
    by_status true = rw h refl
    by_status false = refl

stale_other :
    (r : ConnectionRecord) (now max_age : ℕ) (u : User)
    → (u.auth_version == r.auth_version) ≡ false
    → is_stale_for r now max_age (some u) ≡ true
stale_other r now max_age u h = by_status (is_active u.status)
  where
    by_status :
        (b : Bool)
        → not b
            || not (u.auth_version == r.auth_version)
            || ltb (r.connected_monotonic + max_age) now
          ≡ true
    by_status true = rw h refl
    by_status false = refl

module _ (user : User) (hash : Text) (db : Db) (found : user_by_id user.id db ≡ some user) where
  set_password-IsRevoked : IsRevoked user (set_password user.id hash db)
  unfolding load_user is_stale
  set_password-IsRevoked = record {
    session = rw (renewed_row user hash db found) (
        loaded_other (establish_authenticated_session user) (with_password hash user)
          (older_version user.auth_version));
    sockets = λ r now own version.
        rw (own, renewed_row user hash db found)
          (stale_other r now chat_socket_max_age_seconds (with_password hash user)
            (rw version (newer_version user.auth_version)));
  }

  set_password-IsRenewed :
      (p : Platform) (password : Text)
      → p.check_password_hash hash password ≡ true
      → IsRenewed p user password (set_password user.id hash db)
  unfolding load_user
  set_password-IsRenewed p password accepts = record {
    row = with_password hash user;
    found = renewed_row user hash db found;
    accepts = accepts;
    session =
        λ active. rw (renewed_row user hash db found, active, ==_refl (user.auth_version + 1)) refl;
  }

-- What the answers of `change_password` mean.
abbrev pub Answered : Platform → User → Text → Db → Db → PasswordChangeResult → Type 0
Answered p user password db d PasswordChangeResult.changed =
    IsRevoked user d × IsRenewed p user password d
Answered p user password db d PasswordChangeResult.database_error =
    (d ≡ db) ⊎ (IsRevoked user d × IsRenewed p user password d)
Answered p user password db d _ = d ≡ db

PasswordEffect-Answered :
    (p : Platform) (laws : PlatformLaws p) (salt : ℕ) (user : User) (password : Text) (db d : Db)
    (o : PasswordChangeResult)
    → user_by_id user.id db ≡ some user
    → PasswordEffect p salt user password db d o
    → Answered p user password db d o
PasswordEffect-Answered p laws salt user password db d PasswordChangeResult.changed found
      (PasswordEffect.kept same other) =
    absurd (other refl)
PasswordEffect-Answered p laws salt user password db d PasswordChangeResult.database_error found
      (PasswordEffect.kept same other) =
    inl same
PasswordEffect-Answered p laws salt user password db d PasswordChangeResult.current_password_invalid
      found (PasswordEffect.kept same other) =
    same
PasswordEffect-Answered p laws salt user password db d PasswordChangeResult.password_unchanged found
      (PasswordEffect.kept same other) =
    same
PasswordEffect-Answered p laws salt user password db d o found
      (PasswordEffect.renewed after reply) =
    answered o reply
  where
    hash : Text
    hash = p.generate_password_hash salt password

    both : IsRevoked user d × IsRenewed p user password d
    both = (
      subst (IsRevoked user) (sym after) (set_password-IsRevoked user hash db found),
      subst (IsRenewed p user password) (sym after) (
          set_password-IsRenewed user hash db found p password
            (laws.check_generated salt password)),
    )

    answered :
        (r : PasswordChangeResult)
        → (r ≡ PasswordChangeResult.changed) ⊎ (r ≡ PasswordChangeResult.database_error)
        → Answered p user password db d r
    answered PasswordChangeResult.changed e = both
    answered PasswordChangeResult.database_error e = inr both
    answered PasswordChangeResult.current_password_invalid (inl e) = absurd (cc)
    answered PasswordChangeResult.current_password_invalid (inr e) = absurd (cc)
    answered PasswordChangeResult.password_unchanged (inl e) = absurd (cc)
    answered PasswordChangeResult.password_unchanged (inr e) = absurd (cc)

-- Whatever the database does, where the user is the row of its id and a password is accepted against
-- its own hashes: after `change_password` answers CHANGED, the sessions and the chat sockets of the
-- user that were opened before are refused, the new password is accepted, and a session that is
-- opened with it is loaded while the user is active; after DATABASE_ERROR this holds or nothing is
-- committed; and after every other answer, or an exception, nothing is.
pub change_password_revokes :
    (p : Platform) (laws : PlatformLaws p) (salt : ℕ) (user : User)
    (current_password new_password : Text) (db : Db) (signals : List Signal) (uuids : ℕ → ℕ)
    (now : ℕ)
    → user_by_id user.id db ≡ some user
    → let (r, t) =
        change_password p salt user current_password new_password
          (open_session db signals uuids now) in
      Unless db (Answered p user new_password db) r t.working t.committed
change_password_revokes p laws salt user current_password new_password db signals uuids now found =
    (Ends-weaken (Unless db (PasswordEffect p salt user new_password db))
        (Unless db (Answered p user new_password db)) (λ r w d. weaken r w d)
        (change_password-Ends p salt user current_password new_password db)).at
      (open_session db signals uuids now) refl refl
  where
    weaken :
        (r : Result PasswordChangeResult) (w d : Db)
        → Unless db (PasswordEffect p salt user new_password db) r w d
        → Unless db (Answered p user new_password db) r w d
    weaken (ok o) w d h = PasswordEffect-Answered p laws salt user new_password db d o found h
    weaken (raised e) w d h = h
