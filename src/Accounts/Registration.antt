-- ===== src/Accounts/Registration.antt =====
-- What a registration and a change of the password guarantee.
use whs_secure_coding.Prelude.{
  List, [], find, find-append_none, inl, inr, none, refl, some, ℕ, ◌∙◌, ◌∷◌, ◌≡◌, ◌≢◌, ◌⊎◌,
}
use whs_secure_coding.Accounts.{
  RegistrationResult, add_user, add_wallet, authenticate_user, new_user, new_wallet,
  on_register_error, register_user,
}
use whs_secure_coding.Admin.Users.{find_user}
use whs_secure_coding.Platform.{Platform, PlatformLaws}
use whs_secure_coding.Schema.{Db, User}
use whs_secure_coding.Session.{
  Error, Result, Session, Signal, integrity_error, ok, open_session, raised, sqlalchemy_error,
  value_error, ◌>>=◌,
}
use whs_secure_coding.Session.Ends.{
  Ends, Ends-attempt, Ends-commit, Ends-flush, Ends-new_uuid, Ends-or_return, Ends-pure, Ends-query,
  Ends-rollback, Ends-utc_now, Post, Unless,
}
use whs_secure_coding.Text.{Text, text_eq}
use whs_secure_coding.Text.Laws.{text_eq_refl}

-- The database with a new user and its wallet.
abbrev pub registered : Platform → ℕ → ℕ → ℕ → Text → Text → Db → Db
registered p salt id now username password db =
    add_wallet (new_wallet id) (add_user (new_user p salt id username password now) db)

-- Nothing is committed and the answer is not CREATED, or the user is committed with its wallet.
pub data RegisterEffect (p : Platform) (salt : ℕ) (username password : Text) (db d : Db)
    (o : RegistrationResult) : Type 0 where
  kept : d ≡ db → o ≢ RegistrationResult.created → RegisterEffect p salt username password db d o
  enrolled :
      (id now : ℕ)
      → find_user username db ≡ none
      → d ≡ registered p salt id now username password db
      → (o ≡ RegistrationResult.created) ⊎ (o ≡ RegistrationResult.database_error)
      → RegisterEffect p salt username password db d o

module _ (p : Platform) (salt : ℕ) (username password : Text) (db : Db) where
  abbrev RegisterPost : Post RegistrationResult
  RegisterPost = Unless db (λ d o. RegisterEffect p salt username password db d o)

  on_register_error-kept : (w : Db) (e : Error) → Ends w db (on_register_error e) RegisterPost
  unfolding on_register_error
  on_register_error-kept w integrity_error = Ends-rollback _ (Ends-pure _ (kept refl (λ e. cc)))
  on_register_error-kept w sqlalchemy_error = Ends-rollback _ (Ends-pure _ (kept refl (λ e. cc)))
  on_register_error-kept w value_error = Ends-rollback _ (Ends-pure _ (kept refl (λ e. cc)))

  on_register_error-lost :
      (w d : Db)
      → RegisterEffect p salt username password db d RegistrationResult.database_error
      → Ends w d (on_register_error sqlalchemy_error) RegisterPost
  unfolding on_register_error
  on_register_error-lost w d h = Ends-rollback _ (Ends-pure _ h)

  register_user-Ends : Ends db db (register_user p salt username password) RegisterPost
  unfolding register_user
  register_user-Ends =
      Ends-query _ _ (λ e. refl)
        (Ends-or_return _
          (λ fresh. Ends-attempt _ (
            Ends-new_uuid _ λ id. Ends-utc_now _ λ now.
              Ends-flush _ _ _ (λ e. on_register_error-kept db e)
                λ user_fits.
                  Ends-flush _ _ _ (λ e. on_register_error-kept _ e)
                    λ wallet_fits.
                      Ends-commit _ (λ e. on_register_error-kept _ e)
                        (on_register_error-lost _ _ (enrolled id now fresh refl (inr refl)))
                        (Ends-pure _ (enrolled id now fresh refl (inl refl)))))
          (λ u found. Ends-pure _ (kept refl (λ e. cc))))

-- Whatever the database does, `register_user` raises, with nothing committed; or does not answer
-- CREATED and has nothing committed; or the name was free, what is committed is the active user of
-- role `user` together with its wallet of 100000, and the answer is CREATED, or DATABASE_ERROR where
-- the commit raised.
pub register_user_atomic :
    (p : Platform) (salt : ℕ) (username password : Text) (db : Db) (signals : List Signal)
    (uuids : ℕ → ℕ) (now : ℕ)
    → let (r, s) = register_user p salt username password (open_session db signals uuids now) in
      Unless db (λ d o. RegisterEffect p salt username password db d o) r s.working s.committed
register_user_atomic p salt username password db signals uuids now =
    (register_user-Ends p salt username password db).at (open_session db signals uuids now) refl
      refl

find_new : (u : User) → find (λ (v : User). text_eq v.username u.username) (u ∷ []) ≡ some u
unfolding find
find_new u = rw (text_eq_refl u.username) refl

-- Where a password is accepted against its own hashes: whatever the database did to the call, once
-- `register_user` has answered CREATED, the same name and password authenticate the new user.
pub register_then_authenticate :
    (p : Platform) (laws : PlatformLaws p) (salt : ℕ) (username password : Text) (db : Db)
    (signals : List Signal) (uuids : ℕ → ℕ) (now : ℕ) (later : ℕ → ℕ) (then_now : ℕ)
    → (register_user p salt username password (open_session db signals uuids now)).0
      ≡ ok RegistrationResult.created
    → let (r, s) = register_user p salt username password (open_session db signals uuids now) in
      (u : User) × (u.username ≡ username)
      × ((authenticate_user p username password (open_session s.committed [] later then_now)).0
          ≡ ok (some u))
unfolding authenticate_user ◌>>=◌
register_then_authenticate p laws salt username password db signals uuids now later then_now
      created =
    let (r, s) = register_user p salt username password (open_session db signals uuids now) in
    by_effect r s created (register_user_atomic p salt username password db signals uuids now)
  where
    by_effect :
        (r : Result RegistrationResult) (s : Session)
        → r ≡ ok RegistrationResult.created
        → Unless db (λ d o. RegisterEffect p salt username password db d o) r s.working s.committed
        → (u : User) × (u.username ≡ username)
          × ((authenticate_user p username password (open_session s.committed [] later then_now)).0
              ≡ ok (some u))
    by_effect (raised e) s h effect = absurd (cc)
    by_effect (ok o) s h (RegisterEffect.kept same not_created) = absurd (not_created (cc))
    by_effect (ok o) s h (RegisterEffect.enrolled id at fresh after reply) =
        let u : User = new_user p salt id username password at in
        let found =
          find-append_none (λ (v : User). text_eq v.username username) db.users (u ∷ []) fresh
          ∙ find_new u in
        (u, refl, rw (after, found, laws.check_generated salt password) refl)
