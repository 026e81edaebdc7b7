-- ===== src/Accounts/Tests.antt =====
-- Tests of accounts, and the theorems at concrete inputs.
use whs_secure_coding.Prelude.{
  All, [], all, any, find, map, none, refl, select, some, true, update, ◌∷◌, ◌≡◌,
}
use whs_secure_coding.Accounts.{
  RegistrationResult, authenticate_user, change_password, register_user,
}
use whs_secure_coding.Accounts.Administrators.{
  AdminCreation, create_admin, insert_admin, valid_username,
}
use whs_secure_coding.Accounts.Profiles.{
  BioPost, IsPublicUser, PublicUserView, get_public_user, profiles_public, public_user_filter,
  search_public_users, update_bio,
}
use whs_secure_coding.Accounts.Registration.{
  RegisterEffect, register_then_authenticate, register_user_atomic,
}
use whs_secure_coding.Accounts.Revocation.{Answered, change_password_revokes}
use whs_secure_coding.Audit.{add_audit_log}
use whs_secure_coding.Audit.Policy.{
  is_member, is_sensitive, lookup_keys, safe_items, validate_audit_details,
}
use whs_secure_coding.Listing.{insert_row, limit_offset, meets_query, order_by}
use whs_secure_coding.Products.Public.{text_before}
use whs_secure_coding.Samples.{ids, market, member, plain, plain-PlatformLaws}
use whs_secure_coding.Schema.{Role, User, UserStatus}
use whs_secure_coding.Schema.Constraints.{user_allowed, wallet_allowed}
use whs_secure_coding.Session.{Signal, attempt, open_session}
use whs_secure_coding.Session.Ends.{Unless}
use whs_secure_coding.Text.{Text, codes, is_space, matches_username, strip, text_eq}
use whs_secure_coding.Session.{ok, ◌>>=◌}

register_user_atomic_example :
    let (r, s) =
      register_user plain 0
        (codes "erin_1")
        (codes "correct horse")
        (open_session market [] ids 5) in
    Unless market
      (λ d o. RegisterEffect plain 0 (codes "erin_1") (codes "correct horse") market d o)
      r
      s.working
      s.committed
register_user_atomic_example =
    register_user_atomic plain 0 (codes "erin_1") (codes "correct horse") market [] ids 5

erin_created :
    (register_user plain 0
      (codes "erin_1")
      (codes "correct horse")
      (open_session market [] ids 5)).0
    ≡ ok RegistrationResult.created
unfolding register_user user_allowed wallet_allowed find any all text_eq ◌>>=◌
erin_created = refl

register_then_authenticate_example :
    let (r, s) =
      register_user plain 0
        (codes "erin_1")
        (codes "correct horse")
        (open_session market [] ids 5) in
    (u : User) × (u.username ≡ codes "erin_1")
    × ((authenticate_user plain
          (codes "erin_1")
          (codes "correct horse")
          (open_session s.committed [] ids 6)).0
        ≡ ok (some u))
register_then_authenticate_example =
    register_then_authenticate plain plain-PlatformLaws 0 (codes "erin_1") (codes "correct horse")
      market [] ids 5 ids 6 erin_created

-- A change of the password raises the session version.
alice_changed :
    map
      (λ (u : User). u.auth_version)
      (change_password plain 0
        (member 1 "alice" Role.user UserStatus.active)
        (codes "correct horse")
        (codes "battery")
        (open_session market [] ids 5)).1.committed.users
    ≡ 2 ∷ 1 ∷ 1 ∷ 1 ∷ []
unfolding change_password text_eq update ◌>>=◌
alice_changed = refl

-- The commit takes effect and raises.
change_password_revokes_example :
    let alice = member 1 "alice" Role.user UserStatus.active in
    let (r, t) =
      change_password plain 0 alice
        (codes "correct horse")
        (codes "battery")
        (open_session market (Signal.lost ∷ []) ids 5) in
    Unless market (Answered plain alice (codes "battery") market) r t.working t.committed
unfolding find
change_password_revokes_example =
    change_password_revokes plain plain-PlatformLaws 0
      (member 1 "alice" Role.user UserStatus.active) (codes "correct horse") (codes "battery")
      market (Signal.lost ∷ []) ids 5 refl

profiles_public_example :
    let alice = member 1 "alice" Role.user UserStatus.active in
    let (r, t) = update_bio alice (codes "hello") (open_session market [] ids 5) in
    All (IsPublicUser market) (search_public_users none 1 20 market).items
    × ((name : Text) (v : PublicUserView)
        → get_public_user name market ≡ some v
        → IsPublicUser market v × (text_eq v.username name ≡ true))
    × Unless market (λ d b. BioPost alice (codes "hello") d b) r t.working t.committed
unfolding find text_eq
profiles_public_example =
    profiles_public none 1 20 (member 1 "alice" Role.user UserStatus.active) (codes "hello") market
      [] ids 5 refl

-- Of the four users, the dormant one is not found.
users_found :
    map (λ (v : PublicUserView). v.username) (search_public_users none 1 20 market).items
    ≡ codes "alice" ∷ codes "bobby" ∷ codes "carol" ∷ []
unfolding search_public_users public_user_filter limit_offset order_by insert_row select meets_query
    text_before text_eq
users_found = refl

root_created :
    (create_admin plain 0
      (codes " root_1 ")
      (codes "correct horse")
      (codes "correct horse")
      (open_session market [] ids 5)).0
    ≡ ok AdminCreation.created
unfolding create_admin ◌>>=◌ valid_username strip matches_username is_space find all text_eq
    insert_admin attempt user_allowed any wallet_allowed add_audit_log validate_audit_details
    lookup_keys is_member safe_items is_sensitive
root_created = refl
