-- ===== src/Accounts/Profiles.antt =====
-- app/users/services.py: the public pages of users, and `update_bio`.
use whs_secure_coding.Prelude.{
  ==_refl, All, Bool, List, Memᴰ, Option, [], and_parts, count, false, find, find-update_kept,
  find_sound, if◌then◌else◌, inl, inr, leb, map, none, option_map, refl, select, some,
  some_injective, sym, true, update, ℕ, ◌&&◌, ◌==◌, ◌||◌, ◌∷◌, ◌≡◌, ◌⊎◌,
}
use whs_secure_coding.Listing.{Page, limit_offset, meets_query, order_by, pages_of}
use whs_secure_coding.Listing.Members.{find-Memᴰ, page_members}
use whs_secure_coding.Products.Public.{text_before}
use whs_secure_coding.Schema.{Db, User, is_active}
use whs_secure_coding.Session.{
  Signal, Tx, attempt, commit, modify, open_session, pure, query, rollback,
}
use whs_secure_coding.Session.Ends.{
  Ends, Ends-attempt, Ends-commit, Ends-modify, Ends-pure, Ends-rollback, Unless,
}
use whs_secure_coding.Text.{Text, text_eq}
use whs_secure_coding.Session.{◌>>◌}

pub record PublicUserView : Type 0 where
  pub username : Text
  pub bio : Text

-- `min(max(per_page, 1), 20)`
abbrev pub limited : ℕ → ℕ
limited per_page = if leb per_page 1 then 1 else if leb per_page 20 then per_page else 20

-- `User.status == "active"`, and `User.username.contains(query, autoescape=True)` if there is one.
unfoldable pub public_user_filter : Option Text → User → Bool
public_user_filter query u = is_active u.status && meets_query query (u.username ∷ [])

-- The order by the user name and the id.
abbrev pub by_username : User → User → Bool
by_username u v =
    text_before u.username v.username || (text_eq u.username v.username && leb u.id v.id)

abbrev pub public_user : User → PublicUserView
public_user u = record { username = u.username; bio = u.bio }

unfoldable pub search_public_users : Option Text → ℕ → ℕ → Db → Page PublicUserView
search_public_users query page per_page db =
    let total = count (public_user_filter query) db.users in
    record {
      items = map public_user (
          limit_offset page (limited per_page)
            (order_by by_username (select (public_user_filter query) db.users)));
      page = page;
      per_page = limited per_page;
      total = total;
      pages = pages_of total (limited per_page);
    }

unfoldable pub get_public_user : Text → Db → Option PublicUserView
get_public_user username db =
    option_map public_user
      (find (λ (u : User). text_eq u.username username && is_active u.status) db.users)

-- The assignment to the row of `user`.
abbrev pub set_bio : ℕ → Text → Db → Db
set_bio id bio db = record db {
  users = update (λ (u : User). u.id == id) (λ (u : User). record u { bio = bio }) db.users;
}

unfoldable pub update_bio : User → Text → Tx Bool
update_bio user bio = do
  modify (set_bio user.id bio)
  attempt (do commit; pure true) (λ _. do rollback; pure false)

-- An active user of the database, as the public sees the user.
pub record IsPublicUser (db : Db) (v : PublicUserView) : Type 0 where
  pub user : User
  pub stored : Memᴰ user db.users
  pub active : is_active user.status ≡ true
  pub view : v ≡ public_user user

-- What is public of a user after `update_bio`: the new bio after True; the old or the new one after
-- False, where a commit may have taken effect and raised.
abbrev pub BioPost : User → Text → Db → Bool → Type 0
BioPost user bio d true =
    get_public_user user.username d ≡ some (record { username = user.username; bio = bio })
BioPost user bio d false =
    (get_public_user user.username d ≡ some (public_user user))
    ⊎ (get_public_user user.username d ≡ some (record { username = user.username; bio = bio }))

module _ (user : User) (bio : Text) (db : Db)
    (found : find (λ (u : User). text_eq u.username user.username && is_active u.status) db.users
      ≡ some user) where
  shown_after :
      get_public_user user.username (set_bio user.id bio db)
      ≡ some (record { username = user.username; bio = bio })
  unfolding get_public_user
  shown_after =
      rw
        (find-update_kept (λ (u : User). text_eq u.username user.username && is_active u.status)
          (λ (u : User). u.id == user.id) (λ (u : User). record u { bio = bio }) db.users user
          (λ y. refl) found (==_refl user.id))
        refl

  shown_before : get_public_user user.username db ≡ some (public_user user)
  unfolding get_public_user
  shown_before = rw found refl

  update_bio-Ends : Ends db db (update_bio user bio) (Unless db (λ d b. BioPost user bio d b))
  unfolding update_bio
  update_bio-Ends = Ends-modify _ _ (
      Ends-attempt _ (
        Ends-commit _ (λ e. Ends-rollback _ (Ends-pure _ (inl shown_before)))
          (Ends-rollback _ (Ends-pure _ (inr shown_after))) (Ends-pure _ shown_after)))

active_of :
    (query : Option Text) (u : User) → public_user_filter query u ≡ true → is_active u.status ≡ true
unfolding public_user_filter
active_of query u h = (and_parts (is_active u.status) _ h).0

-- The search shows active users of the database only, and of them the name and the bio; the public
-- page of a name is that of an active user of the database with that name; and whatever the database
-- does, after `update_bio` of an active user answers True, the public page of the user shows the new
-- bio, and after False the old or the new one.
pub profiles_public :
    (query : Option Text) (page per_page : ℕ) (user : User) (bio : Text) (db : Db)
    (signals : List Signal) (uuids : ℕ → ℕ) (now : ℕ)
    → find (λ (u : User). text_eq u.username user.username && is_active u.status) db.users
      ≡ some user
    → let (r, t) = update_bio user bio (open_session db signals uuids now) in
      All (IsPublicUser db) (search_public_users query page per_page db).items
      × ((name : Text) (v : PublicUserView)
          → get_public_user name db ≡ some v
          → IsPublicUser db v × (text_eq v.username name ≡ true))
      × Unless db (λ d b. BioPost user bio d b) r t.working t.committed
unfolding search_public_users get_public_user
profiles_public query page per_page user bio db signals uuids now found = (
  page_members (IsPublicUser db) public_user by_username (public_user_filter query) page
      (limited per_page) db.users
      (λ u m taken. record { user = u; stored = m; active = active_of query u taken; view = refl }),
  λ name v h. shown name v _ refl h,
  (update_bio-Ends user bio db found).at (open_session db signals uuids now) refl refl,
)
  where
    shown :
        (name : Text) (v : PublicUserView) (o : Option User)
        → find (λ (u : User). text_eq u.username name && is_active u.status) db.users ≡ o
        → option_map public_user o ≡ some v
        → IsPublicUser db v × (text_eq v.username name ≡ true)
    shown name v none at e = absurd (cc)
    shown name v (some u) at e =
        let (named, active) = and_parts (text_eq u.username name) _ (find_sound _ db.users u at) in
        let view = sym (some_injective e) in
        (
          record { user = u; stored = find-Memᴰ _ db.users u at; active = active; view = view },
          rw view named,
        )
