-- ===== src/Accounts/Sessions.antt =====
-- `load_user` of app/__init__.py, with the session of app/security.py that it reads.
-- The entries of Flask's session that authenticate: "_user_id" and "auth_version", where they are a
-- text and an int.
use whs_secure_coding.Prelude.{Option, holds, if◌then◌else◌, none, some, ℕ, ◌&&◌}
use whs_secure_coding.Chat.Conversations.{user_by_id}
use whs_secure_coding.Schema.{Db, User, is_active}

pub record Cookie : Type 0 where
  pub user_id : Option ℕ
  pub auth_version : Option ℕ

-- `clear_authentication_session`
abbrev pub clear_authentication_session : Cookie → Cookie
clear_authentication_session cookie = record { user_id = none; auth_version = none }

-- `establish_authenticated_session`, which clears the session first; `login_user` sets "_user_id".
abbrev pub establish_authenticated_session : User → Cookie
establish_authenticated_session u = record {
  user_id = some u.id;
  auth_version = some u.auth_version;
}

-- The tests of `load_user` on the row.
abbrev pub loaded : Cookie → Option User → Option User × Cookie
loaded cookie none = (none, clear_authentication_session cookie)
loaded cookie (some u) =
    if is_active u.status && holds cookie.auth_version u.auth_version
    then (some u, cookie)
    else (none, clear_authentication_session cookie)

unfoldable pub load_user : ℕ → Cookie → Db → Option User × Cookie
load_user user_id cookie db = loaded cookie (user_by_id user_id db)
