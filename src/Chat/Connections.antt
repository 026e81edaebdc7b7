-- ===== src/Chat/Connections.antt =====
-- app/chat/connections.py: `ConnectionRecord` and `ConnectionRegistry`, with its lock around each
-- method. A dictionary is its list of items; a set of sids is the list of its members, in which
-- `add` puts no second copy.
use whs_secure_coding.Prelude.{
  Bool, List, Option, [], any, find, if◌then◌else◌, leb, length, ltb, map, none, not, select, some,
  true, ℕ, ◌+◌, ◌==◌, ◌||◌, ◌∷◌,
}
use whs_secure_coding.Config.{chat_socket_max_age_seconds}
use whs_secure_coding.Schema.{Db, User, is_active}

pub record ConnectionRecord : Type 0 where
  pub sid : ℕ
  pub user_id : ℕ
  pub auth_version : ℕ
  pub connected_monotonic : ℕ

pub record ConnectionRegistry : Type 0 where
  pub by_sid : List ConnectionRecord
  pub by_user : ℕ → List ℕ

-- A registry with no connection.
abbrev pub new_registry : ConnectionRegistry
new_registry = record { by_sid = []; by_user = λ user. [] }

-- `set.discard`, and `dict.pop` of the items of a key.
unfoldable pub discard : ℕ → List ℕ → List ℕ
discard x ys = select (λ y. not (y == x)) ys

unfoldable pub set_add : ℕ → List ℕ → List ℕ
set_add x ys = if any (λ y. y == x) ys then ys else x ∷ ys

unfoldable pub drop_sid : ℕ → List ConnectionRecord → List ConnectionRecord
drop_sid sid rs = select (λ (r : ConnectionRecord). not (r.sid == sid)) rs

-- `get`
unfoldable pub get : ℕ → ConnectionRegistry → Option ConnectionRecord
get sid g = find (λ (r : ConnectionRecord). r.sid == sid) g.by_sid

abbrev pub set_user : ℕ → List ℕ → (ℕ → List ℕ) → ℕ → List ℕ
set_user user sids m k = if k == user then sids else m k

-- `add`; `none` is its refusal.
unfoldable pub add :
    ℕ → ℕ → ℕ → ℕ → ℕ → ConnectionRegistry → Option ConnectionRecord × ConnectionRegistry
add sid user_id auth_version max_connections now g =
    let r : ConnectionRecord = record {
      sid = sid;
      user_id = user_id;
      auth_version = auth_version;
      connected_monotonic = now;
    } in
    if leb max_connections (length (g.by_user user_id)) then (none, g) else (
      some r,
      record {
        by_sid = r ∷ drop_sid sid g.by_sid;
        by_user = set_user user_id (set_add sid (g.by_user user_id)) g.by_user;
      },
    )

-- What `remove` does with the record that it popped.
abbrev pub removed : ℕ → Option ConnectionRecord → ConnectionRegistry → ConnectionRegistry
removed sid none g = g
removed sid (some r) g = record {
  by_sid = drop_sid sid g.by_sid;
  by_user = set_user r.user_id (discard sid (g.by_user r.user_id)) g.by_user;
}

-- `remove`
unfoldable pub remove : ℕ → ConnectionRegistry → Option ConnectionRecord × ConnectionRegistry
remove sid g = (get sid g, removed sid (get sid g) g)

-- `user_connection_count`
abbrev pub user_connection_count : ℕ → ConnectionRegistry → ℕ
user_connection_count user g = length (g.by_user user)

-- `_disconnect_sids`
unfoldable pub disconnect_sids : List ℕ → ConnectionRegistry → ConnectionRegistry
disconnect_sids [] g = g
disconnect_sids (sid ∷ sids) g = disconnect_sids sids (remove sid g).1

-- `disconnect_user_sockets`
unfoldable pub disconnect_user_sockets : ℕ → ConnectionRegistry → ConnectionRegistry
disconnect_user_sockets user g = disconnect_sids (g.by_user user) g

abbrev pub is_stale_for : ConnectionRecord → ℕ → ℕ → Option User → Bool
is_stale_for r now max_age none = true
is_stale_for r now max_age (some u) =
    not (is_active u.status)
    || not (u.auth_version == r.auth_version)
    || ltb (r.connected_monotonic + max_age) now

-- The test of `prune_stale_connections` on one record.
unfoldable pub is_stale : Db → ℕ → ConnectionRecord → Bool
is_stale db now r =
    is_stale_for r now chat_socket_max_age_seconds (find (λ (u : User). u.id == r.user_id) db.users)

abbrev pub sids_of : List ConnectionRecord → List ℕ
sids_of rs = map (λ (r : ConnectionRecord). r.sid) rs

-- `prune_stale_connections`: the sids that it disconnects, and the registry then.
unfoldable pub prune_stale_connections : Db → ℕ → ConnectionRegistry → List ℕ × ConnectionRegistry
prune_stale_connections db now g =
    let stale = sids_of (select (is_stale db now) g.by_sid) in (stale, disconnect_sids stale g)
