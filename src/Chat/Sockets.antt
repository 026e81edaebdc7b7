-- ===== src/Chat/Sockets.antt =====
-- What the registry of sockets keeps, and who is connected after a pruning or a disconnection.
use whs_secure_coding.Prelude.{
  ==_refl, All, Bool, Bool-cases, List, Memᴰ, Option, Option-cases, [], all, and_parts, any, arith,
  false, find, inl, inr, length, length-select-le, none, not, refl, select, some, subst, suc, sym,
  true, ℕ, ◌+◌, ◌==◌, ◌||◌, ◌∷◌, ◌≡◌, ◌≤◌,
}
use whs_secure_coding.Chat.Connections.{
  ConnectionRecord, ConnectionRegistry, discard, disconnect_sids, disconnect_user_sockets, drop_sid,
  get, is_stale, is_stale_for, prune_stale_connections, remove, set_add, sids_of,
}
use whs_secure_coding.Config.{chat_socket_max_age_seconds}
use whs_secure_coding.Listing.Members.{All-map, All-select}
use whs_secure_coding.Schema.{Db, User, UserStatus, is_active}

abbrev pub holds_sid : ℕ → List ℕ → Bool
holds_sid sid sids = any (λ s. s == sid) sids

-- Of the records of a user, the set of the user's sids knows each.
abbrev pub is_indexed : ConnectionRegistry → ℕ → ConnectionRecord → Bool
is_indexed g user r = not (r.user_id == user) || holds_sid r.sid (g.by_user user)

pub record IsSound (max_connections : ℕ) (g : ConnectionRegistry) : Type 0 where
  pub bounded : (user : ℕ) → length (g.by_user user) ≤ max_connections
  pub indexed : (user : ℕ) → all (is_indexed g user) g.by_sid ≡ true

all_mono :
    (p q : ConnectionRecord → Bool) (rs : List ConnectionRecord)
    → ((r : ConnectionRecord) → p r ≡ true → q r ≡ true)
    → all p rs ≡ true
    → all q rs ≡ true
unfolding all
all_mono p q [] h a = refl
all_mono p q (r ∷ rs) h a = ground (arith, all_mono p q rs h, h r)

-- Of the records that are left, what holds of all that have another sid.
pub all-drop_sid :
    (p q : ConnectionRecord → Bool) (sid : ℕ) (rs : List ConnectionRecord)
    → ((r : ConnectionRecord) → p r ≡ true → (r.sid == sid) ≡ false → q r ≡ true)
    → all p rs ≡ true
    → all q (drop_sid sid rs) ≡ true
unfolding all drop_sid select
all-drop_sid p q sid [] h a = refl
all-drop_sid p q sid (r ∷ rs) h a = ground (arith, all-drop_sid p q sid rs h, h r)

drop_sid-absent :
    (sid : ℕ) (rs : List ConnectionRecord)
    → find (λ (r : ConnectionRecord). r.sid == sid) rs ≡ none
    → drop_sid sid rs ≡ rs
unfolding drop_sid select find
drop_sid-absent sid [] h = refl
drop_sid-absent sid (r ∷ rs) h = ground (arith, drop_sid-absent sid rs)

pub holds_sid-discard :
    (s sid : ℕ) (sids : List ℕ)
    → (s == sid) ≡ false
    → holds_sid s sids ≡ true
    → holds_sid s (discard sid sids) ≡ true
unfolding discard select any
holds_sid-discard s sid [] h k = k
holds_sid-discard s sid (x ∷ sids) h k = grind (arith, holds_sid-discard s sid sids h)

pub holds_sid-set_add :
    (s sid : ℕ) (sids : List ℕ) → holds_sid s sids ≡ true → holds_sid s (set_add sid sids) ≡ true
unfolding set_add any
holds_sid-set_add s sid sids k = ground arith

pub holds_sid-added : (sid : ℕ) (sids : List ℕ) → holds_sid sid (set_add sid sids) ≡ true
unfolding set_add any
holds_sid-added sid sids = ground arith

pub length-set_add : (sid : ℕ) (sids : List ℕ) → length (set_add sid sids) ≤ suc (length sids)
unfolding set_add
length-set_add sid sids = ground arith

pub length-discard : (sid : ℕ) (sids : List ℕ) → length (discard sid sids) ≤ length sids
unfolding discard
length-discard sid sids = length-select-le (λ y. not (y == sid)) sids

-- The table by sid after a removal, whether the sid is there or not.
pub remove-by_sid :
    (sid : ℕ) (g : ConnectionRegistry) → (remove sid g).1.by_sid ≡ drop_sid sid g.by_sid
unfolding remove get
remove-by_sid sid g = elim (Option-cases (get sid g)) [
  | inl absent ↦ rw absent (sym (drop_sid-absent sid g.by_sid absent))
  | inr (r, found) ↦ rw found refl
]

-- What holds of each record whose sid is not disconnected holds of those that are left.
disconnect_sids-all :
    (q : ConnectionRecord → Bool) (sids : List ℕ) (g : ConnectionRegistry)
    → all (λ (r : ConnectionRecord). q r || holds_sid r.sid sids) g.by_sid ≡ true
    → all q (disconnect_sids sids g).by_sid ≡ true
unfolding disconnect_sids any
disconnect_sids-all q [] g h =
    all_mono (λ (r : ConnectionRecord). q r || false) q g.by_sid (λ r x. ground arith) h
disconnect_sids-all q (s ∷ sids) g h = disconnect_sids-all q sids (remove s g).1 (
    rw (remove-by_sid s g) (
      all-drop_sid (λ (r : ConnectionRecord). q r || (s == r.sid || holds_sid r.sid sids))
        (λ (r : ConnectionRecord). q r || holds_sid r.sid sids) s g.by_sid
        (λ r x other. grind arith) h))

stale_listed :
    (p : ConnectionRecord → Bool) (rs : List ConnectionRecord)
    → all (λ (r : ConnectionRecord). not (p r) || holds_sid r.sid (sids_of (select p rs))) rs ≡ true
unfolding all any select
stale_listed p [] = refl
stale_listed p (r ∷ rs) = elim (Bool-cases (p r)) [
  | inl gone ↦
      let chosen : select p (r ∷ rs) ≡ r ∷ select p rs = rw gone refl in
      let rest =
        all_mono (λ (x : ConnectionRecord). not (p x) || holds_sid x.sid (sids_of (select p rs)))
          (λ (x : ConnectionRecord).
            not (p x) || (r.sid == x.sid || holds_sid x.sid (sids_of (select p rs))))
          rs (λ x h. ground arith) (stale_listed p rs) in
      subst
        (λ chosen_rows.
          all (λ (x : ConnectionRecord). not (p x) || holds_sid x.sid (sids_of chosen_rows))
            (r ∷ rs)
          ≡ true)
        (sym chosen) (rw (gone, ==_refl r.sid, rest) refl)
  | inr live ↦
      let chosen : select p (r ∷ rs) ≡ select p rs = rw live refl in
      subst
        (λ chosen_rows.
          all (λ (x : ConnectionRecord). not (p x) || holds_sid x.sid (sids_of chosen_rows))
            (r ∷ rs)
          ≡ true)
        (sym chosen) (rw (live, stale_listed p rs) refl)
]

pub prune-not_stale :
    (db : Db) (now : ℕ) (g : ConnectionRegistry)
    → all
        (λ (r : ConnectionRecord). not (is_stale db now r))
        (prune_stale_connections db now g).1.by_sid
      ≡ true
unfolding prune_stale_connections
prune-not_stale db now g =
    disconnect_sids-all (λ (r : ConnectionRecord). not (is_stale db now r))
      (sids_of (select (is_stale db now) g.by_sid)) g (stale_listed (is_stale db now) g.by_sid)

-- The connection of a session that is valid: its user is in the database, is active, has the session
-- version that it was opened with, and it was opened no more than the maximal age ago.
pub record IsLive (db : Db) (now : ℕ) (r : ConnectionRecord) : Type 0 where
  pub user : User
  pub found : find (λ (u : User). u.id == r.user_id) db.users ≡ some user
  pub active : user.status ≡ UserStatus.active
  pub version : user.auth_version ≡ r.auth_version
  pub young : now ≤ r.connected_monotonic + chat_socket_max_age_seconds

active_is : (s : UserStatus) → is_active s ≡ true → s ≡ UserStatus.active
active_is UserStatus.active h = refl
active_is UserStatus.dormant h = absurd (cc)

is_stale-IsLive :
    (db : Db) (now : ℕ) (r : ConnectionRecord) → not (is_stale db now r) ≡ true → IsLive db now r
unfolding is_stale
is_stale-IsLive db now r h = by_user _ refl h
  where
    by_user :
        (o : Option User)
        → find (λ (u : User). u.id == r.user_id) db.users ≡ o
        → not (is_stale_for r now chat_socket_max_age_seconds o) ≡ true
        → IsLive db now r
    by_user none missing k = absurd (cc)
    by_user (some u) found k = record {
      user = u;
      found = found;
      active = active_is u.status (ground arith);
      version = ground arith;
      young = ground arith;
    }

IsLive-is_stale :
    (db : Db) (now : ℕ) (r : ConnectionRecord) → IsLive db now r → is_stale db now r ≡ false
unfolding is_stale
IsLive-is_stale db now r live =
    let young = live.young in
    let version = live.version in rw (live.found, live.active) (ground arith)

each_row :
    (q : ConnectionRecord → Bool) (P : ConnectionRecord → Type 0)
    → ((r : ConnectionRecord) → q r ≡ true → P r)
    → (rs : List ConnectionRecord) → all q rs ≡ true
    → All P rs
unfolding all
each_row q P f [] h = tt
each_row q P f (r ∷ rs) h =
    let (k, ks) = and_parts (q r) (all q rs) h in (f r k, each_row q P f rs ks)

-- A connection of the registry with the sid, which is not live.
abbrev pub Ended : Db → ℕ → ConnectionRegistry → ℕ → Type 0
Ended db now g sid =
    (r : ConnectionRecord) × Memᴰ r g.by_sid × (r.sid ≡ sid) × ((live : IsLive db now r) → ⊥)

-- After `prune_stale_connections`, every connection is of a user of the database who is active and
-- whose session version it was opened with, and is no older than the maximal age; and every sid that
-- it disconnects is that of a connection of which this does not hold.
pub prune_leaves-IsLive :
    (db : Db) (now : ℕ) (g : ConnectionRegistry)
    → All (IsLive db now) (prune_stale_connections db now g).1.by_sid
      × All (Ended db now g) (prune_stale_connections db now g).0
unfolding prune_stale_connections
prune_leaves-IsLive db now g = (
  each_row (λ (r : ConnectionRecord). not (is_stale db now r)) (IsLive db now)
      (is_stale-IsLive db now) _ (prune-not_stale db now g),
  All-map (Ended db now g) (λ (r : ConnectionRecord). r.sid) (select (is_stale db now) g.by_sid)
      (All-select _ (is_stale db now) g.by_sid
        (λ r m stale. (r, m, refl, λ live. not_both stale (IsLive-is_stale db now r live)))),
)
  where
    not_both : {b : Bool} → b ≡ true → b ≡ false → ⊥
    not_both h k = absurd (cc)

-- In a sound registry, after `disconnect_user_sockets` of a user, no connection is of that user.
pub user_disconnected :
    (max_connections user : ℕ) (g : ConnectionRegistry)
    → IsSound max_connections g
    → all
        (λ (r : ConnectionRecord). not (r.user_id == user))
        (disconnect_user_sockets user g).by_sid
      ≡ true
unfolding disconnect_user_sockets
user_disconnected max_connections user g sound =
    disconnect_sids-all (λ (r : ConnectionRecord). not (r.user_id == user)) (g.by_user user) g
      (sound.indexed user)
