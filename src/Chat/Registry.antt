-- ===== src/Chat/Registry.antt =====
-- The registry of sockets stays sound: no user has more connections than the limit, and each record is
-- in the set of its user.
use whs_secure_coding.Prelude.{
  ==_iff, Bool-cases, List, Option-cases, [], all, arith, inl, inr, leb, length, not, refl, some,
  subst, true, ℕ, ◌<◌, ◌==◌, ◌||◌, ◌∷◌, ◌≡◌, ◌≤◌,
}
use whs_secure_coding.Chat.Connections.{
  ConnectionRecord, ConnectionRegistry, add, discard, get, remove, removed, set_add, set_user,
}
use whs_secure_coding.Chat.Sockets.{
  IsSound, all-drop_sid, holds_sid, holds_sid-added, holds_sid-discard, holds_sid-set_add,
  is_indexed, length-discard, length-set_add,
}

-- What the handlers do to the registry: a connection that is asked for, and one that ends.
pub data Operation : Type 0 where
  connect : (sid user_id auth_version now : ℕ) → Operation
  leave : (sid : ℕ) → Operation

abbrev pub operate : ℕ → Operation → ConnectionRegistry → ConnectionRegistry
operate max_connections (Operation.connect sid user_id auth_version now) g =
    (add sid user_id auth_version max_connections now g).1
operate max_connections (Operation.leave sid) g = (remove sid g).1

abbrev pub operate_all : ℕ → List Operation → ConnectionRegistry → ConnectionRegistry
operate_all max_connections [] g = g
operate_all max_connections (o ∷ os) g =
    operate_all max_connections os (operate max_connections o g)

-- The set of one user is replaced.
module _ (max_connections : ℕ) (g : ConnectionRegistry) (owner : ℕ) (sids : List ℕ) where
  set_user-bounded :
      length sids ≤ max_connections
      → IsSound max_connections g
      → (user : ℕ) → length (set_user owner sids g.by_user user) ≤ max_connections
  set_user-bounded h sound user = elim (Bool-cases (user == owner)) [
    | inl own ↦ rw own h
    | inr other ↦ rw other (sound.bounded user)
  ]

  set_user-indexed :
      (user : ℕ) (x : ConnectionRecord)
      → (holds_sid x.sid (g.by_user owner) ≡ true → holds_sid x.sid sids ≡ true)
      → is_indexed g user x ≡ true
      → (not (x.user_id == user) || holds_sid x.sid (set_user owner sids g.by_user user)) ≡ true
  set_user-indexed user x h known = elim (Bool-cases (user == owner)) [
    | inl own ↦
        let same = (==_iff user owner).0 own in
        let moved : (not (x.user_id == user) || holds_sid x.sid (g.by_user owner)) ≡ true =
          subst (λ u. (not (x.user_id == user) || holds_sid x.sid (g.by_user u)) ≡ true) same
            known in
        rw own (ground (arith, h))
    | inr other ↦ rw other known
  ]

pub remove-IsSound :
    (max_connections sid : ℕ) (g : ConnectionRegistry)
    → IsSound max_connections g
    → IsSound max_connections (remove sid g).1
unfolding remove
remove-IsSound max_connections sid g sound = elim (Option-cases (get sid g)) [
  | inl absent ↦ rw absent sound
  | inr (r, found) ↦
      let kept = discard sid (g.by_user r.user_id) in
      let shorter = length-discard sid (g.by_user r.user_id) in
      let before = sound.bounded r.user_id in
      rw found (record {
        bounded =
            set_user-bounded max_connections g r.user_id kept (omega (arith, shorter, before))
              sound;
        indexed = λ user.
            all-drop_sid (is_indexed g user) (is_indexed (removed sid (some r) g) user) sid g.by_sid
              (λ x known other.
                set_user-indexed max_connections g r.user_id kept user x
                  (holds_sid-discard x.sid sid (g.by_user r.user_id) other) known)
              (sound.indexed user);
      })
]

pub add-IsSound :
    (max_connections sid user_id auth_version now : ℕ) (g : ConnectionRegistry)
    → IsSound max_connections g
    → IsSound max_connections (add sid user_id auth_version max_connections now g).1
unfolding add all
add-IsSound max_connections sid user_id auth_version now g sound =
    elim (Bool-cases (leb max_connections (length (g.by_user user_id)))) [
      | inl full ↦ rw full sound
      | inr room ↦
          let more = set_add sid (g.by_user user_id) in
          let longer = length-set_add sid (g.by_user user_id) in
          let below : length (g.by_user user_id) < max_connections = ground arith in
          let bounded_then =
            set_user-bounded max_connections g user_id more (omega (arith, longer, below)) sound in
          let others = λ (user : ℕ).
            all-drop_sid (is_indexed g user)
              (λ x.
                not (x.user_id == user) || holds_sid x.sid (set_user user_id more g.by_user user))
              sid g.by_sid
              (λ x known other.
                set_user-indexed max_connections g user_id more user x
                  (holds_sid-set_add x.sid sid (g.by_user user_id)) known)
              (sound.indexed user) in
          rw room (record {
            bounded = bounded_then;
            indexed = λ user. rw (own_set user, others user) refl;
          })
    ]
  where
    own_set :
        (user : ℕ)
        → (not (user_id == user)
            || holds_sid sid (set_user user_id (set_add sid (g.by_user user_id)) g.by_user user))
          ≡ true
    own_set user = elim (Bool-cases (user == user_id)) [
      | inl own ↦
          let same = (==_iff user user_id).0 own in
          rw (own, holds_sid-added sid (g.by_user user_id)) (ground arith)
      | inr other ↦ rw other (grind arith)
    ]
