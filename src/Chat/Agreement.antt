-- ===== src/Chat/Agreement.antt =====
-- The two tables of the registry of sockets (app/chat/connections.py) agree: a sid is in the set of a
-- user where, and only where, there is a record of it for that user.
use whs_secure_coding.Prelude.{
  ==_iff, Bool-cases, List, Option-cases, [], any, ap, arith, false, find, inl, inr, leb, length,
  none, refl, select, some, sym, true, ℕ, ◌==◌, ◌∙◌, ◌∷◌, ◌≡◌,
}
use whs_secure_coding.Chat.Connections.{
  ConnectionRecord, ConnectionRegistry, add, discard, drop_sid, get, remove, removed, set_add,
  set_user,
}
use whs_secure_coding.Chat.Registry.{Operation, add-IsSound, operate, operate_all, remove-IsSound}
use whs_secure_coding.Chat.Sockets.{IsSound, holds_sid}

-- Every sid in the set of a user has a record, and it is of that user.
abbrev pub IsKnown : ConnectionRegistry → Type 0
IsKnown g =
    (user sid : ℕ)
    → holds_sid sid (g.by_user user) ≡ true
    → (r : ConnectionRecord) × (get sid g ≡ some r) × (r.user_id ≡ user)

pub record IsAgreed (max_connections : ℕ) (g : ConnectionRegistry) : Type 0 where
  pub sound : IsSound max_connections g
  pub known : IsKnown g

-- Each connection comes with a sid that is not registered then.
abbrev pub IsFresh : ℕ → List Operation → ConnectionRegistry → Type 0
IsFresh max_connections [] g = Unit
IsFresh max_connections (Operation.connect sid user_id auth_version now ∷ os) g =
    (get sid g ≡ none)
    × IsFresh max_connections os
        (operate max_connections (Operation.connect sid user_id auth_version now) g)
IsFresh max_connections (Operation.leave sid ∷ os) g =
    IsFresh max_connections os (operate max_connections (Operation.leave sid) g)

find-drop_sid :
    (s sid : ℕ) (rs : List ConnectionRecord)
    → (s == sid) ≡ false
    → find (λ (r : ConnectionRecord). r.sid == s) (drop_sid sid rs)
      ≡ find (λ (r : ConnectionRecord). r.sid == s) rs
unfolding drop_sid select find
find-drop_sid s sid [] h = refl
find-drop_sid s sid (r ∷ rs) h = grind (arith, find-drop_sid s sid rs)

discard-other :
    (s sid : ℕ) (sids : List ℕ) → holds_sid s (discard sid sids) ≡ true → (s == sid) ≡ false
unfolding discard select any
discard-other s sid [] h = absurd (cc)
discard-other s sid (x ∷ sids) h = grind (arith, discard-other s sid sids)

discard-holds_sid :
    (s sid : ℕ) (sids : List ℕ) → holds_sid s (discard sid sids) ≡ true → holds_sid s sids ≡ true
unfolding discard select any
discard-holds_sid s sid [] h = h
discard-holds_sid s sid (x ∷ sids) h = grind (arith, discard-holds_sid s sid sids)

set_add-holds_sid :
    (s sid : ℕ) (sids : List ℕ)
    → holds_sid s (set_add sid sids) ≡ true
    → (s == sid) ≡ false
    → holds_sid s sids ≡ true
unfolding set_add any
set_add-holds_sid s sid sids h other = grind arith

module _ (g : ConnectionRegistry) (known : IsKnown g) where
  -- A sid other than the one that is dropped keeps its record.
  kept_record :
      (user s sid : ℕ)
      → (s == sid) ≡ false
      → holds_sid s (g.by_user user) ≡ true
      → (r : ConnectionRecord) × (find
            (λ (x : ConnectionRecord). x.sid == s)
            (drop_sid sid g.by_sid)
          ≡ some r)
        × (r.user_id ≡ user)
  unfolding get
  kept_record user s sid other held =
      let (r, at, own) = known user s held in (r, find-drop_sid s sid g.by_sid other ∙ at, own)

  removed-IsKnown :
      (sid : ℕ) (r : ConnectionRecord) → get sid g ≡ some r → IsKnown (removed sid (some r) g)
  unfolding get
  removed-IsKnown sid r found user s held = elim (Bool-cases (user == r.user_id)) [
    | inl own ↦
        let left : holds_sid s (discard sid (g.by_user r.user_id)) ≡ true = rw own at held in
        let other = discard-other s sid (g.by_user r.user_id) left in
        let before = discard-holds_sid s sid (g.by_user r.user_id) left in
        let (x, at, by) = kept_record r.user_id s sid other before in
        (x, at, by ∙ sym ((==_iff user r.user_id).0 own))
    | inr another ↦
        let before : holds_sid s (g.by_user user) ≡ true = rw another at held in
        elim (Bool-cases (s == sid)) [
          | inl same ↦
              let (x, at, by) = known user s before in
              let here : find (λ (y : ConnectionRecord). y.sid == s) g.by_sid ≡ some r =
                rw ((==_iff s sid).0 same) found in
              let x_is : x ≡ r = cc in
              absurd (grind (arith, ap (λ (y : ConnectionRecord). y.user_id) x_is))
          | inr other ↦ kept_record user s sid other before
        ]
  ]

  remove-IsKnown : (sid : ℕ) → IsKnown (remove sid g).1
  unfolding remove
  remove-IsKnown sid = elim (Option-cases (get sid g)) [
    | inl absent ↦ rw absent known
    | inr (r, found) ↦ rw found (removed-IsKnown sid r found)
  ]

-- A record is put before those that had its sid, of which there were none.
module _ (g : ConnectionRegistry) (known : IsKnown g) (new : ConnectionRecord)
    (fresh : get new.sid g ≡ none) where
  others-IsKnown :
      (user s : ℕ)
      → holds_sid s (g.by_user user) ≡ true
      → (r : ConnectionRecord) × (find
            (λ (x : ConnectionRecord). x.sid == s)
            (new ∷ drop_sid new.sid g.by_sid)
          ≡ some r)
        × (r.user_id ≡ user)
  unfolding find get
  others-IsKnown user s held = elim (Bool-cases (s == new.sid)) [
    | inl same ↦
        let (x, at, by) = known user s held in
        let is_sid : s ≡ new.sid = (==_iff s new.sid).0 same in
        let absent : get s g ≡ none = rw is_sid fresh in absurd (cc)
    | inr other ↦
        let (x, at, by) = kept_record g known user s new.sid other held in
        let apart : (new.sid == s) ≡ false = grind arith in (x, rw apart at, by)
  ]

  added-IsKnown : IsKnown (record {
    by_sid = new ∷ drop_sid new.sid g.by_sid;
    by_user = set_user new.user_id (set_add new.sid (g.by_user new.user_id)) g.by_user;
  })
  unfolding find get
  added-IsKnown user s held = elim (Bool-cases (user == new.user_id)) [
    | inl own ↦
        let own_id = (==_iff user new.user_id).0 own in
        elim (Bool-cases (s == new.sid)) [
          | inl same ↦
              let is_sid : (new.sid == s) ≡ true = grind arith in (new, rw is_sid refl, sym own_id)
          | inr other ↦ others-IsKnown user s (
              rw own_id
                (set_add-holds_sid s new.sid (g.by_user new.user_id) (rw own at held) other))
        ]
    | inr another ↦ others-IsKnown user s (rw another at held)
  ]

add-IsKnown :
    (g : ConnectionRegistry)
    → IsKnown g
    → (sid user_id auth_version max_connections now : ℕ) → get sid g ≡ none
    → IsKnown (add sid user_id auth_version max_connections now g).1
unfolding add
add-IsKnown g known sid user_id auth_version max_connections now fresh =
    elim (Bool-cases (leb max_connections (length (g.by_user user_id)))) [
      | inl full ↦ rw full known
      | inr room ↦ rw room (added-IsKnown g known _ fresh)
    ]

-- Whatever connections are opened, each with a sid that is not registered then, and closed, from a
-- registry whose tables agree: no user ever has more connections than the limit, the record of every
-- connection is in the set of its user, and every sid in the set of a user has a record of that user.
pub operate_all-IsAgreed :
    (max_connections : ℕ) (operations : List Operation) (g : ConnectionRegistry)
    → IsAgreed max_connections g
    → IsFresh max_connections operations g
    → IsAgreed max_connections (operate_all max_connections operations g)
operate_all-IsAgreed max_connections [] g agreed fresh = agreed
operate_all-IsAgreed max_connections (Operation.connect sid user_id auth_version now ∷ os) g agreed
      (new_sid, fresh) =
    operate_all-IsAgreed max_connections os _
      (record {
        sound = add-IsSound max_connections sid user_id auth_version now g agreed.sound;
        known = add-IsKnown g agreed.known sid user_id auth_version max_connections now new_sid;
      })
      fresh
operate_all-IsAgreed max_connections (Operation.leave sid ∷ os) g agreed fresh =
    operate_all-IsAgreed max_connections os _
      (record {
        sound = remove-IsSound max_connections sid g agreed.sound;
        known = remove-IsKnown g agreed.known sid;
      })
      fresh
