-- ===== src/Admin/Guard.antt =====
-- How `change_user_status` ends, whatever the database does.
use whs_secure_coding.Prelude.{
  ==_iff, ==_refl, Bool-cases, and_parts, arith, false, find-update_kept, if◌then◌else◌, inl, inr,
  none, not, refl, some, some_injective, subst, sym, true, ℕ, ◌&&◌, ◌+◌, ◌==◌, ◌≡◌, ◌≢◌, ◌≤◌, ◌⊎◌,
}
use whs_secure_coding.Admin.{AdminMutationResult, Mutation, only}
use whs_secure_coding.Admin.Recorded.{Recorded, commit_with_audit-Recorded}
use whs_secure_coding.Admin.Users.{
  apply_user_status, change_user_status, find_user, is_active_admin, other_active_admins,
  same_user_status, settle_user_status, user_status_action, user_status_answer, user_status_details,
  user_status_of, user_status_word, with_status,
}
use whs_secure_coding.Audit.{add_row, entry}
use whs_secure_coding.Audit.Policy.{
  is_member, is_sensitive, lookup_keys, safe_items, validate_audit_details,
}
use whs_secure_coding.Schema.{Db, User, UserStatus, is_active}
use whs_secure_coding.Session.Ends.{
  Ends, Ends-modify, Ends-or_return, Ends-pure, Ends-query, Ends-return_if, Post, Unless,
}
use whs_secure_coding.Text.{Text, codes, text_eq}
use whs_secure_coding.Text.Laws.{text_eq_sound}

pub record IsStatusChange (actor_id : ℕ) (name new_status : Text) (db : Db) (target : User)
    (new : UserStatus) : Type 0 where
  pub asked : new_status ≡ codes (user_status_word new)
  pub found : find_user name db ≡ some target
  pub not_self : (not (is_active new) && target.id == actor_id) ≡ false
  pub not_last :
      (not (is_active new) && is_active_admin target) ≡ true → 1 ≤ other_active_admins target.id db

-- The rows after a change that is committed.
abbrev pub status_changed : ℕ → User → UserStatus → ℕ → ℕ → Db → Db
status_changed actor_id target new audit_id now db =
    add_row
      (entry audit_id now (some actor_id) (user_status_action new) "user" (some target.id)
        (some (user_status_details target new)))
      (apply_user_status target new db)

-- The row of the target after a change.
abbrev pub settled_user : User → UserStatus → User
settled_user target new = record target {
  status = new;
  auth_version =
      if same_user_status target.status new then target.auth_version else target.auth_version + 1;
}

-- Nothing is committed, and the answer says which guard refused or that the database failed; or all
-- guards have passed, the change is committed with its audit row, and the answer tells so or is
-- DATABASE_ERROR.
pub data StatusEffect (actor_id : ℕ) (name new_status : Text) (db d : Db) (o : Mutation)
    : Type 0 where
  not_a_status :
      d ≡ db
      → o ≡ only AdminMutationResult.invalid_state
      → new_status ≢ codes "active"
      → new_status ≢ codes "dormant"
      → StatusEffect actor_id name new_status db d o
  missing :
      d ≡ db
      → o ≡ only AdminMutationResult.not_found
      → find_user name db ≡ none
      → StatusEffect actor_id name new_status db d o
  own :
      (target : User)
      → d ≡ db
      → o ≡ only AdminMutationResult.self_protected
      → new_status ≡ codes "dormant"
      → find_user name db ≡ some target
      → target.id ≡ actor_id
      → StatusEffect actor_id name new_status db d o
  last :
      (target : User)
      → d ≡ db
      → o ≡ only AdminMutationResult.last_admin
      → new_status ≡ codes "dormant"
      → find_user name db ≡ some target
      → is_active_admin target ≡ true
      → other_active_admins target.id db ≡ 0
      → StatusEffect actor_id name new_status db d o
  rolled_back :
      d ≡ db
      → o ≡ only AdminMutationResult.database_error
      → StatusEffect actor_id name new_status db d o
  settled :
      (target : User) (new : UserStatus) (audit_id now : ℕ)
      → IsStatusChange actor_id name new_status db target new
      → d ≡ status_changed actor_id target new audit_id now db
      → find_user name d ≡ some (settled_user target new)
      → (o ≡ user_status_answer target new) ⊎ (o ≡ only AdminMutationResult.database_error)
      → StatusEffect actor_id name new_status db d o

user_status_of-some :
    (t : Text) (new : UserStatus) → user_status_of t ≡ some new → t ≡ codes (user_status_word new)
user_status_of-some t new h = elim (Bool-cases (text_eq t (codes "active"))) [
  | inl active ↦
      rw (sym (some_injective (rw active at h))) (text_eq_sound t (codes "active") active)
  | inr other ↦ elim (Bool-cases (text_eq t (codes "dormant"))) [
    | inl dormant ↦
        rw (sym (some_injective (rw (other, dormant) at h)))
          (text_eq_sound t (codes "dormant") dormant)
    | inr neither ↦ absurd (cc)
  ]
]

user_status_of-none :
    (t : Text) → user_status_of t ≡ none → (t ≢ codes "active") × (t ≢ codes "dormant")
unfolding text_eq
user_status_of-none t h = (
  λ e.
      let active : some UserStatus.active ≡ none = subst (λ u. user_status_of u ≡ none) e h in
      absurd (cc),
  λ e.
      let dormant : some UserStatus.dormant ≡ none = subst (λ u. user_status_of u ≡ none) e h in
      absurd (cc),
)

dormant_word :
    (t : Text) (new : UserStatus)
    → t ≡ codes (user_status_word new)
    → not (is_active new) ≡ true
    → t ≡ codes "dormant"
dormant_word t UserStatus.active e h = absurd (cc)
dormant_word t UserStatus.dormant e h = e

-- The target is found by its name with the change.
found_settled :
    (name : Text) (target : User) (new : UserStatus) (db : Db)
    → find_user name db ≡ some target
    → find_user name (apply_user_status target new db) ≡ some (settled_user target new)
found_settled name target new db found = elim (Bool-cases (same_user_status target.status new)) [
  | inl same ↦ rw (same, sym (same_status target.status new same)) found
  | inr differ ↦ rw differ (
      find-update_kept (λ (u : User). text_eq u.username name) (λ (u : User). u.id == target.id)
        (with_status new) db.users target (λ y. refl) found (==_refl target.id))
]
  where
    same_status : (s t : UserStatus) → same_user_status s t ≡ true → s ≡ t
    same_status UserStatus.active UserStatus.active h = refl
    same_status UserStatus.active UserStatus.dormant h = absurd (cc)
    same_status UserStatus.dormant UserStatus.active h = absurd (cc)
    same_status UserStatus.dormant UserStatus.dormant h = refl

user_status_safe :
    (target : User) (s new : UserStatus)
    → s ≡ target.status
    → validate_audit_details (user_status_action new) (some (user_status_details target new))
      ≡ some (some (user_status_details target new))
unfolding validate_audit_details lookup_keys is_member safe_items is_sensitive
user_status_safe target UserStatus.active UserStatus.active e = rw (sym e) refl
user_status_safe target UserStatus.active UserStatus.dormant e = rw (sym e) refl
user_status_safe target UserStatus.dormant UserStatus.active e = rw (sym e) refl
user_status_safe target UserStatus.dormant UserStatus.dormant e = rw (sym e) refl

module _ (actor_id : ℕ) (name new_status : Text) (db : Db) where
  abbrev pub StatusPost : Post Mutation
  StatusPost = Unless db (λ d o. StatusEffect actor_id name new_status db d o)

  Recorded-StatusEffect :
      (target : User) (new : UserStatus)
      → IsStatusChange actor_id name new_status db target new
      → (d : Db) (o : Mutation)
      → Recorded db
          (apply_user_status target new db)
          (user_status_answer target new)
          actor_id
          (user_status_action new)
          "user"
          target.id
          (user_status_details target new)
          d
          o
      → StatusEffect actor_id name new_status db d o
  Recorded-StatusEffect target new g d o (Recorded.rolled_back same reply) = rolled_back same reply
  Recorded-StatusEffect target new g d o (Recorded.recorded audit_id now after reply) =
      settled target new audit_id now g after (rw after (found_settled name target new db g.found))
        reply

  settle_user_status-Ends :
      (target : User) (new : UserStatus)
      → IsStatusChange actor_id name new_status db target new
      → Ends db db (settle_user_status actor_id target new) StatusPost
  unfolding settle_user_status
  settle_user_status-Ends target new g = Ends-modify _ _ (
      commit_with_audit-Recorded (λ d o. StatusEffect actor_id name new_status db d o) _ actor_id _
        "user" _ _ refl (user_status_safe target target.status new refl)
        (Recorded-StatusEffect target new g))

  pub change_user_status-Ends : Ends db db (change_user_status actor_id name new_status) StatusPost
  unfolding change_user_status
  change_user_status-Ends =
      Ends-or_return _
        (λ bad.
          let (x, y) = user_status_of-none new_status bad in
          Ends-pure _ (not_a_status refl refl x y))
        λ new known.
          let asked = user_status_of-some new_status new known in
          Ends-query _ _ (λ e. refl)
            (Ends-or_return _ (λ none_found. Ends-pure _ (missing refl refl none_found))
              λ u found.
                Ends-return_if _
                  (λ self.
                    let (x, y) = and_parts (not (is_active new)) _ self in
                    Ends-pure _ (
                      own u refl refl (dormant_word _ new asked x) found
                        ((==_iff u.id actor_id).0 y)))
                  λ other.
                    Ends-return_if _
                      (λ guarded.
                        let (x, y) = and_parts (not (is_active new)) _ guarded in
                        Ends-query _ _ (λ e. refl)
                          (Ends-return_if _
                            (λ none_left. Ends-pure _ (
                              last u refl refl (dormant_word _ new asked x) found y (ground arith)))
                            λ more. settle_user_status-Ends u new (record {
                              asked = asked;
                              found = found;
                              not_self = other;
                              not_last = λ _. ground arith;
                            })))
                      (λ free. settle_user_status-Ends u new (record {
                        asked = asked;
                        found = found;
                        not_self = other;
                        not_last = λ e. cc;
                      })))
