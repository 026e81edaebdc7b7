-- ===== src/Admin/StatusLaws.antt =====
-- What `change_user_status` guarantees: the guards, and an active administrator after calls that
-- run one after another.
use whs_secure_coding.Prelude.{
  ==_refl, Bool-cases, List, [], arith, count, count-and_not-find, count-update, count-update_mono,
  count-update_others, inl, inr, refl, subst, sym, true, ℕ, ◌==◌, ◌∷◌, ◌≡◌, ◌≤◌,
}
use whs_secure_coding.Admin.{Mutation}
use whs_secure_coding.Admin.Guard.{IsStatusChange, StatusEffect, change_user_status-Ends}
use whs_secure_coding.Admin.Users.{
  apply_user_status, change_user_status, is_active_admin, same_user_status, set_user_status,
  with_status,
}
use whs_secure_coding.Schema.{Db, User, UserStatus}
use whs_secure_coding.Session.{Result, Session, Signal, open_session}
use whs_secure_coding.Session.Ends.{Unless, Unless-committed}
use whs_secure_coding.Text.{Text, text_eq}

pub change_user_status_guarded_at :
    (actor_id : ℕ) (name new_status : Text) (db : Db) (s : Session)
    → s.working ≡ db
    → s.committed ≡ db
    → let (r, t) = change_user_status actor_id name new_status s in
      Unless db (λ d o. StatusEffect actor_id name new_status db d o) r t.working t.committed
change_user_status_guarded_at actor_id name new_status db s hw hd =
    (change_user_status-Ends actor_id name new_status db).at s hw hd

-- Every id names at most one user, and some administrator is active.
pub record IsGuarded (db : Db) : Type 0 where
  pub one_row : (i : ℕ) → count (λ (u : User). u.id == i) db.users ≤ 1
  pub some_admin : 1 ≤ count is_active_admin db.users

raised_admin :
    (u : User) → is_active_admin u ≡ true → is_active_admin (with_status UserStatus.active u) ≡ true
raised_admin u h = ground arith

set_user_status-one_row :
    (db : Db) (id i : ℕ) (new : UserStatus)
    → count (λ (u : User). u.id == i) (set_user_status id new db).users
      ≡ count (λ (u : User). u.id == i) db.users
set_user_status-one_row db id i new =
    count-update (λ (u : User). u.id == i) (λ (u : User). u.id == id) (with_status new) db.users
      (λ u. refl)

-- A change to dormant leaves an administrator: another one, or all of them.
dormant-some_admin :
    (db : Db) (actor_id : ℕ) (name new_status : Text) (target : User)
    → IsGuarded db
    → IsStatusChange actor_id name new_status db target UserStatus.dormant
    → 1 ≤ count is_active_admin (set_user_status target.id UserStatus.dormant db).users
dormant-some_admin db actor_id name new_status target g c =
    let others =
      count-update_others is_active_admin (λ (u : User). u.id == target.id)
        (with_status UserStatus.dormant) db.users in
    elim (Bool-cases (is_active_admin target)) [
      | inl admin ↦ let enough = c.not_last admin in omega (arith, others, enough)
      | inr other ↦
          let all =
            count-and_not-find is_active_admin (λ (u : User). u.id == target.id)
              (λ (u : User). text_eq u.username name) db.users target c.found other
              (==_refl target.id) (g.one_row target.id) in
          let before = g.some_admin in omega (arith, others, all, before)
    ]

apply_user_status-IsGuarded :
    (db : Db) (actor_id : ℕ) (name new_status : Text) (target : User) (new : UserStatus)
    → IsGuarded db
    → IsStatusChange actor_id name new_status db target new
    → IsGuarded (apply_user_status target new db)
apply_user_status-IsGuarded db actor_id name new_status target new g c =
    elim (Bool-cases (same_user_status target.status new)) [
      | inl same ↦ rw same g
      | inr differ ↦ rw differ (record {
        one_row = λ i. rw (set_user_status-one_row db target.id i new) (g.one_row i);
        some_admin = kept new c;
      })
    ]
  where
    kept :
        (s : UserStatus)
        → IsStatusChange actor_id name new_status db target s
        → 1 ≤ count is_active_admin (set_user_status target.id s db).users
    kept UserStatus.dormant h = dormant-some_admin db actor_id name new_status target g h
    kept UserStatus.active h =
        let more =
          count-update_mono is_active_admin (λ (u : User). u.id == target.id)
            (with_status UserStatus.active) db.users raised_admin in
        let before = g.some_admin in omega (arith, more, before)

StatusEffect-IsGuarded :
    (actor_id : ℕ) (name new_status : Text) (db d : Db) (o : Mutation)
    → IsGuarded db
    → StatusEffect actor_id name new_status db d o
    → IsGuarded d
StatusEffect-IsGuarded actor_id name new_status db d o g effect = by effect
  where
    same : d ≡ db → IsGuarded d
    same e = subst IsGuarded (sym e) g

    by : StatusEffect actor_id name new_status db d o → IsGuarded d
    by (StatusEffect.not_a_status e reply x y) = same e
    by (StatusEffect.missing e reply x) = same e
    by (StatusEffect.own target e reply x y z) = same e
    by (StatusEffect.last target e reply x y z w) = same e
    by (StatusEffect.rolled_back e reply) = same e
    by (StatusEffect.settled target new audit_id now c after then_is reply) =
        let h = apply_user_status-IsGuarded db actor_id name new_status target new g c in
        subst IsGuarded (sym after) (record { one_row = h.one_row; some_admin = h.some_admin })

-- One call, with what the database does to it.
pub record StatusCall : Type 0 where
  pub actor_id : ℕ
  pub target_username : Text
  pub new_status : Text
  pub signals : List Signal
  pub uuids : ℕ → ℕ
  pub now : ℕ

abbrev pub run_status_call : StatusCall → Db → Result Mutation × Session
run_status_call c db =
    change_user_status c.actor_id c.target_username c.new_status
      (open_session db c.signals c.uuids c.now)

-- What is committed after calls, one after another.
abbrev pub after_status_calls : List StatusCall → Db → Db
after_status_calls [] db = db
after_status_calls (c ∷ cs) db = after_status_calls cs (run_status_call c db).1.committed

-- Of calls of `change_user_status` that run one after another, whatever the database does to each: if
-- every id names at most one user and some administrator is active before them, then so after them.
-- Calls that overlap are not covered: a writer between the count of the others and the commit.
pub after_status_calls-IsGuarded :
    (calls : List StatusCall) (db : Db) → IsGuarded db → IsGuarded (after_status_calls calls db)
after_status_calls-IsGuarded [] db g = g
after_status_calls-IsGuarded (c ∷ cs) db g =
    let (r, t) = run_status_call c db in
    after_status_calls-IsGuarded cs t.committed (
      Unless-committed (λ d o. StatusEffect c.actor_id c.target_username c.new_status db d o)
        IsGuarded r t.working t.committed
        (change_user_status_guarded_at c.actor_id c.target_username c.new_status db _ refl refl) g
        (λ o. StatusEffect-IsGuarded c.actor_id c.target_username c.new_status db t.committed o g))

-- Whatever the database does, a call of `change_user_status` raises, with nothing committed; or has
-- nothing committed and answers INVALID_STATE where the status that is asked for is none of the two,
-- NOT_FOUND where no user has the name, SELF_PROTECTED where it is to make the actor dormant,
-- LAST_ADMIN where it is to make the only active administrator dormant, or DATABASE_ERROR; or no
-- guard applies, and what is committed is the change with its audit row: the user of the name then
-- has the status that is asked for, with the session version one higher where they differed, the
-- answer then being OK with the sockets of the target disconnected, IDEMPOTENT where they did not,
-- or DATABASE_ERROR where the commit took effect and raised.
pub change_user_status_guarded :
    (actor_id : ℕ) (name new_status : Text) (db : Db) (signals : List Signal) (uuids : ℕ → ℕ)
    (now : ℕ)
    → let (r, t) =
        change_user_status actor_id name new_status (open_session db signals uuids now) in
      Unless db (λ d o. StatusEffect actor_id name new_status db d o) r t.working t.committed
change_user_status_guarded actor_id name new_status db signals uuids now =
    change_user_status_guarded_at actor_id name new_status db _ refl refl
