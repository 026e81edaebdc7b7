-- ===== src/Moderation/Runs.antt =====
-- What any sequence of reports keeps, whatever the database does to each.
use whs_secure_coding.Prelude.{
  ==_refl, Bool, Bool-cases, List, [], any, arith, count, count-and_not-find, count-any-false,
  count-append, count-update, count-update_others, false, if◌then◌else◌, inl, inr, refl, some,
  subst, sym, true, ℕ, ◌&&◌, ◌++◌, ◌==◌, ◌∷◌, ◌≡◌, ◌≤◌,
}
use whs_secure_coding.Admin.StatusLaws.{IsGuarded}
use whs_secure_coding.Admin.Users.{is_active_admin, with_status}
use whs_secure_coding.Moderation.{
  ReportOutcome, Target, add_report, find_active_user, is_same_report, restrict_target, restricts,
}
use whs_secure_coding.Moderation.Filing.{
  Filing, ReportEffect, after_report, effective_then, filed, restricted,
}
use whs_secure_coding.Moderation.Restriction.{
  CanReport, Subject, create_report_atomic, create_report_of,
}
use whs_secure_coding.Platform.{Platform}
use whs_secure_coding.Schema.{
  Db, Report, TargetType, User, UserStatus, is_active, is_admin, same_target,
}
use whs_secure_coding.Schema.Constraints.{report_allowed}
use whs_secure_coding.Session.{Result, Session, Signal, open_session}
use whs_secure_coding.Session.Ends.{Unless-committed}
use whs_secure_coding.Text.{Text, text_eq}
use whs_secure_coding.Wallet.Policy.{Arg}

-- One call, with what the database does to it.
pub record ReportCall : Type 0 where
  pub reporter_id : ℕ
  pub subject : Subject
  pub reason : Arg
  pub signals : List Signal
  pub uuids : ℕ → ℕ
  pub now : ℕ

abbrev pub run_report : Platform → ReportCall → Db → Result ReportOutcome × Session
run_report p c db =
    create_report_of p c.reporter_id c.subject c.reason (open_session db c.signals c.uuids c.now)

-- What is committed after calls, one after another.
abbrev pub after_reports : Platform → List ReportCall → Db → Db
after_reports p [] db = db
after_reports p (c ∷ cs) db = after_reports p cs (run_report p c db).1.committed

-- The tables of reports and of users after a report.
after_report-reports :
    (t : Target) (f : Filing) (db : Db)
    → (after_report t f db).reports ≡ db.reports ++ f.report ∷ []
after_report-reports t f db = by_test t (restricts t (effective_then t f db))
  where
    by_test :
        (t : Target) (b : Bool)
        → (if b
            then restricted t f (effective_then t f db) (filed t f db)
            else filed t f db).reports
          ≡ db.reports ++ f.report ∷ []
    by_test t false = refl
    by_test (Target.user_target u) true = refl
    by_test (Target.product_target q) true = refl

-- No reporter has reported a target twice.
pub record IsOnce (db : Db) : Type 0 where
  pub at : (i : ℕ) (t : TargetType) (j : ℕ) → count (is_same_report i t j) db.reports ≤ 1

same_target_eq : (s t : TargetType) → same_target s t ≡ true → s ≡ t
same_target_eq TargetType.user TargetType.user h = refl
same_target_eq TargetType.product TargetType.product h = refl
same_target_eq TargetType.user TargetType.product h = absurd (cc)
same_target_eq TargetType.product TargetType.user h = absurd (cc)

allowed_fresh :
    (db : Db) (r : Report)
    → report_allowed db r ≡ true
    → any (is_same_report r.reporter_id r.target_type r.target_id) db.reports ≡ false
unfolding report_allowed
allowed_fresh db r h = ground arith

add_report-IsOnce :
    (db : Db) (r : Report) → IsOnce db → report_allowed db r ≡ true → IsOnce (add_report r db)
unfolding count
add_report-IsOnce db r once allowed = record {
  at = λ i t j.
      let more = count-append (is_same_report i t j) db.reports (r ∷ []) in
      let before = once.at i t j in
      elim (Bool-cases (is_same_report i t j r)) [
        | inl same ↦
            let none_yet =
              count-any-false (is_same_report r.reporter_id r.target_type r.target_id) db.reports
                (allowed_fresh db r allowed) in
            let one : same_target r.target_type t ≡ true = ground arith in
            let i_is : r.reporter_id ≡ i = ground arith in
            let j_is : r.target_id ≡ j = ground arith in
            let none_here : count (is_same_report i t j) db.reports ≡ 0 =
              rw (i_is, j_is, same_target_eq r.target_type t one) at none_yet in
            rw (more, none_here, same) (omega arith)
        | inr other ↦ rw (more, other) (omega (arith, before))
      ];
}

module _ (reporter_id : ℕ) (Can : Target → Type 0) (db d : Db) (o : ReportOutcome) where
  ReportEffect-IsOnce : IsOnce db → ReportEffect reporter_id Can db d o → IsOnce d
  ReportEffect-IsOnce once (ReportEffect.kept same x y z) = subst IsOnce (sym same) once
  ReportEffect-IsOnce once (ReportEffect.reported t f can is_filed after reply) =
      let h = add_report-IsOnce db f.report once is_filed.allowed in
      record { at = λ i s j. rw (after, after_report-reports t f db) (h.at i s j) }

-- Whatever the reports, one after another, and whatever the database does to each: if no reporter has reported a target
-- twice before them, then none has after them.
pub after_reports-IsOnce :
    (p : Platform) (calls : List ReportCall) (db : Db)
    → IsOnce db
    → IsOnce (after_reports p calls db)
after_reports-IsOnce p [] db once = once
after_reports-IsOnce p (c ∷ cs) db once =
    let (r, s) = run_report p c db in
    after_reports-IsOnce p cs s.committed (
      Unless-committed
        (λ d o. ReportEffect c.reporter_id (CanReport c.reporter_id c.subject db) db d o) IsOnce r
        s.working s.committed
        (create_report_atomic p c.reporter_id c.subject c.reason db c.signals c.uuids c.now) once
        (λ o.
          ReportEffect-IsOnce c.reporter_id (CanReport c.reporter_id c.subject db) db s.committed o
            once))

-- A restriction of a user takes no administrator.
restriction-IsGuarded :
    (reporter_id : ℕ) (subject : Subject) (db : Db) (t : Target) (f : Filing)
    → IsGuarded db
    → CanReport reporter_id subject db t
    → IsGuarded (after_report t f db)
restriction-IsGuarded reporter_id subject db t f g can =
    by_test t subject can (restricts t (effective_then t f db)) refl
  where
    spared :
        (u : User) (name : Text)
        → find_active_user name db ≡ some u
        → is_admin u.role ≡ false
        → IsGuarded (restrict_target (Target.user_target u) db)
    spared u name found plain_user =
        let others =
          count-update_others is_active_admin (λ (v : User). v.id == u.id)
            (with_status UserStatus.dormant) db.users in
        let all =
          count-and_not-find is_active_admin (λ (v : User). v.id == u.id)
            (λ (v : User). text_eq v.username name && is_active v.status) db.users u found
            (ground arith) (==_refl u.id) (g.one_row u.id) in
        let before = g.some_admin in
        record {
          one_row = λ i.
              rw
                (count-update (λ (v : User). v.id == i) (λ (v : User). v.id == u.id)
                  (with_status UserStatus.dormant) db.users (λ v. refl))
                (g.one_row i);
          some_admin = omega (arith, others, all, before);
        }

    same_users : (d : Db) → d.users ≡ db.users → IsGuarded d
    same_users d e = record { one_row = λ i. rw e (g.one_row i); some_admin = rw e g.some_admin }

    by_test :
        (t : Target) (subject : Subject)
        → CanReport reporter_id subject db t
        → (b : Bool) → restricts t (effective_then t f db) ≡ b
        → IsGuarded
            (if b then restricted t f (effective_then t f db) (filed t f db) else filed t f db)
    by_test t s c false e = same_users _ refl
    by_test (Target.product_target q) s c true e = same_users _ refl
    by_test (Target.user_target u) (Subject.named name) c true e =
        let h = spared u name c.0 (ground arith) in
        record { one_row = h.one_row; some_admin = h.some_admin }
    by_test (Target.user_target u) (Subject.numbered id) c true e = absurd c

-- Whatever the reports, one after another, and whatever the database does to each: if every id names at most one user
-- and some administrator is active before them, then so after them.
pub after_reports-IsGuarded :
    (p : Platform) (calls : List ReportCall) (db : Db)
    → IsGuarded db
    → IsGuarded (after_reports p calls db)
after_reports-IsGuarded p [] db g = g
after_reports-IsGuarded p (c ∷ cs) db g =
    let (r, s) = run_report p c db in
    after_reports-IsGuarded p cs s.committed (
      Unless-committed
        (λ d o. ReportEffect c.reporter_id (CanReport c.reporter_id c.subject db) db d o) IsGuarded
        r s.working s.committed
        (create_report_atomic p c.reporter_id c.subject c.reason db c.signals c.uuids c.now) g
        (λ o h. kept_guard s.committed o h))
  where
    kept_guard :
        (d : Db) (o : ReportOutcome)
        → ReportEffect c.reporter_id (CanReport c.reporter_id c.subject db) db d o
        → IsGuarded d
    kept_guard d o (ReportEffect.kept same x y z) = subst IsGuarded (sym same) g
    kept_guard d o (ReportEffect.reported t f can is_filed after reply) =
        subst IsGuarded (sym after) (restriction-IsGuarded c.reporter_id c.subject db t f g can)
