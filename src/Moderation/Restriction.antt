-- ===== src/Moderation/Restriction.antt =====
-- The reports of app/moderation/services.py as requests, what a run of one guarantees, and the
-- restriction that the third effective report brings.
use whs_secure_coding.Prelude.{
  ==_iff, ==_refl, Bool, List, [], arith, count, count-append, false, find-narrowed,
  find-update_kept, find-update_others, find_sound, leb, le→leb, none, refl, some, true, ℕ, ◌&&◌,
  ◌==◌, ◌∷◌, ◌≡◌, ◌≤◌,
}
use whs_secure_coding.Admin.Products.{get_product}
use whs_secure_coding.Audit.{add_audit_log}
use whs_secure_coding.Moderation.{
  ReportCreateResult, ReportOutcome, Target, add_report, already_reported, answer,
  create_product_report, create_report, create_user_report, effective_report_count, file_report,
  find_active_user, find_reportable_product, restrict,
}
use whs_secure_coding.Moderation.Filing.{
  ReportEffect, ReportPost, create_report-Ends, created_safe, restriction_safe,
}
use whs_secure_coding.Moderation.Policy.{
  Reason, is_effective, is_reportable, normalize_report_reason,
}
use whs_secure_coding.Platform.{Platform}
use whs_secure_coding.Schema.{
  Db, Product, ProductStatus, Report, ReportStatus, TargetType, same_target,
}
use whs_secure_coding.Schema.Constraints.{report_allowed}
use whs_secure_coding.Session.{Signal, Tx, ok, open_session, ◌>>=◌}
use whs_secure_coding.Session.Ends.{
  Ends, Ends-or_return, Ends-pure, Ends-query, Ends-return_if, Unless,
}
use whs_secure_coding.Text.{Text}
use whs_secure_coding.Wallet.Policy.{Arg}

-- `create_user_report` of a user name, or `create_product_report` of a product.
pub data Subject : Type 0 where
  named : Text → Subject
  numbered : ℕ → Subject

abbrev pub create_report_of : Platform → ℕ → Subject → Arg → Tx ReportOutcome
create_report_of p reporter_id (Subject.named name) reason =
    create_user_report p reporter_id name reason
create_report_of p reporter_id (Subject.numbered id) reason =
    create_product_report p reporter_id id reason

-- The target is an active user of that name, or a reportable product of that id, and is not the
-- reporter's own.
abbrev pub CanReport : ℕ → Subject → Db → Target → Type 0
CanReport reporter_id (Subject.named name) db (Target.user_target u) =
    (find_active_user name db ≡ some u) × ((u.id == reporter_id) ≡ false)
CanReport reporter_id (Subject.numbered id) db (Target.product_target q) =
    (find_reportable_product id db ≡ some q) × ((q.seller_id == reporter_id) ≡ false)
CanReport reporter_id _ db _ = ⊥

create_report_of-Ends :
    (p : Platform) (reporter_id : ℕ) (subject : Subject) (reason : Arg) (db : Db)
    → Ends db db
        (create_report_of p reporter_id subject reason)
        (ReportPost reporter_id (CanReport reporter_id subject db) db)
unfolding create_user_report create_product_report
create_report_of-Ends p reporter_id (Subject.named name) reason db =
    Ends-query _ _ (λ e. refl)
      (Ends-or_return _ (λ missing. Ends-pure _ (ReportEffect.kept refl (λ e. cc) (λ e. cc) refl))
        λ u found.
          Ends-return_if _ (λ own. Ends-pure _ (ReportEffect.kept refl (λ e. cc) (λ e. cc) refl))
            (λ other.
              create_report-Ends reporter_id (CanReport reporter_id (Subject.named name) db) db p
                (Target.user_target u) reason (found, other)))
create_report_of-Ends p reporter_id (Subject.numbered id) reason db =
    Ends-query _ _ (λ e. refl)
      (Ends-or_return _ (λ missing. Ends-pure _ (ReportEffect.kept refl (λ e. cc) (λ e. cc) refl))
        λ q found.
          Ends-return_if _ (λ own. Ends-pure _ (ReportEffect.kept refl (λ e. cc) (λ e. cc) refl))
            (λ other.
              create_report-Ends reporter_id (CanReport reporter_id (Subject.numbered id) db) db p
                (Target.product_target q) reason (found, other)))

-- Whatever the database does, a report of a user name or of a product raises, with nothing
-- committed; or answers neither CREATED nor AUTO_RESTRICTED and has nothing committed; or its target
-- is an active user of that name or a reportable product of that id that is not the reporter's own,
-- and what is committed is the pending report with its audit row, together with the restriction of
-- the target and its audit row exactly where the effective reports then reach the threshold and the
-- target may be restricted; the answer tells so, or is DATABASE_ERROR where the commit raised.
pub create_report_atomic :
    (p : Platform) (reporter_id : ℕ) (subject : Subject) (reason : Arg) (db : Db)
    (signals : List Signal) (uuids : ℕ → ℕ) (now : ℕ)
    → let (r, s) =
        create_report_of p reporter_id subject reason (open_session db signals uuids now) in
      Unless db
        (λ d o. ReportEffect reporter_id (CanReport reporter_id subject db) db d o)
        r
        s.working
        s.committed
create_report_atomic p reporter_id subject reason db signals uuids now =
    (create_report_of-Ends p reporter_id subject reason db).at (open_session db signals uuids now)
      refl refl

-- The report that a run files.
abbrev pub new_report : ℕ → ℕ → ℕ → Text → ℕ → Report
new_report id reporter_id product_id reason now = record {
  id = id;
  reporter_id = reporter_id;
  target_type = TargetType.product;
  target_id = product_id;
  reason = reason;
  status = ReportStatus.pending;
  reviewed_by_id = none;
  reviewed_at = none;
  created_at = now;
}

one_more :
    (db : Db) (r : Report) (id : ℕ)
    → r.target_type ≡ TargetType.product
    → r.target_id ≡ id
    → r.status ≡ ReportStatus.pending
    → 2 ≤ effective_report_count TargetType.product id db
    → leb 3 (effective_report_count TargetType.product id (add_report r db)) ≡ true
unfolding effective_report_count count
one_more db r id t i s enough =
    let p : Report → Bool = λ (q : Report).
      same_target q.target_type TargetType.product && q.target_id == id && is_effective q.status in
    let more = count-append p db.reports (r ∷ []) in
    rw (more, t, i, s, ==_refl id) (le→leb _ _ (omega (arith, enough)))

-- The product as the restriction leaves it: hidden, with the status that it had.
abbrev pub hidden_product : Product → Product
hidden_product q = record q {
  moderation_previous_status = some q.status;
  status = ProductStatus.hidden;
}

-- Where the database does not fail: a valid report, by another than the seller, of a reportable
-- product that has two effective reports and none by this reporter, is answered AUTO_RESTRICTED,
-- and the product is hidden then, with the status that it had remembered and otherwise the same;
-- every other product is as it was.
pub third_report_hides :
    (p : Platform) (reporter_id product_id : ℕ) (reason : Arg) (db : Db) (uuids : ℕ → ℕ) (now : ℕ)
    (q : Product) (text : Text)
    → get_product product_id db ≡ some q
    → is_reportable q.status ≡ true
    → (q.seller_id == reporter_id) ≡ false
    → normalize_report_reason p reason ≡ Reason.valid text
    → already_reported reporter_id TargetType.product q.id db ≡ false
    → report_allowed db (new_report (uuids 0) reporter_id q.id text now) ≡ true
    → 2 ≤ effective_report_count TargetType.product q.id db
    → let (r, s) =
        create_product_report p reporter_id product_id reason (open_session db [] uuids now) in
      (r ≡ ok (answer ReportCreateResult.auto_restricted))
      × (get_product product_id s.committed ≡ some (hidden_product q))
      × ((i : ℕ) → (i == product_id) ≡ false → get_product i s.committed ≡ get_product i db)
unfolding create_product_report create_report file_report restrict add_audit_log ◌>>=◌
    effective_report_count
third_report_hides p reporter_id product_id reason db uuids now q text found live other valid fresh
      allowed enough =
    let report : Report = new_report (uuids 0) reporter_id q.id text now in
    let own : q.id ≡ product_id =
      (==_iff q.id product_id).0
        (find_sound (λ (x : Product). x.id == product_id) db.products q found) in
    let reportable : find_reportable_product product_id db ≡ some q =
      find-narrowed (λ (x : Product). x.id == product_id) (λ (x : Product). is_reportable x.status)
        db.products q found live in
    let reached = one_more db report q.id refl refl refl enough in
    rw
      (
        reportable,
        other,
        valid,
        fresh,
        allowed,
        created_safe TargetType.product,
        reached,
        live,
        restriction_safe (Target.product_target q)
            (effective_report_count TargetType.product q.id (add_report report db)),
      )
      (
        refl,
        find-update_kept (λ (x : Product). x.id == product_id) (λ (x : Product). x.id == q.id)
            (λ (x : Product). record x {
              moderation_previous_status = some q.status;
              status = ProductStatus.hidden;
            })
            db.products q (λ y. refl) found (==_refl q.id),
        λ i apart.
            find-update_others (λ (x : Product). x.id == i) (λ (x : Product). x.id == q.id)
              (λ (x : Product). record x {
                moderation_previous_status = some q.status;
                status = ProductStatus.hidden;
              })
              db.products (λ x h. grind arith) (λ x h. grind arith),
      )
