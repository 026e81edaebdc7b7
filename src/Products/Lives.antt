-- ===== src/Products/Lives.antt =====
-- The life of a product under all that changes it: its owner (app/products/services.py), the
-- administrators (app/admin/services.py) and reports (app/moderation/services.py).
-- From `p` to `q`: a deleted product stays as it is, and where no administrator was at work, one that
-- is not public stays so.
use whs_secure_coding.Prelude.{
  ==_iff, ==_refl, Bool, Bool-cases, and_parts, arith, false, find-update_others, find-update_same,
  find_sound, if◌then◌else◌, inl, inr, refl, some, subst, sym, true, ℕ, ◌&&◌, ◌==◌, ◌||◌, ◌∙◌, ◌≡◌,
}
use whs_secure_coding.Admin.Machine.{Moved, deleted_stays}
use whs_secure_coding.Admin.Products.{get_product, moderate, put_product}
use whs_secure_coding.Moderation.{Target, find_reportable_product, restrict_target, restricts}
use whs_secure_coding.Moderation.Filing.{Filing, after_report, effective_then, filed, restricted}
use whs_secure_coding.Moderation.Policy.{is_reportable}
use whs_secure_coding.Moderation.Restriction.{CanReport, Subject}
use whs_secure_coding.Products.{is_deleted, is_public}
use whs_secure_coding.Products.Ownership.{IsKeyed, count-update_met, find_one, put_product-IsKeyed}
use whs_secure_coding.Schema.{Db, Product, ProductStatus}

pub record Survives (administered : Bool) (p q : Product) : Type 0 where
  pub deleted : is_deleted p.status ≡ true → q ≡ p
  pub hidden : administered ≡ false → is_public p.status ≡ false → is_public q.status ≡ false

abbrev pub Alive : Bool → ℕ → Product → Db → Type 0
Alive administered id p d = (q : Product) × (get_product id d ≡ some q) × Survives administered p q

pub survived : (a : Bool) (p : Product) → Survives a p p
survived a p = record { deleted = λ h. refl; hidden = λ h k. k }

pub Survives-both :
    (a b : Bool) (p q r : Product) → Survives a p q → Survives b q r → Survives (a || b) p r
Survives-both a b p q r h k = record {
  deleted = λ x. k.deleted (rw (h.deleted x) x) ∙ h.deleted x;
  hidden = λ x y. k.hidden (ground (arith, x)) (h.hidden (ground (arith, x)) y);
}

IsKeyed-same : (db d : Db) → d.products ≡ db.products → IsKeyed db → IsKeyed d
IsKeyed-same db d e keyed = record { one = λ i. rw e (keyed.one i) }

pub Moved-IsKeyed : (db d : Db) → Moved db d → IsKeyed db → IsKeyed d
Moved-IsKeyed db d (Moved.same e) keyed = IsKeyed-same db d e keyed
Moved-IsKeyed db d (Moved.moved act p q changed found next_is e) keyed =
    IsKeyed-same (put_product q db) d e (put_product-IsKeyed q db keyed)

deleted_is : (s : ProductStatus) → is_deleted s ≡ true → s ≡ ProductStatus.deleted
deleted_is ProductStatus.deleted h = refl
deleted_is ProductStatus.active h = absurd (cc)
deleted_is ProductStatus.sold h = absurd (cc)
deleted_is ProductStatus.hidden h = absurd (cc)

pub Moved-Alive :
    (db d : Db) (id : ℕ) (p : Product) → get_product id db ≡ some p → Moved db d → Alive true id p d
Moved-Alive db d id p found (Moved.same e) = (p, rw e found, survived true p)
Moved-Alive db d id p found (Moved.moved act r q changed at next_is e) =
    elim (Bool-cases (q.id == id)) [
      | inl own ↦
          let own_id = (==_iff q.id id).0 own in
          let r_is : r ≡ p = cc in
          (
            q,
            rw (e, sym own_id)
                (find-update_same (λ (x : Product). x.id == q.id) (λ x. q) db.products p
                  (rw own_id found) (λ y h. ==_refl q.id)),
            record {
              deleted = λ h.
                  let r_deleted : r.status ≡ ProductStatus.deleted =
                    deleted_is r.status (rw r_is h) in
                  deleted_stays act r q changed
                    (subst (λ s. moderate act r s ≡ some (q, changed)) r_deleted next_is)
                  ∙ r_is;
              hidden = λ h k. absurd (cc);
            },
          )
      | inr other ↦ (
        p,
        rw e (
            find-update_others (λ (x : Product). x.id == id) (λ (x : Product). x.id == q.id)
              (λ x. q) db.products (λ x h. grind arith) (λ x h. other)
            ∙ found),
        survived true p,
      )
    ]

-- The rows of products after a report: as before, or with a product that could be reported hidden.
pub data Reported (db d : Db) : Type 0 where
  same : d.products ≡ db.products → Reported db d
  restricted_to :
      (id : ℕ) (p : Product)
      → find_reportable_product id db ≡ some p
      → d.products ≡ (restrict_target (Target.product_target p) db).products
      → Reported db d

pub after_report-Reported :
    (reporter_id : ℕ) (subject : Subject) (db : Db) (t : Target) (f : Filing)
    → CanReport reporter_id subject db t
    → Reported db (after_report t f db)
after_report-Reported reporter_id subject db t f can =
    by_test subject t can (restricts t (effective_then t f db)) (effective_then t f db)
  where
    by_test :
        (s : Subject) (t : Target)
        → CanReport reporter_id s db t
        → (b : Bool) (n : ℕ)
        → Reported db (if b then restricted t f n (filed t f db) else filed t f db)
    by_test s t can false n = Reported.same refl
    by_test (Subject.named name) (Target.user_target u) can true n = Reported.same refl
    by_test (Subject.numbered id) (Target.product_target p) can true n =
        Reported.restricted_to id p can.0 refl
    by_test (Subject.named name) (Target.product_target p) can true n = absurd (can)
    by_test (Subject.numbered id) (Target.user_target u) can true n = absurd (can)

-- The assignments of a restriction.
abbrev hidden_by : ProductStatus → Product → Product
hidden_by s p = record p { moderation_previous_status = some s; status = ProductStatus.hidden }

pub Reported-IsKeyed : (db d : Db) → Reported db d → IsKeyed db → IsKeyed d
Reported-IsKeyed db d (Reported.same e) keyed = IsKeyed-same db d e keyed
Reported-IsKeyed db d (Reported.restricted_to id p found e) keyed =
    IsKeyed-same (restrict_target (Target.product_target p) db) d e (record {
      one = λ i.
          rw
            (count-update_met (λ (x : Product). x.id == i) (λ (x : Product). x.id == p.id)
              (hidden_by p.status) db.products (λ x h. refl))
            (keyed.one i);
    })

reportable_open :
    (s : ProductStatus) → is_reportable s ≡ true → (is_deleted s ≡ false) × (is_public s ≡ true)
reportable_open ProductStatus.active h = (refl, refl)
reportable_open ProductStatus.sold h = (refl, refl)
reportable_open ProductStatus.hidden h = absurd (cc)
reportable_open ProductStatus.deleted h = absurd (cc)

not_both : (b : Bool) → b ≡ true → b ≡ false → ⊥
not_both true h k = absurd (cc)
not_both false h k = absurd (cc)

pub Reported-Alive :
    (db d : Db) (id : ℕ) (p : Product)
    → IsKeyed db
    → get_product id db ≡ some p
    → Reported db d
    → Alive false id p d
Reported-Alive db d id p keyed found (Reported.same e) = (p, rw e found, survived false p)
Reported-Alive db d id p keyed found (Reported.restricted_to i r at e) =
    elim (Bool-cases (r.id == id)) [
      | inl own ↦
          let r_is : r ≡ p =
            find_one (λ (x : Product). x.id == id) _ db.products p r (keyed.one id) found at own in
          let can =
            and_parts (r.id == i) (is_reportable r.status) (
              find_sound (λ (x : Product). x.id == i && is_reportable x.status) db.products r at) in
          let shown = reportable_open r.status can.1 in
          let own_id = (==_iff r.id id).0 own in
          (
            hidden_by r.status p,
            rw (e, sym own_id)
                (find-update_same (λ (x : Product). x.id == r.id) (hidden_by r.status) db.products p
                  (rw own_id found) (λ y h. h)),
            record {
              deleted = λ h. absurd (not_both _ (rw r_is h) shown.0);
              hidden = λ h k. absurd (not_both _ shown.1 (rw r_is k));
            },
          )
      | inr other ↦ (
        p,
        rw e (
            find-update_others (λ (x : Product). x.id == id) (λ (x : Product). x.id == r.id) _
              db.products (λ x h. grind arith) (λ x h. grind arith)
            ∙ found),
        survived false p,
      )
    ]
