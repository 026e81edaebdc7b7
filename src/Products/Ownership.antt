-- ===== src/Products/Ownership.antt =====
-- What owners can do to a product by the mutations of app/products/services.py, over any calls.
use whs_secure_coding.Prelude.{
  ==_iff, ==_refl, Bool, Bool-cases, List, [], any, arith, count, count-any-false, count-append,
  count_of_find, false, find, find-append_some, find-update_others, find-update_same, inl, inr,
  refl, some, subst, suc, sym, true, update, zero, ℕ, ◌==◌, ◌||◌, ◌∙◌, ◌∷◌, ◌≡◌, ◌≤◌,
}
use whs_secure_coding.Admin.Products.{get_product, put_product}
use whs_secure_coding.Products.{add_product, is_deleted, is_public}
use whs_secure_coding.Products.Effects.{OwnerEffect, OwnerStep}
use whs_secure_coding.Schema.{Db, Product, ProductStatus, is_active}
use whs_secure_coding.Schema.Constraints.{product_allowed}

-- The ids of products are keys.
pub record IsKeyed (db : Db) : Type 0 where
  pub one : (i : ℕ) → count (λ (p : Product). p.id == i) db.products ≤ 1

-- From `p` to `q`: a product keeps its id and its seller and what moderation remembers of it; one that
-- is hidden or deleted does not become public, and a deleted one stays as it is; and without a call
-- of its owner it stays as it is.
pub record IsLater (own : Bool) (p q : Product) : Type 0 where
  pub id : q.id ≡ p.id
  pub seller : q.seller_id ≡ p.seller_id
  pub remembered : q.moderation_previous_status ≡ p.moderation_previous_status
  pub hidden : is_public p.status ≡ false → is_public q.status ≡ false
  pub deleted : is_deleted p.status ≡ true → q ≡ p
  pub others : own ≡ false → q ≡ p

pub unchanged : (own : Bool) (p : Product) → IsLater own p p
unchanged own p = record {
  id = refl;
  seller = refl;
  remembered = refl;
  hidden = λ h. h;
  deleted = λ h. refl;
  others = λ h. refl;
}

pub IsLater-IsLater :
    (a b : Bool) (p q r : Product) → IsLater a p q → IsLater b q r → IsLater (a || b) p r
IsLater-IsLater a b p q r h k = record {
  id = k.id ∙ h.id;
  seller = k.seller ∙ h.seller;
  remembered = k.remembered ∙ h.remembered;
  hidden = λ x. k.hidden (h.hidden x);
  deleted = λ x. k.deleted (rw (h.deleted x) x) ∙ h.deleted x;
  others = λ x. k.others (ground (arith, x)) ∙ h.others (ground (arith, x));
}

public_not_deleted :
    (s : ProductStatus) → is_public s ≡ true → is_deleted s ≡ true → zero ≡ suc zero
public_not_deleted ProductStatus.active x y = absurd (cc)
public_not_deleted ProductStatus.sold x y = absurd (cc)
public_not_deleted ProductStatus.hidden x y = absurd (cc)
public_not_deleted ProductStatus.deleted x y = absurd (cc)

OwnerStep-IsLater : (p q : Product) → OwnerStep p q → IsLater true p q
OwnerStep-IsLater p _ (OwnerStep.edit c new_filename shown) = record {
  id = refl;
  seller = refl;
  remembered = refl;
  hidden = λ h. h;
  deleted = λ h. absurd (omega (arith, public_not_deleted p.status shown h));
  others = λ h. absurd (cc);
}
OwnerStep-IsLater p _ (OwnerStep.mark s shown marked) = record {
  id = refl;
  seller = refl;
  remembered = refl;
  hidden = λ h. absurd (cc);
  deleted = λ h. absurd (omega (arith, public_not_deleted p.status shown h));
  others = λ h. absurd (cc);
}
OwnerStep-IsLater p _ (OwnerStep.delete there) = record {
  id = refl;
  seller = refl;
  remembered = refl;
  hidden = λ h. refl;
  deleted = λ h. absurd (cc);
  others = λ h. absurd (cc);
}

-- Of rows of which one at most meets a condition, two that are found and meet it are the same.
pub find_one :
    {A : Type 0} (p test : A → Bool) (xs : List A) (r s : A)
    → count p xs ≤ 1
    → find p xs ≡ some r
    → find test xs ≡ some s
    → p s ≡ true
    → s ≡ r
unfolding find count
find_one p test [] r s one found tested own = absurd (cc)
find_one p test (x ∷ xs) r s one found tested own =
    ground (arith, find_one p test xs r s, count_of_find p test xs s)

pub count-update_met :
    {A : Type 0} (q p : A → Bool) (g : A → A) (xs : List A)
    → ((x : A) → p x ≡ true → q (g x) ≡ q x)
    → count q (update p g xs) ≡ count q xs
unfolding count update
count-update_met q p g [] h = refl
count-update_met q p g (x ∷ xs) h = ground (arith, count-update_met q p g xs h, h x)

pub put_product-IsKeyed : (q : Product) (db : Db) → IsKeyed db → IsKeyed (put_product q db)
put_product-IsKeyed q db keyed = record {
  one = λ i.
      rw
        (count-update_met (λ (p : Product). p.id == i) (λ (p : Product). p.id == q.id) (λ p. q)
          db.products (λ x h. rw ((==_iff x.id q.id).0 h) refl))
        (keyed.one i);
}

add_product-IsKeyed :
    (p : Product) (db : Db) → product_allowed db p ≡ true → IsKeyed db → IsKeyed (add_product p db)
unfolding product_allowed count
add_product-IsKeyed p db allowed keyed = record {
  one = λ i.
      let more = count-append (λ (q : Product). q.id == i) db.products (p ∷ []) in
      let before = keyed.one i in
      elim (Bool-cases (p.id == i)) [
        | inl own ↦
            let fresh : any (λ (q : Product). q.id == p.id) db.products ≡ false = ground arith in
            let i_is = (==_iff p.id i).0 own in
            let none_here : count (λ (q : Product). q.id == i) db.products ≡ 0 =
              subst (λ j. count (λ (q : Product). q.id == j) db.products ≡ 0) i_is
                (count-any-false (λ (q : Product). q.id == p.id) db.products fresh) in
            rw (more, none_here, own) (omega arith)
        | inr other ↦ rw (more, other) (omega (arith, before))
      ];
}

pub OwnerEffect-IsKeyed :
    (seller : ℕ) (db d : Db) → OwnerEffect seller db d → IsKeyed db → IsKeyed d
OwnerEffect-IsKeyed seller db d (OwnerEffect.same e) keyed = subst IsKeyed (sym e) keyed
OwnerEffect-IsKeyed seller db d (OwnerEffect.changed test p q found own step e) keyed =
    subst IsKeyed (sym e) (put_product-IsKeyed q db keyed)
OwnerEffect-IsKeyed seller db d (OwnerEffect.added p allowed is_active none_kept e) keyed =
    subst IsKeyed (sym e) (add_product-IsKeyed p db allowed keyed)

-- The product of an id is still there, and is later.
abbrev pub Kept : Bool → ℕ → Product → Db → Type 0
Kept own id p d = (q : Product) × (get_product id d ≡ some q) × IsLater own p q

pub OwnerEffect-Kept :
    (seller : ℕ) (db d : Db) (id : ℕ) (p : Product)
    → IsKeyed db
    → get_product id db ≡ some p
    → OwnerEffect seller db d
    → Kept (seller == p.seller_id) id p d
OwnerEffect-Kept seller db d id p keyed found (OwnerEffect.same e) = (p, rw e found, unchanged _ p)
OwnerEffect-Kept seller db d id p keyed found
      (OwnerEffect.added new allowed is_active none_kept e) =
    (p, rw e (find-append_some _ db.products (new ∷ []) p found), unchanged _ p)
OwnerEffect-Kept seller db d id p keyed found (OwnerEffect.changed test r q tested own step e) =
    let q_later = OwnerStep-IsLater r q step in
    elim (Bool-cases (q.id == id)) [
      | inl same_id ↦
          let r_id : (r.id == id) ≡ true = rw (sym q_later.id) same_id in
          let r_is : r ≡ p =
            find_one (λ (x : Product). x.id == id) test db.products p r (keyed.one id) found tested
              r_id in
          let id_is = (==_iff q.id id).0 same_id in
          (
            q,
            rw (e, sym id_is)
                (find-update_same (λ (x : Product). x.id == q.id) (λ x. q) db.products p
                  (rw id_is found) (λ y h. ==_refl q.id)),
            subst (λ b. IsLater b p q) (sym (rw (sym r_is, own) (==_refl seller)))
                (subst (λ x. IsLater true x q) r_is q_later),
          )
      | inr other ↦ (
        p,
        rw e (
            find-update_others (λ (x : Product). x.id == id) (λ (x : Product). x.id == q.id)
              (λ x. q) db.products (λ x h. grind arith) (λ x h. other)
            ∙ found),
        unchanged _ p,
      )
    ]
