-- ===== src/Admin/Machine.antt =====
-- The life of a product under `change_product_status`: what no calls change.
use whs_secure_coding.Prelude.{
  ==_iff, ==_refl, Bool, Bool-cases, List, Option, [], all, all-find, all-update, ap, arith, false,
  find-update_others, find-update_same, find_sound, inl, inr, none, refl, some, subst, sym, true, ℕ,
  ◌==◌, ◌∙◌, ◌∷◌, ◌≡◌,
}
use whs_secure_coding.Admin.{Mutation}
use whs_secure_coding.Admin.Lifecycle.{ProductEffect, change_product_status-Ends}
use whs_secure_coding.Admin.Products.{
  ProductAction, change_product_status, get_product, moderate, put_product, restored_status,
}
use whs_secure_coding.Schema.{Db, Product, ProductStatus}
use whs_secure_coding.Session.{Result, Session, Signal, open_session}
use whs_secure_coding.Session.Ends.{Unless-committed}
use whs_secure_coding.Text.{Text}

-- A hidden product may remember a status, `active` or `sold`; one that is active or sold remembers
-- none. A deleted one may remember any, since an owner who deletes a hidden product leaves it there.
abbrev pub remembered : ProductStatus → Option ProductStatus → Bool
remembered ProductStatus.hidden none = true
remembered ProductStatus.hidden (some ProductStatus.active) = true
remembered ProductStatus.hidden (some ProductStatus.sold) = true
remembered ProductStatus.hidden (some _) = false
remembered ProductStatus.deleted _ = true
remembered _ none = true
remembered _ (some s) = false

unfoldable pub is_consistent : Product → Bool
is_consistent p = remembered p.status p.moderation_previous_status

abbrev pub holds_after : (Product → Bool) → Option (Product × Bool) → Bool
holds_after q none = true
holds_after q (some (p, changed)) = q p

restored_remembered : (o : Option ProductStatus) → remembered (restored_status o) none ≡ true
restored_remembered none = refl
restored_remembered (some ProductStatus.active) = refl
restored_remembered (some ProductStatus.hidden) = refl
restored_remembered (some ProductStatus.sold) = refl
restored_remembered (some ProductStatus.deleted) = refl

moderate-is_consistent :
    (act : ProductAction) (p : Product) (s : ProductStatus)
    → p.status ≡ s
    → is_consistent p ≡ true
    → holds_after is_consistent (moderate act p s) ≡ true
unfolding moderate is_consistent
moderate-is_consistent ProductAction.hide p ProductStatus.hidden e h = h
moderate-is_consistent ProductAction.hide p ProductStatus.active e h = refl
moderate-is_consistent ProductAction.hide p ProductStatus.sold e h = refl
moderate-is_consistent ProductAction.hide p ProductStatus.deleted e h = refl
moderate-is_consistent ProductAction.restore p ProductStatus.hidden e h =
    restored_remembered p.moderation_previous_status
moderate-is_consistent ProductAction.restore p ProductStatus.active e h = refl
moderate-is_consistent ProductAction.restore p ProductStatus.sold e h = refl
moderate-is_consistent ProductAction.restore p ProductStatus.deleted e h = refl
moderate-is_consistent ProductAction.delete p ProductStatus.deleted e h = h
moderate-is_consistent ProductAction.delete p ProductStatus.active e h = refl
moderate-is_consistent ProductAction.delete p ProductStatus.sold e h = refl
moderate-is_consistent ProductAction.delete p ProductStatus.hidden e h = refl

-- A step keeps the id, and a deleted product as it is.
pub moderate-id :
    (act : ProductAction) (p : Product) (s : ProductStatus)
    → holds_after (λ (q : Product). q.id == p.id) (moderate act p s) ≡ true
unfolding moderate
moderate-id ProductAction.hide p ProductStatus.hidden = ==_refl p.id
moderate-id ProductAction.hide p ProductStatus.active = ==_refl p.id
moderate-id ProductAction.hide p ProductStatus.sold = ==_refl p.id
moderate-id ProductAction.hide p ProductStatus.deleted = refl
moderate-id ProductAction.restore p ProductStatus.hidden = ==_refl p.id
moderate-id ProductAction.restore p ProductStatus.active = refl
moderate-id ProductAction.restore p ProductStatus.sold = refl
moderate-id ProductAction.restore p ProductStatus.deleted = refl
moderate-id ProductAction.delete p ProductStatus.deleted = ==_refl p.id
moderate-id ProductAction.delete p ProductStatus.active = ==_refl p.id
moderate-id ProductAction.delete p ProductStatus.sold = ==_refl p.id
moderate-id ProductAction.delete p ProductStatus.hidden = ==_refl p.id

pub deleted_stays :
    (act : ProductAction) (p q : Product) (changed : Bool)
    → moderate act p ProductStatus.deleted ≡ some (q, changed)
    → q ≡ p
unfolding moderate
deleted_stays ProductAction.hide p q changed e = absurd (cc)
deleted_stays ProductAction.restore p q changed e = absurd (cc)
deleted_stays ProductAction.delete p q changed e = cc

-- What the rows of products are after a call.
pub data Moved (db d : Db) : Type 0 where
  same : d.products ≡ db.products → Moved db d
  moved :
      (act : ProductAction) (p q : Product) (changed : Bool)
      → get_product q.id db ≡ some p
      → moderate act p p.status ≡ some (q, changed)
      → d.products ≡ (put_product q db).products
      → Moved db d

ProductEffect-Moved :
    (actor_id product_id : ℕ) (action : Text) (db d : Db) (o : Mutation)
    → ProductEffect actor_id product_id action db d o
    → Moved db d
ProductEffect-Moved actor_id product_id action db d o (ProductEffect.kept h x y) =
    Moved.same (ap (λ (e : Db). e.products) h)
ProductEffect-Moved actor_id product_id action db d o
      (ProductEffect.settled act p q changed i n known found next_is after reply) =
    Moved.moved act p q changed (rw same_id found) next_is (ap (λ (e : Db). e.products) after)
  where
    own : p.id ≡ product_id
    own =
        (==_iff p.id product_id).0
          (find_sound (λ (r : Product). r.id == product_id) db.products p found)

    same_id : q.id ≡ product_id
    same_id =
        (==_iff q.id p.id).0 (
          subst (λ m. holds_after (λ (r : Product). r.id == p.id) m ≡ true) next_is
            (moderate-id act p p.status))
        ∙ own

-- One call, with what the database does to it.
pub record ProductCall : Type 0 where
  pub actor_id : ℕ
  pub product_id : ℕ
  pub action : Text
  pub signals : List Signal
  pub uuids : ℕ → ℕ
  pub now : ℕ

abbrev pub run_product_call : ProductCall → Db → Result Mutation × Session
run_product_call c db =
    change_product_status c.actor_id c.product_id c.action (open_session db c.signals c.uuids c.now)

-- What is committed after calls, one after another.
abbrev pub after_product_calls : List ProductCall → Db → Db
after_product_calls [] db = db
after_product_calls (c ∷ cs) db = after_product_calls cs (run_product_call c db).1.committed

pub run_product_call-Moved :
    (c : ProductCall) (db : Db) → Moved db (run_product_call c db).1.committed
run_product_call-Moved c db =
    let (r, t) = run_product_call c db in
    Unless-committed (λ d o. ProductEffect c.actor_id c.product_id c.action db d o) (Moved db) r
      t.working t.committed
      ((change_product_status-Ends c.actor_id c.product_id c.action db).at
        (open_session db c.signals c.uuids c.now) refl refl)
      (Moved.same refl) (λ o. ProductEffect-Moved c.actor_id c.product_id c.action db t.committed o)

pub Moved-is_consistent :
    (db d : Db)
    → Moved db d
    → all is_consistent db.products ≡ true
    → all is_consistent d.products ≡ true
Moved-is_consistent db d (Moved.same e) h = rw e h
Moved-is_consistent db d (Moved.moved act p q changed found next_is after) h = rw after (
    all-update is_consistent (λ (r : Product). r.id == q.id) (λ r. q) db.products
      (λ x y.
        subst (λ m. holds_after is_consistent m ≡ true) next_is
          (moderate-is_consistent act p p.status refl
            (all-find is_consistent _ db.products p found h)))
      h)

Moved-deleted :
    (db d : Db) (id : ℕ) (p : Product)
    → Moved db d
    → get_product id db ≡ some p
    → p.status ≡ ProductStatus.deleted
    → get_product id d ≡ some p
Moved-deleted db d id p (Moved.same e) found gone = rw e found
Moved-deleted db d id p (Moved.moved act r q changed at next_is after) found gone =
    rw after (elim (Bool-cases (q.id == id)) [
      | inl own ↦
          let own_id = (==_iff q.id id).0 own in
          let r_is : r ≡ p = cc in
          let q_is : q ≡ r = deleted_stays act r q changed (rw (sym gone, sym r_is) next_is) in
          rw (sym own_id) (
            find-update_same (λ (x : Product). x.id == q.id) (λ x. q) db.products p
              (rw own_id found) (λ y h. ==_refl q.id)
            ∙ ap some (q_is ∙ r_is))
      | inr other ↦
          find-update_others (λ (x : Product). x.id == id) (λ (x : Product). x.id == q.id) (λ x. q)
            db.products (λ x h. grind arith) (λ x h. other)
          ∙ found
    ])

-- Whatever the calls of `change_product_status` and whatever the database does to each, a product
-- that is deleted stays as it is.
pub deleted_final :
    (calls : List ProductCall) (db : Db) (id : ℕ) (p : Product)
    → get_product id db ≡ some p
    → p.status ≡ ProductStatus.deleted
    → get_product id (after_product_calls calls db) ≡ some p
deleted_final [] db id p found gone = found
deleted_final (c ∷ cs) db id p found gone =
    deleted_final cs (run_product_call c db).1.committed id p
      (Moved-deleted db _ id p (run_product_call-Moved c db) found gone) gone
