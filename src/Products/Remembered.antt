-- ===== src/Products/Remembered.antt =====
-- What hidden products remember (`moderation_previous_status`), under all that changes products: the
-- status to which an administrator restores them.
use whs_secure_coding.Prelude.{
  All, List, Option, [], all, all-append, all-find, all-update, and_parts, find_sound, none, refl,
  some, true, ℕ, ◌&&◌, ◌==◌, ◌∷◌, ◌≡◌,
}
use whs_secure_coding.Admin.Machine.{
  Moved-is_consistent, is_consistent, remembered, run_product_call-Moved,
}
use whs_secure_coding.Moderation.Policy.{is_reportable}
use whs_secure_coding.Platform.{Platform}
use whs_secure_coding.Products.{is_public}
use whs_secure_coding.Products.Effects.{OwnerEffect, OwnerStep}
use whs_secure_coding.Products.Lives.{Reported}
use whs_secure_coding.Products.Runs.{Shop, call-OwnerEffect}
use whs_secure_coding.Products.World.{Draws, ShopCall, after_shop_call, after_shop_calls, reported}
use whs_secure_coding.Schema.{Db, Product, ProductStatus, is_active}

-- Of a product that is public and remembers nothing.
public_remembered :
    (s t : ProductStatus) (o : Option ProductStatus)
    → is_public s ≡ true
    → is_public t ≡ true
    → remembered s o ≡ true
    → remembered t o ≡ true
public_remembered ProductStatus.active ProductStatus.active o h k r = r
public_remembered ProductStatus.active ProductStatus.sold none h k r = refl
public_remembered ProductStatus.active ProductStatus.sold (some s) h k r = r
public_remembered ProductStatus.sold ProductStatus.active none h k r = refl
public_remembered ProductStatus.sold ProductStatus.active (some s) h k r = r
public_remembered ProductStatus.sold ProductStatus.sold o h k r = r
public_remembered ProductStatus.hidden t o h k r = absurd (cc)
public_remembered ProductStatus.deleted t o h k r = absurd (cc)
public_remembered ProductStatus.active ProductStatus.hidden o h k r = absurd (cc)
public_remembered ProductStatus.active ProductStatus.deleted o h k r = absurd (cc)
public_remembered ProductStatus.sold ProductStatus.hidden o h k r = absurd (cc)
public_remembered ProductStatus.sold ProductStatus.deleted o h k r = absurd (cc)

reportable_remembered :
    (s : ProductStatus) → is_reportable s ≡ true → remembered ProductStatus.hidden (some s) ≡ true
reportable_remembered ProductStatus.active h = refl
reportable_remembered ProductStatus.sold h = refl
reportable_remembered ProductStatus.hidden h = absurd (cc)
reportable_remembered ProductStatus.deleted h = absurd (cc)

OwnerStep-is_consistent :
    (p q : Product) → OwnerStep p q → is_consistent p ≡ true → is_consistent q ≡ true
unfolding is_consistent
OwnerStep-is_consistent p q (OwnerStep.edit c new_filename shown) h = h
OwnerStep-is_consistent p q (OwnerStep.mark s shown next_shown) h =
    public_remembered p.status s p.moderation_previous_status shown next_shown h
OwnerStep-is_consistent p q (OwnerStep.delete open_to_owner) h = refl

abbrev pub AreConsistent : Db → Type 0
AreConsistent db = all is_consistent db.products ≡ true

OwnerEffect-AreConsistent :
    (seller : ℕ) (db d : Db) → OwnerEffect seller db d → AreConsistent db → AreConsistent d
unfolding is_consistent
OwnerEffect-AreConsistent seller db d (OwnerEffect.same e) h = rw e h
OwnerEffect-AreConsistent seller db d (OwnerEffect.added p allowed is_active none_kept e) h =
    rw e (all-append is_consistent db.products p h (rw (is_active, none_kept) refl))
OwnerEffect-AreConsistent seller db d (OwnerEffect.changed test p q found own step e) h = rw e (
    all-update is_consistent (λ (x : Product). x.id == q.id) (λ x. q) db.products
      (λ x y. OwnerStep-is_consistent p q step (all-find is_consistent test db.products p found h))
      h)

Reported-AreConsistent : (db d : Db) → Reported db d → AreConsistent db → AreConsistent d
unfolding is_consistent
Reported-AreConsistent db d (Reported.same e) h = rw e h
Reported-AreConsistent db d (Reported.restricted_to id p found e) h =
    let (own, can) =
      and_parts (p.id == id) (is_reportable p.status)
        (find_sound (λ (x : Product). x.id == id && is_reportable x.status) db.products p found) in
    rw e (
      all-update is_consistent (λ (x : Product). x.id == p.id)
        (λ (x : Product). record x {
          moderation_previous_status = some p.status;
          status = ProductStatus.hidden;
        })
        db.products (λ x y. reportable_remembered p.status can) h)

after_shop_call-AreConsistent :
    (pl : Platform) (call : ShopCall) (shop : Shop)
    → Draws call
    → AreConsistent shop.db
    → AreConsistent (after_shop_call pl call shop).db
after_shop_call-AreConsistent pl (ShopCall.by_owner call) shop draws h =
    OwnerEffect-AreConsistent call.seller_id shop.db _
      (call-OwnerEffect call call.request shop draws) h
after_shop_call-AreConsistent pl (ShopCall.by_admin call) shop draws h =
    Moved-is_consistent shop.db _ (run_product_call-Moved call shop.db) h
after_shop_call-AreConsistent pl (ShopCall.by_reporter call) shop draws h =
    Reported-AreConsistent shop.db _ (reported pl call shop.db) h

-- Whatever the owners, the administrators and the reporters call, one after another, and whatever the
-- database does to each call: if before them the active and sold products remember no status, and the
-- hidden ones none or `active` or `sold`, then so after them.
pub after_shop_calls-AreConsistent :
    (pl : Platform) (calls : List ShopCall) (shop : Shop)
    → All Draws calls
    → AreConsistent shop.db
    → AreConsistent (after_shop_calls pl calls shop).db
after_shop_calls-AreConsistent pl [] shop draws h = h
after_shop_calls-AreConsistent pl (call ∷ calls) shop (first, draws) h =
    after_shop_calls-AreConsistent pl calls (after_shop_call pl call shop) draws
      (after_shop_call-AreConsistent pl call shop first h)
