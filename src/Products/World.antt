-- ===== src/Products/World.antt =====
-- All that changes products, one call after another: the owners' mutations, `change_product_status` of
-- the administrators, and reports.
use whs_secure_coding.Prelude.{
  All, Bool, List, [], any, ap, false, refl, some, subst, sym, true, ℕ, ◌∷◌, ◌≡◌,
}
use whs_secure_coding.Admin.Machine.{ProductCall, run_product_call, run_product_call-Moved}
use whs_secure_coding.Admin.Products.{get_product}
use whs_secure_coding.Images.Laws.{IsToken}
use whs_secure_coding.Moderation.{ReportOutcome}
use whs_secure_coding.Moderation.Filing.{ReportEffect}
use whs_secure_coding.Moderation.Restriction.{CanReport, create_report_atomic}
use whs_secure_coding.Moderation.Runs.{ReportCall, run_report}
use whs_secure_coding.Platform.{Platform}
use whs_secure_coding.Products.Lives.{
  Alive, Moved-Alive, Moved-IsKeyed, Reported, Reported-Alive, Reported-IsKeyed, Survives,
  Survives-both, after_report-Reported, survived,
}
use whs_secure_coding.Products.Ownership.{IsKeyed, IsLater, OwnerEffect-IsKeyed, OwnerEffect-Kept}
use whs_secure_coding.Products.Runs.{OwnerCall, Shop, after_owner_call, call-OwnerEffect}
use whs_secure_coding.Schema.{Db, Product}
use whs_secure_coding.Session.Ends.{Unless-committed}

pub data ShopCall : Type 0 where
  by_owner : OwnerCall → ShopCall
  by_admin : ProductCall → ShopCall
  by_reporter : ReportCall → ShopCall

abbrev pub after_shop_call : Platform → ShopCall → Shop → Shop
after_shop_call p (ShopCall.by_owner call) shop = after_owner_call call shop
after_shop_call p (ShopCall.by_admin call) shop = record shop {
  db = (run_product_call call shop.db).1.committed;
}
after_shop_call p (ShopCall.by_reporter call) shop = record shop {
  db = (run_report p call shop.db).1.committed;
}

abbrev pub after_shop_calls : Platform → List ShopCall → Shop → Shop
after_shop_calls p [] shop = shop
after_shop_calls p (call ∷ calls) shop = after_shop_calls p calls (after_shop_call p call shop)

abbrev pub is_by_admin : ShopCall → Bool
is_by_admin (ShopCall.by_admin call) = true
is_by_admin _ = false

-- The names that are drawn for images have 32 hexadecimal digits.
abbrev pub Draws : ShopCall → Type 0
Draws (ShopCall.by_owner call) = (n : ℕ) → IsToken (call.system.tokens n)
Draws _ = Unit

-- What a call leaves of the rows, and of the product of an id.
abbrev Stays : Bool → ℕ → Product → Db → Type 0
Stays administered id p d = IsKeyed d × Alive administered id p d

IsLater-Survives : (own a : Bool) (p q : Product) → IsLater own p q → Survives a p q
IsLater-Survives own a p q h = record { deleted = h.deleted; hidden = λ x. h.hidden }

pub reported :
    (p : Platform) (call : ReportCall) (db : Db) → Reported db (run_report p call db).1.committed
reported p call db =
    let (r, t) = run_report p call db in
    Unless-committed
      (λ d o. ReportEffect call.reporter_id (CanReport call.reporter_id call.subject db) db d o)
      (Reported db) r t.working t.committed
      (create_report_atomic p call.reporter_id call.subject call.reason db call.signals call.uuids
        call.now)
      (Reported.same refl) (λ o. by_effect t.committed o)
  where
    by_effect :
        (d : Db) (o : ReportOutcome)
        → ReportEffect call.reporter_id (CanReport call.reporter_id call.subject db) db d o
        → Reported db d
    by_effect d o (ReportEffect.kept same x y z) = Reported.same (ap (λ (e : Db). e.products) same)
    by_effect d o (ReportEffect.reported t f can is_filed after reply) =
        subst (Reported db) (sym after)
          (after_report-Reported call.reporter_id call.subject db t f can)

after_shop_call-Stays :
    (pl : Platform) (call : ShopCall) (shop : Shop) (id : ℕ) (p : Product)
    → Draws call
    → IsKeyed shop.db
    → get_product id shop.db ≡ some p
    → Stays (is_by_admin call) id p (after_shop_call pl call shop).db
after_shop_call-Stays pl (ShopCall.by_owner call) shop id p draws keyed found =
    let effect = call-OwnerEffect call call.request shop draws in
    let (q, q_found, later) = OwnerEffect-Kept call.seller_id shop.db _ id p keyed found effect in
    (
      OwnerEffect-IsKeyed call.seller_id shop.db _ effect keyed,
      (q, q_found, IsLater-Survives _ false p q later),
    )
after_shop_call-Stays pl (ShopCall.by_admin call) shop id p draws keyed found =
    let moved = run_product_call-Moved call shop.db in
    (Moved-IsKeyed shop.db _ moved keyed, Moved-Alive shop.db _ id p found moved)
after_shop_call-Stays pl (ShopCall.by_reporter call) shop id p draws keyed found =
    let r = reported pl call shop.db in
    (Reported-IsKeyed shop.db _ r keyed, Reported-Alive shop.db _ id p keyed found r)

-- Whatever the owners, the administrators and the reporters call, one after another, and whatever the
-- database does to each call, where ids are keys: a product is never lost; a deleted one stays as it is; and one that
-- is hidden or deleted does not become public without a call of an administrator.
pub after_shop_calls-Alive :
    (pl : Platform) (calls : List ShopCall) (shop : Shop) (id : ℕ) (p : Product)
    → All Draws calls
    → IsKeyed shop.db
    → get_product id shop.db ≡ some p
    → Alive (any is_by_admin calls) id p (after_shop_calls pl calls shop).db
unfolding any
after_shop_calls-Alive pl [] shop id p draws keyed found = (p, found, survived false p)
after_shop_calls-Alive pl (call ∷ calls) shop id p draws keyed found =
    let (still_keyed, alive) = after_shop_call-Stays pl call shop id p draws.0 keyed found in
    let (q, q_found, q_survives) = alive in
    let (r, r_found, r_survives) =
      after_shop_calls-Alive pl calls (after_shop_call pl call shop) id q draws.1 still_keyed
        q_found in
    (
      r,
      r_found,
      Survives-both (is_by_admin call) (any is_by_admin calls) p q r q_survives r_survives,
    )
