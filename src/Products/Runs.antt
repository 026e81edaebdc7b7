-- ===== src/Products/Runs.antt =====
-- Calls of the mutations of app/products/services.py by any users, one after another.
use whs_secure_coding.Prelude.{
  All, Bool, List, Option, [], any, false, inl, inr, refl, some, subst, ℕ, ◌==◌, ◌∷◌, ◌≡◌,
}
use whs_secure_coding.Admin.Products.{get_product}
use whs_secure_coding.Images.{StoredFile}
use whs_secure_coding.Images.Laws.{IsToken}
use whs_secure_coding.Images.Storing.{Upload}
use whs_secure_coding.Products.{
  Content, Creation, Files, Update, create_product, soft_delete_product, update_product,
}
use whs_secure_coding.Products.Creating.{CreateEffect, create_product-Ends}
use whs_secure_coding.Products.Effects.{OwnerEffect, soft_delete_product-Ends, update_product-Ends}
use whs_secure_coding.Products.Ownership.{
  IsKeyed, IsLater, IsLater-IsLater, Kept, OwnerEffect-IsKeyed, OwnerEffect-Kept, unchanged,
}
use whs_secure_coding.Schema.{Db, Product}
use whs_secure_coding.Session.{Result, Session, Signal, open_session}
use whs_secure_coding.Session.Ends.{Unless-committed}
use whs_secure_coding.Text.{Text}
use whs_secure_coding.Products.Effects.{change_product_status-Ends}
use whs_secure_coding.Products.{change_product_status}

pub data OwnerRequest : Type 0 where
  create : Content → Upload → OwnerRequest
  update_to : ℕ → Content → Option Upload → OwnerRequest
  change_to : ℕ → Text → OwnerRequest
  soft_delete : ℕ → OwnerRequest

-- A request of an authenticated user, with what the database and the operating system do to it.
pub record OwnerCall : Type 0 where
  pub seller_id : ℕ
  pub request : OwnerRequest
  pub system : Files
  pub signals : List Signal
  pub uuids : ℕ → ℕ
  pub now : ℕ

-- The rows that are committed, and the directory of the images.
pub record Shop : Type 0 where
  pub db : Db
  pub files : List StoredFile

abbrev pub files_after :
    {A : Type 0} → (A → List StoredFile) → Result A → List StoredFile → List StoredFile
files_after f (Result.ok a) files = f a
files_after f (Result.raised e) files = files

abbrev pub run_request : OwnerRequest → OwnerCall → Session → List StoredFile → Shop
run_request (OwnerRequest.create c image) call s files =
    let (r, t) = create_product call.system call.seller_id c image files s in
    record { db = t.committed; files = files_after (λ (o : Creation). o.files) r files }
run_request (OwnerRequest.update_to id c image) call s files =
    let (r, t) = update_product call.system id call.seller_id c image files s in
    record { db = t.committed; files = files_after (λ (o : Update). o.files) r files }
run_request (OwnerRequest.change_to id status) call s files = record {
  db = (change_product_status id call.seller_id status s).1.committed;
  files = files;
}
run_request (OwnerRequest.soft_delete id) call s files = record {
  db = (soft_delete_product id call.seller_id s).1.committed;
  files = files;
}

abbrev pub after_owner_call : OwnerCall → Shop → Shop
after_owner_call call shop =
    run_request call.request call (open_session shop.db call.signals call.uuids call.now) shop.files

abbrev pub after_owner_calls : List OwnerCall → Shop → Shop
after_owner_calls [] shop = shop
after_owner_calls (call ∷ calls) shop = after_owner_calls calls (after_owner_call call shop)

-- A call is of the user.
abbrev pub is_called_by : ℕ → List OwnerCall → Bool
is_called_by seller calls = any (λ (call : OwnerCall). call.seller_id == seller) calls

CreateEffect-OwnerEffect :
    (f : Files) (seller : ℕ) (c : Content) (image : Upload) (files : List StoredFile) (db d : Db)
    (o : Creation)
    → CreateEffect f seller c image files db d o
    → OwnerEffect seller db d
CreateEffect-OwnerEffect f seller c image files db d o (CreateEffect.refused x y e) =
    OwnerEffect.same e
CreateEffect-OwnerEffect f seller c image files db d o (CreateEffect.created n t p x offer y z e) =
    OwnerEffect.added p offer.allowed offer.status offer.nothing_remembered e
CreateEffect-OwnerEffect f seller c image files db d o (CreateEffect.undone n t fs x y z (inl e)) =
    OwnerEffect.same e
CreateEffect-OwnerEffect f seller c image files db d o
      (CreateEffect.undone n t fs x y z (inr (p, offer, e))) =
    OwnerEffect.added p offer.allowed offer.status offer.nothing_remembered e

pub call-OwnerEffect :
    (call : OwnerCall) (request : OwnerRequest) (shop : Shop)
    → ((n : ℕ) → IsToken (call.system.tokens n))
    → OwnerEffect call.seller_id shop.db
        (run_request request call
          (open_session shop.db call.signals call.uuids call.now)
          shop.files).db
call-OwnerEffect call (OwnerRequest.create c image) shop good =
    let s = open_session shop.db call.signals call.uuids call.now in
    let (r, t) = create_product call.system call.seller_id c image shop.files s in
    Unless-committed (CreateEffect call.system call.seller_id c image shop.files shop.db)
      (OwnerEffect call.seller_id shop.db) r t.working t.committed
      ((create_product-Ends call.system call.seller_id c image shop.files shop.db good).at s refl
        refl)
      (OwnerEffect.same refl)
      (λ o.
        CreateEffect-OwnerEffect call.system call.seller_id c image shop.files shop.db t.committed
          o)
call-OwnerEffect call (OwnerRequest.update_to id c image) shop good =
    (update_product-Ends call.seller_id shop.db call.system id c image shop.files).at
      (open_session shop.db call.signals call.uuids call.now) refl refl
call-OwnerEffect call (OwnerRequest.change_to id status) shop good =
    (change_product_status-Ends call.seller_id shop.db id status).at
      (open_session shop.db call.signals call.uuids call.now) refl refl
call-OwnerEffect call (OwnerRequest.soft_delete id) shop good =
    (soft_delete_product-Ends call.seller_id shop.db id).at
      (open_session shop.db call.signals call.uuids call.now) refl refl

-- The names that are drawn have 32 hexadecimal digits.
abbrev pub HaveTokens : List OwnerCall → Type 0
HaveTokens calls = All (λ (call : OwnerCall). (n : ℕ) → IsToken (call.system.tokens n)) calls

-- Over any calls of the owners' mutations, one after another, and whatever the database does to each, where ids are keys:
-- a product stays there, with its seller and with what moderation remembers of it; one that is hidden
-- or deleted does not become public, and a deleted one stays as it is; and without a call of its
-- seller it stays as it is.
pub after_owner_calls-Kept :
    (calls : List OwnerCall) (shop : Shop) (id : ℕ) (p : Product)
    → IsKeyed shop.db
    → HaveTokens calls
    → get_product id shop.db ≡ some p
    → Kept (is_called_by p.seller_id calls) id p (after_owner_calls calls shop).db
unfolding any
after_owner_calls-Kept [] shop id p keyed good found = (p, found, unchanged false p)
after_owner_calls-Kept (call ∷ calls) shop id p keyed good found =
    let effect = call-OwnerEffect call call.request shop good.0 in
    let d = (after_owner_call call shop).db in
    let (q, q_found, q_later) = OwnerEffect-Kept call.seller_id shop.db d id p keyed found effect in
    let (r, r_found, r_later) =
      after_owner_calls-Kept calls (after_owner_call call shop) id q
        (OwnerEffect-IsKeyed call.seller_id shop.db d effect keyed) good.1 q_found in
    (
      r,
      r_found,
      IsLater-IsLater (call.seller_id == p.seller_id) (is_called_by p.seller_id calls) p q r q_later
          (subst (λ s. IsLater (is_called_by s calls) q r) q_later.seller r_later),
    )
