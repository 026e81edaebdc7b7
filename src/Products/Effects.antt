-- ===== src/Products/Effects.antt =====
-- How the mutations of app/products/services.py end, whatever the database does.
use whs_secure_coding.Prelude.{
  Bool, List, Option, and_parts, arith, false, find, find_sound, none, not-false, refl, some, true,
  ℕ, ◌&&◌, ◌==◌, ◌≡◌,
}
use whs_secure_coding.Admin.Products.{put_product}
use whs_secure_coding.Images.{Os, StoredFile}
use whs_secure_coding.Images.Storing.{StoreResult, Upload}
use whs_secure_coding.Products.{
  Content, Files, add_product, editable_status_of, edited, find_owned, is_deleted, is_public,
  replace_image, replace_stored, save_edited, save_status, soft_delete_product, update_product,
}
use whs_secure_coding.Schema.{Db, Product, ProductStatus}
use whs_secure_coding.Schema.Constraints.{product_allowed}
use whs_secure_coding.Session.Ends.{
  Ends, Ends-attempt, Ends-commit, Ends-flush, Ends-or_return, Ends-pure, Ends-query,
  Ends-return_if, Ends-rollback, Post,
}
use whs_secure_coding.Text.{Text}
use whs_secure_coding.Products.{change_product_status}

-- What an owner may make of a product.
pub data OwnerStep (p : Product) : Product → Type 0 where
  edit :
      (c : Content) (new_filename : Option Text)
      → is_public p.status ≡ true
      → OwnerStep p (edited c new_filename p)
  mark :
      (s : ProductStatus)
      → is_public p.status ≡ true
      → is_public s ≡ true
      → OwnerStep p (record p { status = s })
  delete : is_deleted p.status ≡ false → OwnerStep p (record p { status = ProductStatus.deleted })

-- The rows are as before; or the owner's product takes a step; or a product of the owner is added.
pub data OwnerEffect (seller_id : ℕ) (db d : Db) : Type 0 where
  same : d ≡ db → OwnerEffect seller_id db d
  changed :
      (test : Product → Bool) (p q : Product)
      → find test db.products ≡ some p
      → p.seller_id ≡ seller_id
      → OwnerStep p q
      → d ≡ put_product q db
      → OwnerEffect seller_id db d
  added :
      (p : Product)
      → product_allowed db p ≡ true
      → p.status ≡ ProductStatus.active
      → p.moderation_previous_status ≡ none
      → d ≡ add_product p db
      → OwnerEffect seller_id db d

abbrev pub OwnerPost : {A : Type 0} → ℕ → Db → Post A
OwnerPost seller_id db r w d = OwnerEffect seller_id db d

editable_is_public :
    (s : Text) (status : ProductStatus)
    → editable_status_of s ≡ some status
    → is_public status ≡ true
unfolding editable_status_of
editable_is_public s ProductStatus.active e = refl
editable_is_public s ProductStatus.sold e = refl
editable_is_public s ProductStatus.hidden e = ground arith
editable_is_public s ProductStatus.deleted e = ground arith

module _ (seller_id : ℕ) (db : Db) where
  save_status-Ends :
      (test : Product → Bool) (p : Product) (s : ProductStatus)
      → find test db.products ≡ some p
      → p.seller_id ≡ seller_id
      → OwnerStep p (record p { status = s })
      → Ends db db (save_status p s) (OwnerPost seller_id db)
  unfolding save_status
  save_status-Ends test p s found own step = Ends-attempt _ (
      Ends-flush _ _ _ (λ e. Ends-rollback _ (Ends-pure _ (same refl)))
        λ allowed.
          Ends-commit _ (λ e. Ends-rollback _ (Ends-pure _ (same refl)))
            (Ends-rollback _ (Ends-pure _ (changed test p _ found own step refl)))
            (Ends-pure _ (changed test p _ found own step refl)))

  save_edited-Ends :
      (os : Os) (c : Content) (new_filename : Option Text) (test : Product → Bool) (p : Product)
      (files : List StoredFile)
      → find test db.products ≡ some p
      → p.seller_id ≡ seller_id
      → is_public p.status ≡ true
      → Ends db db (save_edited os c new_filename p files) (OwnerPost seller_id db)
  unfolding save_edited
  save_edited-Ends os c new_filename test p files found own shown = Ends-attempt _ (
      Ends-flush _ _ _ (λ e. Ends-rollback _ (Ends-pure _ (same refl)))
        λ allowed.
          Ends-commit _ (λ e. Ends-rollback _ (Ends-pure _ (same refl)))
            (Ends-rollback _
              (Ends-pure _ (changed test p _ found own (edit c new_filename shown) refl)))
            (Ends-pure _ (changed test p _ found own (edit c new_filename shown) refl)))

  pub update_product-Ends :
      (f : Files) (product_id : ℕ) (c : Content) (image : Option Upload) (files : List StoredFile)
      → Ends db db (update_product f product_id seller_id c image files) (OwnerPost seller_id db)
  unfolding update_product
  update_product-Ends f product_id c image files =
      Ends-query _ _ (λ e. same refl)
        (Ends-or_return _ (λ missing. Ends-pure _ (same refl)) λ p found. replaced p image found)
    where
      test : Product → Bool
      test p = p.id == product_id && p.seller_id == seller_id && is_public p.status

      own : (p : Product) → find test db.products ≡ some p → p.seller_id ≡ seller_id
      own p found = let h = find_sound test db.products p found in ground arith

      open_to_owner : (p : Product) → find test db.products ≡ some p → is_public p.status ≡ true
      open_to_owner p found =
          (and_parts (p.id == product_id && p.seller_id == seller_id) (is_public p.status)
            (find_sound test db.products p found)).1

      stored_image :
          (p : Product) (r : StoreResult) (fs : List StoredFile)
          → find test db.products ≡ some p
          → Ends db db (replace_stored f.os_remove c p r fs) (OwnerPost seller_id db)
      stored_image p (StoreResult.stored name type) fs found =
          save_edited-Ends f.os_remove c (some name) test p fs found (own p found)
            (open_to_owner p found)
      stored_image p StoreResult.validation_error fs found = Ends-pure _ (same refl)

      replaced :
          (p : Product) (o : Option Upload)
          → find test db.products ≡ some p
          → Ends db db (replace_image f c p o files) (OwnerPost seller_id db)
      replaced p none found =
          save_edited-Ends f.os_remove c none test p files found (own p found)
            (open_to_owner p found)
      replaced p (some upload) found =
          Ends-return_if _
            (λ unnamed.
              save_edited-Ends f.os_remove c none test p files found (own p found)
                (open_to_owner p found))
            (λ named. stored_image p _ _ found)

  owner_of :
      (product_id : ℕ) (p : Product)
      → find_owned product_id seller_id db ≡ some p
      → p.seller_id ≡ seller_id
  owner_of product_id p found =
      let h =
        find_sound (λ (q : Product). q.id == product_id && q.seller_id == seller_id) db.products p
          found in
      ground arith

  pub change_product_status-Ends :
      (product_id : ℕ) (status : Text)
      → Ends db db (change_product_status product_id seller_id status) (OwnerPost seller_id db)
  unfolding change_product_status
  change_product_status-Ends product_id status =
      Ends-query _ _ (λ e. same refl)
        (Ends-or_return _ (λ missing. Ends-pure _ (same refl))
          λ p found.
            Ends-return_if _ (λ closed. Ends-pure _ (same refl))
              λ shown.
                Ends-or_return _ (λ bad. Ends-pure _ (same refl))
                  λ s named.
                    save_status-Ends _ p s found (owner_of product_id p found)
                      (mark s (not-false _ shown) (editable_is_public status s named)))

  pub soft_delete_product-Ends :
      (product_id : ℕ)
      → Ends db db (soft_delete_product product_id seller_id) (OwnerPost seller_id db)
  unfolding soft_delete_product
  soft_delete_product-Ends product_id =
      Ends-query _ _ (λ e. same refl)
        (Ends-or_return _ (λ missing. Ends-pure _ (same refl))
          λ p found.
            Ends-return_if _ (λ gone. Ends-pure _ (same refl))
              λ there. save_status-Ends _ p _ found (owner_of product_id p found) (delete there))
