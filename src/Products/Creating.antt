-- ===== src/Products/Creating.antt =====
-- How `create_product` of app/products/services.py ends, with the image that it stores.
-- The row that is added.
use whs_secure_coding.Prelude.{List, inl, inr, none, refl, some, true, ℕ, ◌≡◌, ◌⊎◌}
use whs_secure_coding.Images.{StoredFile}
use whs_secure_coding.Images.Laws.{IsToken}
use whs_secure_coding.Images.Removed.{Removed, remove-stored}
use whs_secure_coding.Images.Stored.{StoreEffect, store_product_image-StoreEffect}
use whs_secure_coding.Images.Storing.{StoreResult, Upload}
use whs_secure_coding.Products.{
  Content, Creation, Files, MutationResult, add_product, create_product, create_stored,
  insert_product, new_product,
}
use whs_secure_coding.Schema.{Db, Product, ProductStatus}
use whs_secure_coding.Schema.Constraints.{product_allowed}
use whs_secure_coding.Session.{Signal, open_session}
use whs_secure_coding.Session.Ends.{
  Ends, Ends-attempt, Ends-commit, Ends-flush, Ends-new_uuid, Ends-pure, Ends-rollback,
  Ends-utc_now, Post, Unless,
}
use whs_secure_coding.Text.{Text}

pub record IsOffer (seller_id : ℕ) (c : Content) (filename : Text) (db : Db) (p : Product)
    : Type 0 where
  pub allowed : product_allowed db p ≡ true
  pub sold_by : p.seller_id ≡ seller_id
  pub title : p.title ≡ c.title
  pub description : p.description ≡ c.description
  pub price : p.price ≡ c.price
  pub image : p.image_filename ≡ some filename
  pub status : p.status ≡ ProductStatus.active
  pub nothing_remembered : p.moderation_previous_status ≡ none

-- The image is refused, and no row is added; or the row is added and the image is there; or an error
-- is answered, and the directory is as before unless the operating system does not remove the image,
-- where the commit that raised may have added the row.
pub data CreateEffect (f : Files) (seller_id : ℕ) (c : Content) (image : Upload)
    (files : List StoredFile) (db d : Db) (o : Creation) : Type 0 where
  refused :
      StoreEffect f.pillow image files StoreResult.validation_error o.files
      → o.result ≡ MutationResult.invalid_state
      → d ≡ db
      → CreateEffect f seller_id c image files db d o
  created :
      (name type : Text) (p : Product)
      → StoreEffect f.pillow image files (StoreResult.stored name type) o.files
      → IsOffer seller_id c name db p
      → o.result ≡ MutationResult.ok
      → o.product_id ≡ some p.id
      → d ≡ add_product p db
      → CreateEffect f seller_id c image files db d o
  undone :
      (name type : Text) (stored_files : List StoredFile)
      → StoreEffect f.pillow image files (StoreResult.stored name type) stored_files
      → Removed f.os_remove files stored_files o.files
      → o.result ≡ MutationResult.database_error
      → (d ≡ db) ⊎ ((p : Product) × IsOffer seller_id c name db p × (d ≡ add_product p db))
      → CreateEffect f seller_id c image files db d o

module _ (f : Files) (seller_id : ℕ) (c : Content) (image : Upload) (files : List StoredFile)
    (db : Db) where
  abbrev pub CreatePost : Post Creation
  CreatePost = Unless db (CreateEffect f seller_id c image files db)

  insert_product-Ends :
      (name type : Text) (stored_files : List StoredFile)
      → StoreEffect f.pillow image files (StoreResult.stored name type) stored_files
      → Ends db db (insert_product f.os_remove seller_id c name stored_files) CreatePost
  unfolding insert_product
  insert_product-Ends name type stored_files effect = Ends-attempt _ (
      Ends-new_uuid _ λ id. Ends-utc_now _ λ now.
        Ends-flush _ _ _
          (λ e. Ends-rollback _ (
            Ends-pure _
              (undone name type _ effect (remove-stored _ _ _ _ _ _ _ effect) refl (inl refl))))
          λ allowed.
            let offer : IsOffer seller_id c name db (new_product id seller_id c name now) = record {
              allowed = allowed;
              sold_by = refl;
              title = refl;
              description = refl;
              price = refl;
              image = refl;
              status = refl;
              nothing_remembered = refl;
            } in
            Ends-commit _
              (λ e. Ends-rollback _ (
                Ends-pure _
                  (undone name type _ effect (remove-stored _ _ _ _ _ _ _ effect) refl (inl refl))))
              (Ends-rollback _ (
                Ends-pure _ (
                  undone name type _ effect (remove-stored _ _ _ _ _ _ _ effect) refl
                    (inr (_, offer, refl)))))
              (Ends-pure _ (created name type _ effect offer refl refl refl)))

  create_stored-Ends :
      (r : StoreResult) (fs : List StoredFile)
      → StoreEffect f.pillow image files r fs
      → Ends db db (create_stored f.os_remove seller_id c r fs) CreatePost
  create_stored-Ends (StoreResult.stored name type) fs effect =
      insert_product-Ends name type fs effect
  create_stored-Ends StoreResult.validation_error fs effect = Ends-pure _ (refused effect refl refl)

  pub create_product-Ends :
      ((n : ℕ) → IsToken (f.tokens n))
      → Ends db db (create_product f seller_id c image files) CreatePost
  unfolding create_product
  create_product-Ends good =
      create_stored-Ends _ _
        (store_product_image-StoreEffect f.pillow f.os_store f.tokens image files good)

-- Whatever the database and the operating system do, with names of 32 hexadecimal digits, a call of
-- `create_product` that does not raise ends in one of three ways. INVALID_STATE: the image is not
-- valid or cannot be stored, and no row is added. OK: the row is added, with the image in the
-- directory under a new name. DATABASE_ERROR: the directory is as before the call, or has the image
-- still where the operating system does not remove it; and no row is added, or it is where the commit
-- took effect and raised. So a row without its image is possible after such a commit only, and an
-- image without a row where it cannot be removed.
pub create_product_ends :
    (f : Files) (seller_id : ℕ) (c : Content) (image : Upload) (files : List StoredFile) (db : Db)
    (signals : List Signal) (uuids : ℕ → ℕ) (now : ℕ)
    → ((n : ℕ) → IsToken (f.tokens n))
    → let (r, t) = create_product f seller_id c image files (open_session db signals uuids now) in
      Unless db (CreateEffect f seller_id c image files db) r t.working t.committed
create_product_ends f seller_id c image files db signals uuids now good =
    (create_product-Ends f seller_id c image files db good).at (open_session db signals uuids now)
      refl refl
