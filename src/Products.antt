-- ===== src/Products.antt =====
-- app/products/services.py: the mutations of the owner of a product, and app/products/policy.py.
-- The rows are those of the session, and the images those of the directory of Images.
pub mod Public
pub mod Effects
pub mod Creating
pub mod Ownership
pub mod Runs
pub mod Lives
pub mod World
pub mod Remembered
pub mod Access
mod Tests
use whs_secure_coding.Prelude.{
  Bool, List, Option, [], false, find, if◌then◌else◌, none, not, some, true, ℕ, ◌&&◌, ◌++◌, ◌==◌,
  ◌∷◌,
}
use whs_secure_coding.Admin.Products.{put_product}
use whs_secure_coding.Images.{Os, Pillow, StoredFile, remove_product_image}
use whs_secure_coding.Images.Storing.{StoreResult, Upload, store_product_image}
use whs_secure_coding.Schema.{Db, Product, ProductStatus}
use whs_secure_coding.Schema.Constraints.{product_allowed, product_change_allowed}
use whs_secure_coding.Session.{
  Tx, attempt, commit, flush, new_uuid, or_return, pure, query, return_if, rollback, utc_now, ◌>>=◌,
  ◌>>◌,
}
use whs_secure_coding.Text.{Text, codes, text_eq}

pub data MutationResult : Type 0 where
  ok not_found invalid_state database_error : MutationResult

-- `PUBLIC_STATUSES`, which are `OWNER_EDITABLE_STATUSES` too.
abbrev pub is_public : ProductStatus → Bool
is_public ProductStatus.active = true
is_public ProductStatus.sold = true
is_public _ = false

abbrev pub is_deleted : ProductStatus → Bool
is_deleted ProductStatus.deleted = true
is_deleted _ = false

-- `requested_status in OWNER_EDITABLE_STATUSES`
unfoldable pub editable_status_of : Text → Option ProductStatus
editable_status_of s =
    if text_eq s (codes "active")
    then some ProductStatus.active
    else if text_eq s (codes "sold")
    then some ProductStatus.sold
    else none

-- `select(Product).where(Product.id == ..., Product.seller_id == ...)`
abbrev pub find_owned : ℕ → ℕ → Db → Option Product
find_owned id seller_id db =
    find (λ (p : Product). p.id == id && p.seller_id == seller_id) db.products

-- The same, under `Product.status.in_(OWNER_EDITABLE_STATUSES)`.
abbrev pub find_editable : ℕ → ℕ → Db → Option Product
find_editable id seller_id db =
    find (λ (p : Product). p.id == id && p.seller_id == seller_id && is_public p.status) db.products

-- What the form says of a product.
pub record Content : Type 0 where
  pub title : Text
  pub description : Text
  pub price : ℕ

-- The operating system at the storing of an image, and at a removal after it.
pub record Files : Type 0 where
  pub pillow : Pillow
  pub tokens : ℕ → Text
  pub os_store : Os
  pub os_remove : Os

abbrev pub add_product : Product → Db → Db
add_product p db = record db { products = db.products ++ p ∷ [] }

pub record Creation : Type 0 where
  pub result : MutationResult
  pub product_id : Option ℕ
  pub files : List StoredFile

-- `Product(...)`, with `CREATED_STATUS` and the defaults of its columns.
abbrev pub new_product : ℕ → ℕ → Content → Text → ℕ → Product
new_product id seller_id c filename created_at = record {
  id = id;
  seller_id = seller_id;
  title = c.title;
  description = c.description;
  price = c.price;
  image_filename = some filename;
  status = ProductStatus.active;
  moderation_previous_status = none;
  created_at = created_at;
}

-- From `product = Product(...)` to the end.
unfoldable pub insert_product : Os → ℕ → Content → Text → List StoredFile → Tx Creation
insert_product os_remove seller_id c filename files =
    attempt
      (do
        id ← new_uuid
        created_at ← utc_now
        let product = new_product id seller_id c filename created_at
        flush (λ db. product_allowed db product) (add_product product)
        commit
        pure (record { result = MutationResult.ok; product_id = some id; files = files }))
      (λ _. do
        rollback
        pure (record {
          result = MutationResult.database_error;
          product_id = none;
          files = (remove_product_image os_remove (some filename) files).1;
        }))

abbrev pub create_stored : Os → ℕ → Content → StoreResult → List StoredFile → Tx Creation
create_stored os_remove seller_id c (StoreResult.stored filename content_type) files =
    insert_product os_remove seller_id c filename files
create_stored os_remove seller_id c StoreResult.validation_error files =
    pure (record { result = MutationResult.invalid_state; product_id = none; files = files })

unfoldable pub create_product : Files → ℕ → Content → Upload → List StoredFile → Tx Creation
create_product f seller_id c image files =
    let (reply, files') = store_product_image f.pillow f.os_store f.tokens image files in
    create_stored f.os_remove seller_id c reply files'

pub record Update : Type 0 where
  pub result : MutationResult
  pub files : List StoredFile

-- `if new_filename is not None and old_filename is not None: remove_product_image(old_filename)`
abbrev pub remove_replaced : Os → Option Text → Option Text → List StoredFile → List StoredFile
remove_replaced os (some new) (some old) files = (remove_product_image os (some old) files).1
remove_replaced os _ _ files = files

-- `product.image_filename = new_filename`, if there is one.
abbrev pub image_after : Option Text → Option Text → Option Text
image_after none old = old
image_after (some new) old = some new

abbrev pub edited : Content → Option Text → Product → Product
edited c new_filename p = record p {
  title = c.title;
  description = c.description;
  price = c.price;
  image_filename = image_after new_filename p.image_filename;
}

-- From `product.title = title` to the end.
unfoldable pub save_edited : Os → Content → Option Text → Product → List StoredFile → Tx Update
save_edited os_remove c new_filename p files =
    attempt
      (do
        flush (λ db. product_change_allowed db (edited c new_filename p))
            (put_product (edited c new_filename p))
        commit
        pure (record {
          result = MutationResult.ok;
          files = remove_replaced os_remove new_filename p.image_filename files;
        }))
      (λ _. do
        rollback
        pure (record {
          result = MutationResult.database_error;
          files = (remove_product_image os_remove new_filename files).1;
        }))

-- `replacement_image is not None and replacement_image.filename`
abbrev pub has_name : Upload → Bool
has_name upload = elim upload.filename [ none ↦ false | some [] ↦ false | some (c ∷ s) ↦ true ]

abbrev pub replace_stored : Os → Content → Product → StoreResult → List StoredFile → Tx Update
replace_stored os_remove c p (StoreResult.stored filename content_type) files =
    save_edited os_remove c (some filename) p files
replace_stored os_remove c p StoreResult.validation_error files =
    pure (record { result = MutationResult.invalid_state; files = files })

abbrev pub replace_image : Files → Content → Product → Option Upload → List StoredFile → Tx Update
replace_image f c p none files = save_edited f.os_remove c none p files
replace_image f c p (some image) files =
    let (reply, files') = store_product_image f.pillow f.os_store f.tokens image files in
    return_if (not (has_name image)) (save_edited f.os_remove c none p files)
      (replace_stored f.os_remove c p reply files')

unfoldable pub update_product :
    Files → ℕ → ℕ → Content → Option Upload → List StoredFile → Tx Update
update_product f product_id seller_id c replacement_image files = do
  found ← query (find_editable product_id seller_id)
  or_return found (pure (record { result = MutationResult.not_found; files = files }))
      λ p. replace_image f c p replacement_image files

-- `db.session.commit()` after a change of the status, with its `except`.
unfoldable pub save_status : Product → ProductStatus → Tx MutationResult
save_status p status =
    attempt
      (do
        flush (λ db. true) (put_product (record p { status = status }))
        commit
        pure MutationResult.ok)
      (λ _. do rollback; pure MutationResult.database_error)

unfoldable pub change_product_status : ℕ → ℕ → Text → Tx MutationResult
change_product_status product_id seller_id requested_status = do
  found ← query (find_owned product_id seller_id)
  or_return found (pure MutationResult.not_found) λ p.
      return_if (not (is_public p.status)) (pure MutationResult.invalid_state) (
        or_return (editable_status_of requested_status) (pure MutationResult.invalid_state)
          λ status. save_status p status)

unfoldable pub soft_delete_product : ℕ → ℕ → Tx MutationResult
soft_delete_product product_id seller_id = do
  found ← query (find_owned product_id seller_id)
  or_return found (pure MutationResult.not_found) λ p.
      return_if (is_deleted p.status) (pure MutationResult.not_found)
        (save_status p ProductStatus.deleted)
