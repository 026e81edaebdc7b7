-- ===== src/Products/Public.antt =====
-- app/products/services.py: what is shown of products, and who may see an image.
use whs_secure_coding.Prelude.{
  Bool, List, Option, [], count, false, find, if◌then◌else◌, is_none, leb, ltb, map, none, not,
  option_map, select, some, true, ℕ, ◌&&◌, ◌+◌, ◌-◌, ◌==◌, ◌||◌, ◌∷◌,
}
use whs_secure_coding.Listing.{Page, join, limit_offset, meets_query, order_by, pages_of}
use whs_secure_coding.Products.{find_editable, find_owned, is_public}
use whs_secure_coding.Schema.{Db, Product, ProductStatus, User, is_active}
use whs_secure_coding.Text.{Text, codes, text_eq}

pub record PublicProductSummary : Type 0 where
  pub id : ℕ
  pub title : Text
  pub price : ℕ
  pub status : ProductStatus
  pub seller_username : Text

pub record PublicProductDetail : Type 0 where
  pub id : ℕ
  pub title : Text
  pub description : Text
  pub price : ℕ
  pub status : ProductStatus
  pub seller_username : Text
  pub created_at : ℕ

-- The page with its neighbours.
pub record PublicProductPage : Type 0 where
  pub content : Page PublicProductSummary
  pub has_prev : Bool
  pub has_next : Bool
  pub prev_num : Option ℕ
  pub next_num : Option ℕ

-- The keys of `SORT_EXPRESSIONS`.
pub data Sort : Type 0 where
  newest oldest price_low price_high title : Sort

-- A product with its seller.
abbrev pub Offer : Type 0
Offer = Product × User

abbrev pub offers : Db → List Offer
offers db = join (λ (p : Product) (u : User). p.seller_id == u.id) db.products db.users

-- `Product.status.in_(PUBLIC_STATUSES)` and `User.status == "active"`.
abbrev pub is_offered : Offer → Bool
is_offered (p, u) = is_public p.status && is_active u.status

-- By the first columns, and the ids where they are equal.
abbrev by_number : ℕ → ℕ → ℕ → ℕ → Bool
by_number a b i j = ltb a b || (a == b && leb i j)

-- The order of texts, by their code points.
unfoldable pub text_before : Text → Text → Bool
text_before [] [] = false
text_before [] (c ∷ t) = true
text_before (c ∷ s) [] = false
text_before (c ∷ s) (d ∷ t) = let rest = text_before s t in ltb c d || (c == d && rest)

-- `SORT_EXPRESSIONS`
unfoldable pub sort_expression : Sort → Offer → Offer → Bool
sort_expression Sort.newest (p, u) (q, v) = by_number q.created_at p.created_at q.id p.id
sort_expression Sort.oldest (p, u) (q, v) = by_number p.created_at q.created_at p.id q.id
sort_expression Sort.price_low (p, u) (q, v) = by_number p.price q.price p.id q.id
sort_expression Sort.price_high (p, u) (q, v) = by_number q.price p.price q.id p.id
sort_expression Sort.title (p, u) (q, v) =
    text_before p.title q.title || (text_eq p.title q.title && leb p.id q.id)

-- `if status in PUBLIC_STATUSES: filters.append(Product.status == status)`
abbrev meets_status : Text → ProductStatus → Bool
meets_status status ProductStatus.active = not (text_eq status (codes "sold"))
meets_status status ProductStatus.sold = not (text_eq status (codes "active"))
meets_status status _ = not (text_eq status (codes "active")) && not (text_eq status (codes "sold"))

abbrev at_least : Option ℕ → ℕ → Bool
at_least none price = true
at_least (some low) price = leb low price

abbrev at_most : Option ℕ → ℕ → Bool
at_most none price = true
at_most (some high) price = leb price high

-- The arguments of the search.
pub record Search : Type 0 where
  pub query : Option Text
  pub status : Text
  pub min_price : Option ℕ
  pub max_price : Option ℕ
  pub sort : Sort
  pub page : ℕ

unfoldable pub search_filter : Search → Offer → Bool
search_filter s (p, u) =
    is_offered (p, u)
    && meets_status s.status p.status
    && meets_query s.query (p.title ∷ p.description ∷ [])
    && at_least s.min_price p.price
    && at_most s.max_price p.price

abbrev pub public_summary : Offer → PublicProductSummary
public_summary (p, u) = record {
  id = p.id;
  title = p.title;
  price = p.price;
  status = p.status;
  seller_username = u.username;
}

-- `PRODUCTS_PER_PAGE`
abbrev pub products_per_page : ℕ
products_per_page = 20

abbrev search_content : Search → Db → Page PublicProductSummary
search_content s db =
    let total = count (search_filter s) (offers db) in
    record {
      items = map public_summary (
          limit_offset s.page products_per_page
            (order_by (sort_expression s.sort) (select (search_filter s) (offers db))));
      page = s.page;
      per_page = products_per_page;
      total = total;
      pages = pages_of total products_per_page;
    }

unfoldable pub search_public_products : Search → Db → PublicProductPage
search_public_products s db =
    let content = search_content s db in
    record {
      content = content;
      has_prev = ltb 1 s.page;
      has_next = ltb s.page content.pages;
      prev_num = if ltb 1 s.page then some (s.page - 1) else none;
      next_num = if ltb s.page content.pages then some (s.page + 1) else none;
    }

abbrev pub public_detail : Offer → PublicProductDetail
public_detail (p, u) = record {
  id = p.id;
  title = p.title;
  description = p.description;
  price = p.price;
  status = p.status;
  seller_username = u.username;
  created_at = p.created_at;
}

unfoldable pub get_public_product : ℕ → Db → Option PublicProductDetail
get_public_product product_id db =
    option_map public_detail
      (find (λ ((p, u) : Offer). p.id == product_id && is_offered (p, u)) (offers db))

-- `updated_at`, which is only shown, is left out.
pub record OwnerProductView : Type 0 where
  pub id : ℕ
  pub title : Text
  pub description : Text
  pub price : ℕ
  pub status : ProductStatus
  pub created_at : ℕ
  pub has_image : Bool

abbrev owner_view : Product → OwnerProductView
owner_view p = record {
  id = p.id;
  title = p.title;
  description = p.description;
  price = p.price;
  status = p.status;
  created_at = p.created_at;
  has_image = not (is_none p.image_filename);
}

unfoldable pub get_owner_editable_product : ℕ → ℕ → Db → Option OwnerProductView
get_owner_editable_product product_id seller_id db =
    option_map owner_view (find_editable product_id seller_id db)

pub record ImageAccess : Type 0 where
  pub filename : Text
  pub is_public : Bool

abbrev pub image_of : Option Product → Option Text
image_of none = none
image_of (some p) = p.image_filename

abbrev pub product_of : Option Offer → Option Product
product_of none = none
product_of (some (p, u)) = some p

-- What is answered with `public_filename`, the user and `owner_filename`.
abbrev pub access_of : Option Text → Option Text → Option ImageAccess
access_of (some name) owner_filename = some (record { filename = name; is_public = true })
access_of none none = none
access_of none (some name) = some (record { filename = name; is_public = false })

abbrev pub owner_filename_of : ℕ → Option ℕ → Db → Option Text
owner_filename_of product_id none db = none
owner_filename_of product_id (some user_id) db = image_of (find_owned product_id user_id db)

unfoldable pub get_image_access : ℕ → Option ℕ → Db → Option ImageAccess
get_image_access product_id authenticated_user_id db =
    access_of
      (image_of (
        product_of
          (find (λ ((p, u) : Offer). p.id == product_id && is_offered (p, u)) (offers db))))
      (owner_filename_of product_id authenticated_user_id db)
