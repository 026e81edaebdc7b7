-- ===== src/Products/Access.antt =====
-- What the public and the owners see of products.
-- What is listed is of a public product of an active seller.
use whs_secure_coding.Prelude.{
  ==_iff, All, Memᴰ, Option, and_parts, ap, arith, false, find, find_sound, inl, inr, none,
  option_map, refl, some, some_injective, subst, sym, true, ℕ, ◌&&◌, ◌==◌, ◌≡◌, ◌⊎◌,
}
use whs_secure_coding.Listing.Members.{Memᴰ-join, find-Memᴰ, page_members}
use whs_secure_coding.Products.{find_owned, is_public}
use whs_secure_coding.Products.Public.{
  ImageAccess, Offer, PublicProductDetail, PublicProductSummary, access_of, get_image_access,
  get_public_product, image_of, is_offered, offers, owner_filename_of, product_of,
  products_per_page, public_detail, public_summary, search_filter, search_public_products,
  sort_expression,
}
use whs_secure_coding.Schema.{Db, Product, User, is_active}
use whs_secure_coding.Text.{Text}
use whs_secure_coding.Products.Public.{Search}

-- A product of the database that is public, with the row of its seller, who is active.
pub record IsOffer (db : Db) (x : Offer) : Type 0 where
  pub product : Memᴰ x.0 db.products
  pub seller : Memᴰ x.1 db.users
  pub sold_by : x.0.seller_id ≡ x.1.id
  pub public : is_public x.0.status ≡ true
  pub active : is_active x.1.status ≡ true

pub record IsOffered (db : Db) (v : PublicProductSummary) : Type 0 where
  pub offer : Offer
  pub offered : IsOffer db offer
  pub view : v ≡ public_summary offer

pub record IsPage (product_id : ℕ) (db : Db) (v : PublicProductDetail) : Type 0 where
  pub offer : Offer
  pub offered : IsOffer db offer
  pub of_id : offer.0.id ≡ product_id
  pub view : v ≡ public_detail offer

-- A product of the database with the id holds the image; it is public and its seller is active, or
-- the user sells it.
pub record MayAccess (product_id : ℕ) (user : Option ℕ) (db : Db) (a : ImageAccess) : Type 0 where
  pub product : Product
  pub stored : Memᴰ product db.products
  pub of_id : product.id ≡ product_id
  pub holds_image : product.image_filename ≡ some a.filename
  pub may_see :
      ((a.is_public ≡ true) × ((u : User) × IsOffer db (product, u)))
      ⊎ ((a.is_public ≡ false) × (user ≡ some product.seller_id))

Memᴰ-IsOffer : (db : Db) (x : Offer) → Memᴰ x (offers db) → is_offered x ≡ true → IsOffer db x
Memᴰ-IsOffer db (p, u) m offered =
    let (product, seller, by) = Memᴰ-join _ db.products db.users p u m in
    let (public, active) = and_parts (is_public p.status) _ offered in
    record {
      product = product;
      seller = seller;
      sold_by = (==_iff p.seller_id u.id).0 by;
      public = public;
      active = active;
    }

-- The offer of an id that is found.
found-IsOffer :
    (product_id : ℕ) (db : Db) (x : Offer)
    → find (λ ((p, u) : Offer). p.id == product_id && is_offered (p, u)) (offers db) ≡ some x
    → (x.0.id ≡ product_id) × IsOffer db x
found-IsOffer product_id db (p, u) found =
    let (same, offered) =
      and_parts (p.id == product_id) _ (find_sound _ (offers db) (p, u) found) in
    (
      (==_iff p.id product_id).0 same,
      Memᴰ-IsOffer db (p, u) (find-Memᴰ _ (offers db) _ found) offered,
    )

module _ (product_id : ℕ) (db : Db) where
  public_access :
      (user : Option ℕ) (name : Text) (x : Offer)
      → find (λ ((p, u) : Offer). p.id == product_id && is_offered (p, u)) (offers db) ≡ some x
      → x.0.image_filename ≡ some name
      → MayAccess product_id user db (record { filename = name; is_public = true })
  public_access user name (p, u) found image =
      let (same, offered) = found-IsOffer product_id db (p, u) found in
      record {
        product = p;
        stored = offered.product;
        of_id = same;
        holds_image = image;
        may_see = inl (refl, (u, offered));
      }

  owner_access :
      (user_id : ℕ) (name : Text) (p : Product)
      → find_owned product_id user_id db ≡ some p
      → p.image_filename ≡ some name
      → MayAccess product_id (some user_id) db (record { filename = name; is_public = false })
  owner_access user_id name p found image =
      let h =
        find_sound (λ (q : Product). q.id == product_id && q.seller_id == user_id) db.products p
          found in
      let owner : p.seller_id ≡ user_id = ground arith in
      record {
        product = p;
        stored = find-Memᴰ _ db.products p found;
        of_id = ground arith;
        holds_image = image;
        may_see = inr (refl, ap some (sym owner));
      }

  image_access :
      (user : Option ℕ) (a : ImageAccess)
      → get_image_access product_id user db ≡ some a
      → MayAccess product_id user db a
  unfolding get_image_access
  image_access user a h =
      by_public user
        (find (λ ((p, u) : Offer). p.id == product_id && is_offered (p, u)) (offers db)) refl h
    where
      by_owner :
          (user_id : ℕ) (o : Option Product)
          → find_owned product_id user_id db ≡ o
          → access_of none (image_of o) ≡ some a
          → MayAccess product_id (some user_id) db a
      by_owner user_id none found e = absurd (cc)
      by_owner user_id (some p) found e = with_image p.image_filename refl e
        where
          with_image :
              (n : Option Text)
              → p.image_filename ≡ n
              → access_of none n ≡ some a
              → MayAccess product_id (some user_id) db a
          with_image none image x = absurd (cc)
          with_image (some name) image x =
              subst (MayAccess product_id (some user_id) db) (some_injective x)
                (owner_access user_id name p found image)

      not_public :
          (u : Option ℕ)
          → access_of none (owner_filename_of product_id u db) ≡ some a
          → MayAccess product_id u db a
      not_public none e = absurd (cc)
      not_public (some user_id) e = by_owner user_id (find_owned product_id user_id db) refl e

      by_public :
          (u : Option ℕ) (o : Option Offer)
          → find (λ ((p, v) : Offer). p.id == product_id && is_offered (p, v)) (offers db) ≡ o
          → access_of (image_of (product_of o)) (owner_filename_of product_id u db) ≡ some a
          → MayAccess product_id u db a
      by_public u none found e = not_public u e
      by_public u (some (p, v)) found e = with_image p.image_filename refl e
        where
          with_image :
              (n : Option Text)
              → p.image_filename ≡ n
              → access_of n (owner_filename_of product_id u db) ≡ some a
              → MayAccess product_id u db a
          with_image none image x = not_public u x
          with_image (some name) image x =
              subst (MayAccess product_id u db) (some_injective x)
                (public_access u name (p, v) found image)

filter_offered : (s : Search) (x : Offer) → search_filter s x ≡ true → is_offered x ≡ true
unfolding search_filter
filter_offered s (p, u) h = ground arith

-- Whatever is searched for, the search and the page of a product show products of the database only
-- that are public and whose seller is active; and the file name of the image of a product is given
-- as public for such a product, and otherwise to the user who sells it.
pub products_private :
    (s : Search) (product_id : ℕ) (user : Option ℕ) (db : Db)
    → All (IsOffered db) (search_public_products s db).content.items
      × ((v : PublicProductDetail)
          → get_public_product product_id db ≡ some v
          → IsPage product_id db v)
      × ((a : ImageAccess)
          → get_image_access product_id user db ≡ some a
          → MayAccess product_id user db a)
unfolding search_public_products get_public_product
products_private s product_id user db = (
  page_members (IsOffered db) public_summary (sort_expression s.sort) (search_filter s) s.page
      products_per_page (offers db)
      (λ x m taken. record {
        offer = x;
        offered = Memᴰ-IsOffer db x m (filter_offered s x taken);
        view = refl;
      }),
  λ v h. detail v _ refl h,
  image_access product_id db user,
)
  where
    detail :
        (v : PublicProductDetail) (o : Option Offer)
        → find (λ ((p, u) : Offer). p.id == product_id && is_offered (p, u)) (offers db) ≡ o
        → option_map public_detail o ≡ some v
        → IsPage product_id db v
    detail v none found e = absurd (cc)
    detail v (some x) found e =
        let (same, offered) = found-IsOffer product_id db x found in
        record { offer = x; offered = offered; of_id = same; view = sym (some_injective e) }
