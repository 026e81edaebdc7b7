-- ===== src/Products/Tests.antt =====
-- Tests of the products, and their theorems at concrete inputs.
use whs_secure_coding.Prelude.{
  All, Bool, List, [], all, and_then, any, arith, count, false, find, guard, map, none, not, refl,
  select, some, true, ℕ, ◌∷◌, ◌≡◌,
}
use whs_secure_coding.Admin.Machine.{is_consistent}
use whs_secure_coding.Admin.Products.{get_product}
use whs_secure_coding.Images.{
  Format, Os, Picture, Stat, input_extension, is_safe_filename, opens_checked, remove_product_image,
  unlink,
}
use whs_secure_coding.Images.Laws.{IsToken}
use whs_secure_coding.Images.Storing.{
  Upload, initial_format, reencode, store_product_image, try_names, validate_and_reencode,
  write_new,
}
use whs_secure_coding.Listing.{insert_row, join, limit_offset, meets_query, order_by, pair_with}
use whs_secure_coding.Moderation.Restriction.{Subject}
use whs_secure_coding.Products.{
  Content, Files, MutationResult, create_product, insert_product, new_product,
}
use whs_secure_coding.Products.Access.{IsOffered, IsPage, MayAccess, products_private}
use whs_secure_coding.Products.Creating.{CreateEffect, create_product_ends}
use whs_secure_coding.Products.Lives.{Alive}
use whs_secure_coding.Products.Ownership.{IsKeyed, Kept}
use whs_secure_coding.Products.Public.{
  ImageAccess, PublicProductDetail, PublicProductSummary, Sort, get_image_access,
  get_public_product, search_filter, search_public_products, sort_expression,
}
use whs_secure_coding.Products.Remembered.{AreConsistent, after_shop_calls-AreConsistent}
use whs_secure_coding.Products.Runs.{
  HaveTokens, OwnerCall, OwnerRequest, Shop, after_owner_calls, after_owner_calls-Kept,
  is_called_by,
}
use whs_secure_coding.Products.World.{ShopCall, after_shop_calls, after_shop_calls-Alive}
use whs_secure_coding.Samples.{ids, market, plain, zeros}
use whs_secure_coding.Schema.{Db, Product, ProductStatus}
use whs_secure_coding.Schema.Constraints.{product_allowed}
use whs_secure_coding.Session.{
  Result, Signal, attempt, commit, execute, flush, new_uuid, open_session, pure, rollback, utc_now,
  ◌>>=◌,
}
use whs_secure_coding.Session.Ends.{Unless}
use whs_secure_coding.Text.{codes, contains_text, lower, starts_with, text_eq}
use whs_secure_coding.Wallet.Policy.{Arg}
use whs_secure_coding.Products.Public.{Search}

abbrev tiny : Picture
tiny = record { format = some Format.png; width = 1; height = 1; is_animated = false; n_frames = 1 }

abbrev plain_stat : Bool → Stat
plain_stat is_directory = record {
  is_link = false;
  is_directory = is_directory;
  is_regular = not is_directory;
  device = 1;
  inode = 2;
  size = 1;
}

abbrev good_os : Os
good_os = record {
  makes_root = true;
  root_before = some (plain_stat true);
  opens_root = true;
  root_after = some (plain_stat true);
  protects_root = true;
  creates = λ n. true;
  writes = true;
  unlinks = true;
  file_before = some (plain_stat false);
  opens_file = true;
  file_after = some (plain_stat false);
  file_details = some (plain_stat false);
  reads = λ n. some 9;
}

-- Pillow, where every image is a PNG of one pixel.
abbrev system : Files
system = record {
  pillow = record {
    opened = λ raw. some tiny;
    verifies = λ raw. true;
    reencoded = λ raw format. some raw;
    suffix = λ name. codes ".png";
  };
  tokens = λ n. zeros 32;
  os_store = good_os;
  os_remove = good_os;
}

system-IsToken : (n : ℕ) → IsToken (zeros 32)
unfolding all
system-IsToken n = record { digits = refl; hex = refl }

abbrev bicycle : Content
bicycle = record { title = codes "bicycle"; description = codes "red"; price = 5000 }

abbrev photo : Upload
photo = record { filename = some (codes "bicycle.png"); stream = 7 ∷ [] }

abbrev call_of : ℕ → OwnerRequest → List Signal → OwnerCall
call_of seller request signals = record {
  seller_id = seller;
  request = request;
  system = system;
  signals = signals;
  uuids = ids;
  now = 5;
}

abbrev bicycle_row : ProductStatus → Product
bicycle_row status = record (new_product 50 1 bicycle (codes "old.png") 0) {
  status = status;
  moderation_previous_status = some ProductStatus.active;
}

abbrev hidden_shop : Shop
hidden_shop = record {
  db = record market { products = bicycle_row ProductStatus.hidden ∷ [] };
  files = [];
}

-- Alice, whose bicycle moderation has hidden, tries to sell it, and Bobby to delete it.
abbrev attempts : List OwnerCall
attempts =
    call_of 1 (OwnerRequest.change_to 50 (codes "active")) []
    ∷ call_of 2 (OwnerRequest.soft_delete 50) []
    ∷ call_of 1 (OwnerRequest.update_to 50 bicycle (some photo)) []
    ∷ []

hidden_shop-IsKeyed : IsKeyed hidden_shop.db
unfolding count
hidden_shop-IsKeyed = record { one = λ i. ground arith }

attempts-HaveTokens : HaveTokens attempts
attempts-HaveTokens = (system-IsToken, (system-IsToken, (system-IsToken, tt)))

bicycle_found : get_product 50 hidden_shop.db ≡ some (bicycle_row ProductStatus.hidden)
unfolding find
bicycle_found = refl

after_owner_calls-Kept_example :
    Kept
      (is_called_by 1 attempts)
      50
      (bicycle_row ProductStatus.hidden)
      (after_owner_calls attempts hidden_shop).db
after_owner_calls-Kept_example =
    after_owner_calls-Kept attempts hidden_shop 50 (bicycle_row ProductStatus.hidden)
      hidden_shop-IsKeyed attempts-HaveTokens bicycle_found

-- The commit fails: the image that was stored is removed again.
create_fails :
    (create_product system 1 bicycle photo []
      (open_session market (Signal.fine ∷ Signal.operational ∷ []) ids 5)).0
    ≡ Result.ok (record { result = MutationResult.database_error; product_id = none; files = [] })
unfolding create_product store_product_image validate_and_reencode and_then input_extension any
    text_eq guard initial_format reencode opens_checked try_names write_new insert_product attempt
    product_allowed remove_product_image is_safe_filename unlink all find select commit execute
    flush new_uuid pure rollback utc_now ◌>>=◌
create_fails = refl

create_product_ends_example :
    let (r, t) =
      create_product system 1 bicycle photo []
        (open_session market (Signal.fine ∷ Signal.operational ∷ []) ids 5) in
    Unless market (CreateEffect system 1 bicycle photo [] market) r t.working t.committed
create_product_ends_example =
    create_product_ends system 1 bicycle photo [] market (Signal.fine ∷ Signal.operational ∷ []) ids
      5 system-IsToken

abbrev open_shop : Db
open_shop = record market {
  products =
      new_product 50 1 bicycle (codes "old.png") 0
      ∷ record (new_product 51 1 bicycle (codes "new.png") 1) { status = ProductStatus.hidden }
      ∷ [];
}

abbrev any_bicycle : Search
any_bicycle = record {
  query = some (codes "BICYCLE");
  status = codes "all";
  min_price = some 1000;
  max_price = none;
  sort = Sort.price_low;
  page = 1;
}

-- The hidden product is not found, and its image is for its seller.
search_finds :
    map
      (λ (v : PublicProductSummary). v.id)
      (search_public_products any_bicycle open_shop).content.items
    ≡ 50 ∷ []
unfolding search_public_products select limit_offset order_by insert_row join pair_with
    search_filter sort_expression text_eq meets_query any starts_with contains_text lower
search_finds = refl

products_private_example :
    All (IsOffered open_shop) (search_public_products any_bicycle open_shop).content.items
    × ((v : PublicProductDetail) → get_public_product 51 open_shop ≡ some v → IsPage 51 open_shop v)
    × ((a : ImageAccess)
        → get_image_access 51 (some 1) open_shop ≡ some a
        → MayAccess 51 (some 1) open_shop a)
products_private_example = products_private any_bicycle 51 (some 1) open_shop

-- Alice tries to show the hidden bicycle, Bobby reports it, and Carol, an administrator, deletes it.
abbrev shop_calls : List ShopCall
shop_calls =
    ShopCall.by_owner (call_of 1 (OwnerRequest.change_to 50 (codes "active")) [])
    ∷ ShopCall.by_reporter (record {
      reporter_id = 2;
      subject = Subject.numbered 50;
      reason = Arg.str (codes "it is not a bicycle");
      signals = [];
      uuids = ids;
      now = 6;
    })
    ∷ ShopCall.by_admin (record {
      actor_id = 3;
      product_id = 50;
      action = codes "delete";
      signals = [];
      uuids = ids;
      now = 7;
    })
    ∷ []

after_shop_calls-Alive_example :
    Alive true 50
      (bicycle_row ProductStatus.hidden)
      (after_shop_calls plain shop_calls hidden_shop).db
unfolding any
after_shop_calls-Alive_example =
    after_shop_calls-Alive plain shop_calls hidden_shop 50 (bicycle_row ProductStatus.hidden)
      (system-IsToken, (tt, (tt, tt))) hidden_shop-IsKeyed bicycle_found

after_shop_calls-AreConsistent_example :
    AreConsistent (after_shop_calls plain shop_calls hidden_shop).db
unfolding all is_consistent
after_shop_calls-AreConsistent_example =
    after_shop_calls-AreConsistent plain shop_calls hidden_shop (system-IsToken, (tt, (tt, tt)))
      refl
