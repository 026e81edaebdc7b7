-- ===== src/Images/Tests.antt =====
-- Tests of the product images, and their theorems at concrete inputs.
use whs_secure_coding.Prelude.{
  Bool, List, Option, [], all, and_then, any, ap, arith, false, find, guard, inl, none, not,
  option_map, refl, some, some_injective, subst, take, true, ℕ, ◌++◌, ◌∷◌, ◌≡◌,
}
use whs_secure_coding.Images.{
  Bytes, Format, Os, Picture, Pillow, Stat, StoredFile, find_file, format_mimetype, input_extension,
  is_safe_filename, opens_checked,
}
use whs_secure_coding.Images.Laws.{IsEncoded, IsToken}
use whs_secure_coding.Images.Reading.{EndsWith, read_chunks, read_chunks_ends}
use whs_secure_coding.Images.Roundtrip.{data_of, store_then_read}
use whs_secure_coding.Images.Serving.{StoredImageData, read_content, read_product_image, serve}
use whs_secure_coding.Images.Stored.{PillowLaws, ReadsWell}
use whs_secure_coding.Images.Storing.{
  Encoded, StoreResult, Upload, initial_format, reencode, store_product_image, try_names,
  validate_and_reencode, write_new,
}
use whs_secure_coding.Samples.{zeros}
use whs_secure_coding.Text.{Text, codes, text_eq}

abbrev tiny : Picture
tiny = record {
  format = some Format.jpeg;
  width = 2;
  height = 1;
  is_animated = false;
  n_frames = 1;
}

abbrev jpeg_only : Bytes → Format → Option Bytes
jpeg_only raw Format.jpeg = some raw
jpeg_only raw _ = none

-- Pillow, where every image is a small JPEG that is saved as it is.
abbrev small_pillow : Pillow
small_pillow = record {
  opened = λ raw. some tiny;
  verifies = λ raw. true;
  reencoded = jpeg_only;
  suffix = λ name. codes ".jpg";
}

small_pillow-PillowLaws : PillowLaws small_pillow
small_pillow-PillowLaws = record {
  opens_again = λ raw content format picture opened saved. (
    tiny,
    refl,
    saved_format raw content format saved,
    refl,
    inl (
      ap (λ (p : Picture). p.width) (some_injective opened),
      ap (λ (p : Picture). p.height) (some_injective opened),
    ),
    refl,
  );
}
  where
    saved_format :
        (raw content : Bytes) (format : Format)
        → jpeg_only raw format ≡ some content
        → tiny.format ≡ some format
    saved_format raw content Format.jpeg e = refl
    saved_format raw content Format.png e = absurd (cc)
    saved_format raw content Format.webp e = absurd (cc)

abbrev stat_of : Bool → ℕ → Stat
stat_of is_directory size = record {
  is_link = false;
  is_directory = is_directory;
  is_regular = not is_directory;
  device = 1;
  inode = 2;
  size = size;
}

-- An operating system that answers well, and reads two bytes at a time.
abbrev good_os : Os
good_os = record {
  makes_root = true;
  root_before = some (stat_of true 0);
  opens_root = true;
  root_after = some (stat_of true 0);
  protects_root = true;
  creates = λ n. true;
  writes = true;
  unlinks = true;
  file_before = some (stat_of false 3);
  opens_file = true;
  file_after = some (stat_of false 3);
  file_details = some (stat_of false 3);
  reads = λ n. some 1;
}

abbrev photo : Upload
photo = record { filename = some (codes "photo.jpg"); stream = 7 ∷ 8 ∷ 9 ∷ [] }

abbrev photo_name : Text
photo_name = zeros 32 ++ codes ".jpg"

abbrev photo_stored : List StoredFile
photo_stored = record { name = photo_name; content = 7 ∷ 8 ∷ 9 ∷ [] } ∷ []

zeros-IsToken : (n : ℕ) → IsToken (zeros 32)
unfolding all
zeros-IsToken n = record { digits = refl; hex = refl }

photo_is_stored :
    store_product_image small_pillow good_os (λ n. zeros 32) photo []
    ≡ (StoreResult.stored photo_name (codes "image/jpeg"), photo_stored)
unfolding store_product_image validate_and_reencode input_extension initial_format reencode and_then
    guard try_names write_new opens_checked any text_eq
photo_is_stored = refl

photo-ReadsWell :
    (f : StoredFile) → find_file photo_name photo_stored ≡ some f → ReadsWell good_os f.content
unfolding find text_eq opens_checked
photo-ReadsWell f e =
    subst (λ (g : StoredFile). ReadsWell good_os g.content) (some_injective e)
      (record {
        root = refl;
        file = refl;
        details = stat_of false 3;
        known = refl;
        is_regular = refl;
        size = refl;
        reads = λ n. (1, refl);
      })

store_then_read_example :
    (e : Encoded) × IsEncoded small_pillow photo e
    × (codes "image/jpeg" ≡ format_mimetype e.format)
    × (read_product_image small_pillow good_os (some photo_name) photo_stored ≡ some (data_of e))
store_then_read_example =
    store_then_read small_pillow good_os good_os (λ n. zeros 32) photo [] photo_stored photo_name
      (codes "image/jpeg") small_pillow-PillowLaws zeros-IsToken photo_is_stored photo-ReadsWell

read_chunks_ends_example :
    EndsWith (take 3 (7 ∷ 8 ∷ 9 ∷ 10 ∷ [])) (read_chunks (λ n. some 1) 4 0 3 (7 ∷ 8 ∷ 9 ∷ 10 ∷ []))
read_chunks_ends_example = read_chunks_ends (λ n. some 1) 4 0 3 (7 ∷ 8 ∷ 9 ∷ 10 ∷ []) (omega arith)

-- The image is read in two chunks.
photo_is_read :
    option_map
      (λ (d : StoredImageData). d.content)
      (read_product_image small_pillow good_os (some photo_name) photo_stored)
    ≡ some (7 ∷ 8 ∷ 9 ∷ [])
unfolding read_product_image and_then guard is_safe_filename opens_checked find text_eq all
    read_content read_chunks serve
photo_is_read = refl

-- A path is not an image name, and neither is a name in upper case.
unsafe_names : is_safe_filename (codes "../../etc/passwd") ≡ false
unfolding is_safe_filename all text_eq
unsafe_names = refl
