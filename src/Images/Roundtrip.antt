-- ===== src/Images/Roundtrip.antt =====
-- `read_product_image` after `store_product_image` of app/products/images.py.
use whs_secure_coding.Prelude.{
  Bool, List, and_then, ap, arith, false, find, guard, inl, inr, leb, length, le→leb, refl, some,
  subst, sym, take, true, ℕ, ◌&&◌, ◌*◌, ◌++◌, ◌+◌, ◌∙◌, ◌∷◌, ◌≡◌, ◌≢◌, ◌≤◌, ◌⊎◌,
}
use whs_secure_coding.Config.{product_max_dimension, product_max_file_bytes, product_max_pixels}
use whs_secure_coding.Images.{
  Bytes, Format, Os, Picture, Pillow, StoredFile, find_file, format_extension, format_mimetype,
}
use whs_secure_coding.Images.Laws.{IsEncoded, IsToken, drop_append, safe_name, take_all}
use whs_secure_coding.Images.Reading.{Chunks, EndsWith, read_chunks_ends, read_chunks_goes}
use whs_secure_coding.Images.Serving.{
  StoredImageData, format_of_name, has_good_details, is_format, read_content, read_product_image,
  serve,
}
use whs_secure_coding.Images.Stored.{
  PillowLaws, ReadsWell, StoreEffect, file_of, store_product_image-StoreEffect,
}
use whs_secure_coding.Images.Storing.{
  Encoded, StoreResult, Upload, has_good_size, is_moving, store_product_image,
}
use whs_secure_coding.Text.{Text, codes, text_eq}
use whs_secure_coding.Text.Laws.{text_eq_refl}

whole_or_error :
    (r : Chunks) (content : Bytes)
    → EndsWith (take (product_max_file_bytes + 1) content) r
    → r ≢ Chunks.os_error
    → length content ≤ product_max_file_bytes
    → r ≡ Chunks.read_bytes content
whole_or_error r content (inl failed) goes small = absurd (goes failed)
whole_or_error r content (inr read) goes small =
    read ∙ ap Chunks.read_bytes (take_all content (product_max_file_bytes + 1) (omega arith))

-- A file within the limits is read as a whole.
read_content_whole :
    (os : Os) (file : StoredFile)
    → ReadsWell os file.content
    → 1 ≤ length file.content
    → length file.content ≤ product_max_file_bytes
    → read_content os file ≡ some file.content
unfolding read_content and_then guard
read_content_whole os file well not_empty small =
    let d = well.details in
    let good : has_good_details d ≡ true =
      rw (well.is_regular, well.size, le→leb 1 _ not_empty, le→leb _ product_max_file_bytes small)
        refl in
    let read =
      whole_or_error _ file.content
        (read_chunks_ends os.reads (product_max_file_bytes + 2) 0 (product_max_file_bytes + 1)
          file.content (omega arith))
        (read_chunks_goes os.reads (product_max_file_bytes + 2) 0 (product_max_file_bytes + 1)
          file.content well.reads)
        small in
    rw (well.known, good, read, le→leb 1 _ not_empty, le→leb _ product_max_file_bytes small) refl

exchanged : (a b c d e : Bool) → a && b && c && d && e ≡ true → b && a && d && c && e ≡ true
exchanged true true true true true h = refl
exchanged false b c d e h = absurd (cc)
exchanged true false c d e h = absurd (cc)
exchanged true true false d e h = absurd (cc)
exchanged true true true false e h = absurd (cc)
exchanged true true true true false h = absurd (cc)

mul_comm : (a b : ℕ) → a * b ≡ b * a
mul_comm a b = omega arith

-- The limits hold of a picture that is turned, too.
good_size_again :
    (p q : Picture)
    → ((q.width ≡ p.width) × (q.height ≡ p.height)) ⊎ ((q.width ≡ p.height) × (q.height ≡ p.width))
    → has_good_size p ≡ true
    → has_good_size q ≡ true
good_size_again p q (inl (w, h)) good = rw (w, h) good
good_size_again p q (inr (w, h)) good =
    rw (w, h, mul_comm p.height p.width)
      (exchanged (leb 1 p.width) (leb 1 p.height) (leb p.width product_max_dimension)
        (leb p.height product_max_dimension) (leb (p.width * p.height) product_max_pixels) good)

is_own_format : (f : Format) → is_format f (some f) ≡ true
is_own_format Format.jpeg = refl
is_own_format Format.png = refl
is_own_format Format.webp = refl

format_of_extension :
    (token : Text) (f : Format)
    → IsToken token
    → format_of_name (token ++ format_extension f) ≡ some f
unfolding text_eq
format_of_extension token Format.jpeg h = rw (drop_append token (codes ".jpg") 32 h.digits) refl
format_of_extension token Format.png h = rw (drop_append token (codes ".png") 32 h.digits) refl
format_of_extension token Format.webp h = rw (drop_append token (codes ".webp") 32 h.digits) refl

serve_encoded :
    (pillow : Pillow) (token : Text) (f : Format) (p : Picture) (content : Bytes)
    → IsToken token
    → pillow.opened content ≡ some p
    → p.format ≡ some f
    → has_good_size p ≡ true
    → is_moving p ≡ false
    → pillow.verifies content ≡ true
    → serve pillow (token ++ format_extension f) content
      ≡ some (record {
        content = content;
        content_type = format_mimetype f;
        extension = format_extension f;
      })
unfolding serve and_then guard
serve_encoded pillow token f p content t opened of_format size still verified =
    rw
      (
        format_of_extension token f t,
        opened,
        of_format,
        is_own_format f,
        size,
        still,
        verified,
        drop_append token (format_extension f) 32 t.digits,
      )
      refl

found_first :
    (name : Text) (e : Encoded) (files : List StoredFile)
    → find_file name (file_of name e ∷ files) ≡ some (file_of name e)
unfolding find
found_first name e files = rw (text_eq_refl name) refl

-- What the server sends of an encoded image.
abbrev pub data_of : Encoded → StoredImageData
data_of e = record {
  content = e.content;
  content_type = format_mimetype e.format;
  extension = format_extension e.format;
}

read_kept :
    (pillow : Pillow) (os : Os) (upload : Upload) (token : Text) (e : Encoded)
    (files : List StoredFile)
    → PillowLaws pillow
    → IsToken token
    → IsEncoded pillow upload e
    → ReadsWell os e.content
    → read_product_image pillow os
        (some (token ++ format_extension e.format))
        (file_of (token ++ format_extension e.format) e ∷ files)
      ≡ some (data_of e)
unfolding read_product_image and_then guard
read_kept pillow os upload token e files laws t h well =
    let (again, opened, of_format, still, size, verified) =
      laws.opens_again (take (product_max_file_bytes + 1) upload.stream) e.content e.format
        h.picture h.was_opened h.encoding in
    let name = token ++ format_extension e.format in
    rw
      (
        safe_name token e.format t,
        well.root,
        well.file,
        found_first name e files,
        read_content_whole os (file_of name e) well h.not_empty h.small,
      )
      (serve_encoded pillow token e.format again e.content t opened of_format
        (good_size_again h.picture again size h.good_size) still verified)

-- An image that is stored is read back: with names of 32 hexadecimal digits, where Pillow opens what
-- it saved, and the operating system reads the file without error, `read_product_image` of the name
-- that `store_product_image` returned answers the bytes that were encoded, with their content type.
pub store_then_read :
    (pillow : Pillow) (os os' : Os) (tokens : ℕ → Text) (upload : Upload)
    (files files' : List StoredFile) (name type : Text)
    → PillowLaws pillow
    → ((n : ℕ) → IsToken (tokens n))
    → store_product_image pillow os tokens upload files ≡ (StoreResult.stored name type, files')
    → ((f : StoredFile) → find_file name files' ≡ some f → ReadsWell os' f.content)
    → (e : Encoded) × IsEncoded pillow upload e
      × (type ≡ format_mimetype e.format)
      × (read_product_image pillow os' (some name) files' ≡ some (data_of e))
store_then_read pillow os os' tokens upload files files' name type laws good h well =
    by_effect (StoreResult.stored name type) files'
      (subst (λ r. StoreEffect pillow upload files r.0 r.1) h
        (store_product_image-StoreEffect pillow os tokens upload files good))
      refl well
  where
    by_effect :
        (r : StoreResult) (fs : List StoredFile)
        → StoreEffect pillow upload files r fs
        → r ≡ StoreResult.stored name type
        → ((f : StoredFile) → find_file name fs ≡ some f → ReadsWell os' f.content)
        → (e : Encoded) × IsEncoded pillow upload e
          × (type ≡ format_mimetype e.format)
          × (read_product_image pillow os' (some name) fs ≡ some (data_of e))
    by_effect _ _ StoreEffect.refused same w = absurd (cc)
    by_effect _ _ (StoreEffect.left_over n e fresh) same w = absurd (cc)
    by_effect _ _ (StoreEffect.kept token e t fresh encoded) same w =
        let name_is : token ++ format_extension e.format ≡ name = cc in
        let type_is : format_mimetype e.format ≡ type = cc in
        let content_reads = w (file_of (token ++ format_extension e.format) e) (
          subst
            (λ n.
              find_file n (file_of (token ++ format_extension e.format) e ∷ files)
              ≡ some (file_of (token ++ format_extension e.format) e))
            name_is (found_first (token ++ format_extension e.format) e files)) in
        (
          e,
          encoded,
          sym type_is,
          subst
              (λ n.
                read_product_image pillow os' (some n)
                  (file_of (token ++ format_extension e.format) e ∷ files)
                ≡ some (data_of e))
              name_is (read_kept pillow os' upload token e files laws t encoded content_reads),
        )
