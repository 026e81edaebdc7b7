-- ===== src/Images/Storing.antt =====
-- app/products/images.py: `validate_and_reencode` and `store_product_image`.
-- `FileStorage`: the name of the upload, and the bytes of its stream.
use whs_secure_coding.Prelude.{
  Bool, List, Option, and_then, guard, if◌then◌else◌, leb, length, ltb, none, not, some, suc, take,
  zero, ℕ, ◌&&◌, ◌*◌, ◌++◌, ◌+◌, ◌||◌, ◌∷◌,
}
use whs_secure_coding.Config.{product_max_dimension, product_max_file_bytes, product_max_pixels}
use whs_secure_coding.Images.{
  Bytes, Format, Os, Picture, Pillow, StoredFile, ensure_upload_root, format_extension,
  format_mimetype, has_file, input_extension,
}
use whs_secure_coding.Text.{Text, codes, text_eq}

pub record Upload : Type 0 where
  pub filename : Option Text
  pub stream : Bytes

-- The encoded bytes and the format, which fixes the extension and the content type.
pub record Encoded : Type 0 where
  pub content : Bytes
  pub format : Format

-- `getattr(image, "is_animated", False) or getattr(image, "n_frames", 1) > 1`
abbrev pub is_moving : Picture → Bool
is_moving picture = picture.is_animated || ltb 1 picture.n_frames

-- The limits on the width, the height and the number of pixels.
abbrev pub has_good_size : Picture → Bool
has_good_size picture =
    leb 1 picture.width
    && leb 1 picture.height
    && leb picture.width product_max_dimension
    && leb picture.height product_max_dimension
    && leb (picture.width * picture.height) product_max_pixels

-- `expected_extensions`
abbrev pub is_expected_extension : Format → Text → Bool
is_expected_extension Format.jpeg s = text_eq s (codes ".jpg") || text_eq s (codes ".jpeg")
is_expected_extension Format.png s = text_eq s (codes ".png")
is_expected_extension Format.webp s = text_eq s (codes ".webp")

-- `if not encoded or len(encoded) > max_bytes`
abbrev sized : Format → Bytes → Option Encoded
sized format content =
    guard (leb 1 (length content) && leb (length content) product_max_file_bytes)
      (some (record { content = content; format = format }))

-- The checks of the image that is opened first.
unfoldable pub initial_format : Pillow → Bytes → Picture → Option Format
initial_format pillow raw picture =
    and_then picture.format
      λ format. guard (not (is_moving picture) && pillow.verifies raw) (some format)

-- The checks of the image that is opened again, and its encoding.
unfoldable pub reencode : Pillow → Text → Bytes → Format → Picture → Option Encoded
reencode pillow extension raw format picture =
    guard
      (has_good_size picture && not (is_moving picture) && is_expected_extension format extension)
      (and_then (pillow.reencoded raw format) (sized format))

-- `validate_and_reencode`; `none` is the ImageValidationError. At most `max_bytes + 1` bytes of the
-- stream are read. The second `Image.open` is of the same bytes, and so of the same picture.
unfoldable pub validate_and_reencode : Pillow → Upload → Option Encoded
validate_and_reencode pillow upload = and_then (input_extension pillow upload.filename) λ extension.
    let raw = take (product_max_file_bytes + 1) upload.stream in
    guard (leb 1 (length raw) && leb (length raw) product_max_file_bytes) (
      and_then (pillow.opened raw) λ picture.
        and_then (initial_format pillow raw picture)
          λ format. reencode pillow extension raw format picture)

pub data StoreResult : Type 0 where
  stored : Text → Text → StoreResult
  validation_error : StoreResult

-- The file is created; where it cannot be written, it is unlinked.
unfoldable pub write_new : Os → Text → Encoded → List StoredFile → StoreResult × List StoredFile
write_new os filename encoded files =
    if os.writes
    then (
      StoreResult.stored filename (format_mimetype encoded.format),
      record { name = filename; content = encoded.content } ∷ files,
    )
    else (
      StoreResult.validation_error,
      if os.unlinks then files else record { name = filename; content = encoded.content } ∷ files,
    )

-- `for _attempt in range(16)`, with the values of `secrets.token_hex(16)`.
unfoldable pub try_names :
    Os → (ℕ → Text) → ℕ → ℕ → Encoded → List StoredFile → StoreResult × List StoredFile
try_names os tokens zero n encoded files = (StoreResult.validation_error, files)
try_names os tokens (suc attempts) n encoded files =
    let rest = try_names os tokens attempts (suc n) encoded files in
    let filename = tokens n ++ format_extension encoded.format in
    if has_file filename files
    then rest
    else if os.creates n
    then write_new os filename encoded files
    else (StoreResult.validation_error, files)

abbrev pub store_encoded :
    Os → (ℕ → Text) → Option Encoded → List StoredFile → StoreResult × List StoredFile
store_encoded os tokens none files = (StoreResult.validation_error, files)
store_encoded os tokens (some encoded) files =
    if ensure_upload_root os
    then try_names os tokens 16 0 encoded files
    else (StoreResult.validation_error, files)

unfoldable pub store_product_image :
    Pillow → Os → (ℕ → Text) → Upload → List StoredFile → StoreResult × List StoredFile
store_product_image pillow os tokens upload files =
    store_encoded os tokens (validate_and_reencode pillow upload) files
