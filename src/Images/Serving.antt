-- ===== src/Images/Serving.antt =====
-- app/products/images.py: `read_product_image`.
use whs_secure_coding.Prelude.{
  Bool, List, Option, and_then, drop, false, guard, if◌then◌else◌, leb, length, none, not, some,
  true, ◌&&◌, ◌+◌,
}
use whs_secure_coding.Config.{product_max_file_bytes}
use whs_secure_coding.Images.{
  Bytes, Format, Os, Pillow, Stat, StoredFile, format_mimetype, is_safe_filename, open_stored_file,
  open_upload_root,
}
use whs_secure_coding.Images.Reading.{Chunks, read_chunks}
use whs_secure_coding.Images.Storing.{has_good_size, is_moving}
use whs_secure_coding.Text.{Text, codes, text_eq}

pub record StoredImageData : Type 0 where
  pub content : Bytes
  pub content_type : Text
  pub extension : Text

-- `expected_format` of the extension of a safe name.
abbrev pub format_of_name : Text → Option Format
format_of_name name =
    if text_eq (drop 32 name) (codes ".jpg")
    then some Format.jpeg
    else if text_eq (drop 32 name) (codes ".png")
    then some Format.png
    else if text_eq (drop 32 name) (codes ".webp")
    then some Format.webp
    else none

abbrev pub is_format : Format → Option Format → Bool
is_format Format.jpeg (some Format.jpeg) = true
is_format Format.png (some Format.png) = true
is_format Format.webp (some Format.webp) = true
is_format _ _ = false

-- The checks on `os.fstat`.
abbrev pub has_good_details : Stat → Bool
has_good_details details =
    details.is_regular && leb 1 details.size && leb details.size product_max_file_bytes

-- `b"".join(chunks)` of the loop, where it is neither empty nor too large.
abbrev pub content_of : Chunks → Option Bytes
content_of (Chunks.read_bytes content) =
    guard (leb 1 (length content) && leb (length content) product_max_file_bytes) (some content)
content_of _ = none

-- The content of the file.
unfoldable pub read_content : Os → StoredFile → Option Bytes
read_content os file = and_then os.file_details λ details. guard (has_good_details details) (
    content_of (
      read_chunks os.reads (product_max_file_bytes + 2) 0 (product_max_file_bytes + 1)
        file.content))

-- The checks on the image that Pillow opens.
unfoldable pub serve : Pillow → Text → Bytes → Option StoredImageData
serve pillow name content = and_then (format_of_name name) λ expected_format.
    and_then (pillow.opened content) λ picture.
      guard
        (is_format expected_format picture.format
          && has_good_size picture
          && not (is_moving picture)
          && pillow.verifies content)
        (some (record {
          content = content;
          content_type = format_mimetype expected_format;
          extension = drop 32 name;
        }))

unfoldable pub read_product_image :
    Pillow → Os → Option Text → List StoredFile → Option StoredImageData
read_product_image pillow os filename files = and_then filename λ name.
    guard (is_safe_filename name && open_upload_root os) (
      and_then (open_stored_file os name files)
        λ file. and_then (read_content os file) λ content. serve pillow name content)
