-- ===== src/Images.antt =====
-- app/products/images.py: the names, the checks and the descriptors. The directory of the uploads is
-- the list of its files. What each call of the operating system answers is chosen by an `Os`, one
-- for each function of the module; Pillow is a parameter.
pub mod Reading
pub mod Storing
pub mod Serving
pub mod Laws
pub mod Stored
pub mod Removed
pub mod Roundtrip
mod Tests
use whs_secure_coding.Prelude.{
  Bool, List, Option, [], all, any, drop, false, find, if◌then◌else◌, length, none, not, select,
  some, take, true, ℕ, ◌&&◌, ◌==◌, ◌||◌, ◌∷◌,
}
use whs_secure_coding.Text.{Text, codes, is_hex, text_eq}

abbrev pub Bytes : Type 0
Bytes = List ℕ

-- The fields of `os.stat_result` that are read.
pub record Stat : Type 0 where
  pub is_link : Bool
  pub is_directory : Bool
  pub is_regular : Bool
  pub device : ℕ
  pub inode : ℕ
  pub size : ℕ

pub record StoredFile : Type 0 where
  pub name : Text
  pub content : Bytes

-- The answers of the operating system; `none` and `false` are an OSError. The calls that are made
-- more than once are numbered. `reads n` is how many bytes more than one the n-th `os.read` returns
-- at most.
pub record Os : Type 0 where
  pub makes_root : Bool
  pub root_before : Option Stat
  pub opens_root : Bool
  pub root_after : Option Stat
  pub protects_root : Bool
  pub creates : ℕ → Bool
  pub writes : Bool
  pub unlinks : Bool
  pub file_before : Option Stat
  pub opens_file : Bool
  pub file_after : Option Stat
  pub file_details : Option Stat
  pub reads : ℕ → Option ℕ

pub data Format : Type 0 where
  jpeg png webp : Format

-- `FORMAT_EXTENSIONS` and `FORMAT_MIMETYPES`.
abbrev pub format_extension : Format → Text
format_extension Format.jpeg = codes ".jpg"
format_extension Format.png = codes ".png"
format_extension Format.webp = codes ".webp"

abbrev pub format_mimetype : Format → Text
format_mimetype Format.jpeg = codes "image/jpeg"
format_mimetype Format.png = codes "image/png"
format_mimetype Format.webp = codes "image/webp"

-- What Pillow reads of an image that it opens; a format that is not among the allowed is `none`.
pub record Picture : Type 0 where
  pub format : Option Format
  pub width : ℕ
  pub height : ℕ
  pub is_animated : Bool
  pub n_frames : ℕ

-- `Image.open`, `Image.verify`, and the steps from `decoded.load()` to `normalized.save(...)`, where
-- `none` and `false` are one of the exceptions that are caught; and `Path(name).suffix.lower()`.
pub record Pillow : Type 0 where
  pub opened : Bytes → Option Picture
  pub verifies : Bytes → Bool
  pub reencoded : Bytes → Format → Option Bytes
  pub suffix : Text → Text

-- The test that `_open_upload_root` and `_open_stored_file` make after opening: it is the same file
-- as before.
abbrev pub is_same_file : Stat → Stat → Bool
is_same_file s t = s.device == t.device && s.inode == t.inode

abbrev pub opened_after : (Stat → Bool) → Stat → Option Stat → Bool
opened_after kind before none = false
opened_after kind before (some after) = kind after && is_same_file before after

-- A descriptor is opened for what is of the kind and not a symbolic link, and is of the same file.
unfoldable pub opens_checked : (Stat → Bool) → Option Stat → Bool → Option Stat → Bool
opens_checked kind none opens after = false
opens_checked kind (some before) opens after =
    not before.is_link && kind before && opens && opened_after kind before after

-- `_open_upload_root`: whether it returns a descriptor.
abbrev pub open_upload_root : Os → Bool
open_upload_root os =
    opens_checked (λ (s : Stat). s.is_directory) os.root_before os.opens_root os.root_after

abbrev pub find_file : Text → List StoredFile → Option StoredFile
find_file name files = find (λ (f : StoredFile). text_eq f.name name) files

abbrev pub has_file : Text → List StoredFile → Bool
has_file name files = any (λ (f : StoredFile). text_eq f.name name) files

-- `_open_stored_file`: the file of the descriptor. A file that is not there is an OSError.
abbrev pub open_stored_file : Os → Text → List StoredFile → Option StoredFile
open_stored_file os name files =
    if opens_checked (λ (s : Stat). s.is_regular) os.file_before os.opens_file os.file_after
    then find_file name files
    else none

-- `ensure_upload_root`: whether it returns a descriptor, and raises ImageValidationError otherwise.
abbrev pub ensure_upload_root : Os → Bool
ensure_upload_root os = os.makes_root && open_upload_root os && os.protects_root

-- `SAFE_STORED_FILENAME.fullmatch`
unfoldable pub is_safe_filename : Text → Bool
is_safe_filename s =
    length (take 32 s) == 32
    && all is_hex (take 32 s)
    && (text_eq (drop 32 s) (codes ".jpg")
        || text_eq (drop 32 s) (codes ".png")
        || text_eq (drop 32 s) (codes ".webp"))

-- `"/" in filename or "\\" in filename or "\x00" in filename`
abbrev pub is_path_char : ℕ → Bool
is_path_char c = c == 47 || c == 92 || c == 0

abbrev pub is_image_extension : Text → Bool
is_image_extension s =
    text_eq s (codes ".jpg")
    || text_eq s (codes ".jpeg")
    || text_eq s (codes ".png")
    || text_eq s (codes ".webp")

-- `_input_extension`
unfoldable pub input_extension : Pillow → Option Text → Option Text
input_extension pillow none = none
input_extension pillow (some []) = none
input_extension pillow (some (c ∷ name)) =
    if any is_path_char (c ∷ name)
    then none
    else if is_image_extension (pillow.suffix (c ∷ name))
    then some (pillow.suffix (c ∷ name))
    else none

-- `unlink`
unfoldable pub unlink : Text → List StoredFile → List StoredFile
unlink name files = select (λ (f : StoredFile). not (text_eq f.name name)) files

-- `remove_product_image`
unfoldable pub remove_product_image : Os → Option Text → List StoredFile → Bool × List StoredFile
remove_product_image os none files = (false, files)
remove_product_image os (some name) files =
    if is_safe_filename name && open_upload_root os
    then elim (open_stored_file os name files) [
      | none ↦ (false, files)
      | some f ↦ if os.unlinks then (true, unlink name files) else (false, files)
    ]
    else (false, files)
