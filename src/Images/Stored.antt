-- ===== src/Images/Stored.antt =====
-- What `store_product_image` of app/products/images.py does to the directory, and what is read back.
use whs_secure_coding.Prelude.{
  Bool-cases, List, Option, false, inl, inr, length, none, refl, some, suc, true, zero, ℕ, ◌++◌,
  ◌∷◌, ◌≡◌, ◌⊎◌,
}
use whs_secure_coding.Images.{
  Bytes, Format, Os, Picture, Pillow, Stat, StoredFile, ensure_upload_root, format_extension,
  format_mimetype, has_file, open_upload_root, opens_checked,
}
use whs_secure_coding.Images.Laws.{IsEncoded, IsToken, validate_and_reencode-IsEncoded}
use whs_secure_coding.Images.Storing.{
  Encoded, StoreResult, Upload, is_moving, store_encoded, store_product_image, try_names,
  validate_and_reencode, write_new,
}
use whs_secure_coding.Text.{Text}

abbrev pub file_of : Text → Encoded → StoredFile
file_of name e = record { name = name; content = e.content }

-- How a call ends: nothing changes; or a new file, which could neither be written nor unlinked, is
-- left; or the encoded image is stored. The name is safe, and no file had it.
pub data StoreEffect (pillow : Pillow) (upload : Upload) (files : List StoredFile)
    : StoreResult → List StoredFile → Type 0 where
  refused : StoreEffect pillow upload files StoreResult.validation_error files
  left_over :
      (name : Text) (e : Encoded)
      → has_file name files ≡ false
      → StoreEffect pillow upload files StoreResult.validation_error (file_of name e ∷ files)
  kept :
      (token : Text) (e : Encoded)
      → IsToken token
      → has_file (token ++ format_extension e.format) files ≡ false
      → IsEncoded pillow upload e
      → StoreEffect pillow upload files
          (StoreResult.stored (token ++ format_extension e.format) (format_mimetype e.format))
          (file_of (token ++ format_extension e.format) e ∷ files)

module _ (pillow : Pillow) (os : Os) (tokens : ℕ → Text) (upload : Upload) (files : List StoredFile)
    (good_tokens : (n : ℕ) → IsToken (tokens n)) where
  abbrev Effected : StoreResult × List StoredFile → Type 0
  Effected r = StoreEffect pillow upload files r.0 r.1

  write_new-StoreEffect :
      (n : ℕ) (e : Encoded)
      → IsEncoded pillow upload e
      → has_file (tokens n ++ format_extension e.format) files ≡ false
      → Effected (write_new os (tokens n ++ format_extension e.format) e files)
  unfolding write_new
  write_new-StoreEffect n e encoded fresh = elim (Bool-cases os.writes) [
    | inl written ↦ rw written (kept (tokens n) e (good_tokens n) fresh encoded)
    | inr failed ↦ elim (Bool-cases os.unlinks) [
      | inl gone ↦ rw (failed, gone) refused
      | inr stays ↦ rw (failed, stays) (left_over _ e fresh)
    ]
  ]

  try_names-StoreEffect :
      (attempts n : ℕ) (e : Encoded)
      → IsEncoded pillow upload e
      → Effected (try_names os tokens attempts n e files)
  unfolding try_names
  try_names-StoreEffect zero n e encoded = refused
  try_names-StoreEffect (suc attempts) n e encoded =
      elim (Bool-cases (has_file (tokens n ++ format_extension e.format) files)) [
        | inl taken ↦ rw taken (try_names-StoreEffect attempts (suc n) e encoded)
        | inr fresh ↦ elim (Bool-cases (os.creates n)) [
          | inl created ↦ rw (fresh, created) (write_new-StoreEffect n e encoded fresh)
          | inr failed ↦ rw (fresh, failed) refused
        ]
      ]

  -- However the operating system answers, with names of 32 hexadecimal digits: a call of
  -- `store_product_image` stores nothing, or leaves a new file that it could not unlink, or stores
  -- the re-encoded image under a new name; the other files stay.
  pub store_product_image-StoreEffect : Effected (store_product_image pillow os tokens upload files)
  unfolding store_product_image
  store_product_image-StoreEffect = by_encoded (validate_and_reencode pillow upload) refl
    where
      by_encoded :
          (o : Option Encoded)
          → validate_and_reencode pillow upload ≡ o
          → Effected (store_encoded os tokens o files)
      by_encoded none h = refused
      by_encoded (some e) h = elim (Bool-cases (ensure_upload_root os)) [
        | inl there ↦
            rw there
              (try_names-StoreEffect 16 0 e (validate_and_reencode-IsEncoded pillow upload e h))
        | inr not_there ↦ rw not_there refused
      ]

-- The calls of `read_product_image` go well, and the file has the size that `fstat` says.
pub record ReadsWell (os : Os) (content : Bytes) : Type 0 where
  pub root : open_upload_root os ≡ true
  pub file :
      opens_checked (λ (s : Stat). s.is_regular) os.file_before os.opens_file os.file_after ≡ true
  pub details : Stat
  pub known : os.file_details ≡ some details
  pub is_regular : details.is_regular ≡ true
  pub size : details.size ≡ length content
  pub reads : (n : ℕ) → (more : ℕ) × (os.reads n ≡ some more)

-- Pillow reads what it wrote: an image of the format that it saved, of one frame, of the size of the
-- picture or, where the EXIF orientation turned it, with the width and the height exchanged.
pub record PillowLaws (pillow : Pillow) : Type 0 where
  pub opens_again :
      (raw content : Bytes) (format : Format) (picture : Picture)
      → pillow.opened raw ≡ some picture
      → pillow.reencoded raw format ≡ some content
      → (again : Picture) × (pillow.opened content ≡ some again)
        × (again.format ≡ some format)
        × (is_moving again ≡ false)
        × (((again.width ≡ picture.width) × (again.height ≡ picture.height))
            ⊎ ((again.width ≡ picture.height) × (again.height ≡ picture.width)))
        × (pillow.verifies content ≡ true)
