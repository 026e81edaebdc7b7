-- ===== src/Images/Removed.antt =====
-- What `remove_product_image` of app/products/images.py makes of an image that was just stored.
use whs_secure_coding.Prelude.{
  Bool, Bool-cases, List, [], any, arith, false, find, inl, inr, refl, select, some, true, ◌&&◌,
  ◌++◌, ◌∷◌, ◌≡◌, ◌⊎◌,
}
use whs_secure_coding.Images.{
  Os, Pillow, Stat, StoredFile, format_extension, has_file, is_safe_filename, open_upload_root,
  opens_checked, remove_product_image, unlink,
}
use whs_secure_coding.Images.Laws.{safe_name}
use whs_secure_coding.Images.Stored.{StoreEffect, file_of}
use whs_secure_coding.Images.Storing.{StoreResult, Upload}
use whs_secure_coding.Text.{Text}
use whs_secure_coding.Text.Laws.{text_eq_refl}

-- The operating system opens the directory and the file, which stays the same, and unlinks it.
abbrev pub can_remove : Os → Bool
can_remove os =
    open_upload_root os
    && opens_checked (λ (s : Stat). s.is_regular) os.file_before os.opens_file os.file_after
    && os.unlinks

unlink-absent :
    (name : Text) (files : List StoredFile)
    → has_file name files ≡ false
    → unlink name files ≡ files
unfolding unlink select any
unlink-absent name [] h = refl
unlink-absent name (f ∷ files) h = ground (arith, unlink-absent name files)

-- The directory is as before the image was stored, or the operating system fails and it stays.
abbrev pub Removed : Os → List StoredFile → List StoredFile → List StoredFile → Type 0
Removed os files stored_files left =
    ((can_remove os ≡ true) × (left ≡ files)) ⊎ ((can_remove os ≡ false) × (left ≡ stored_files))

Removed-file :
    (os : Os) (f : StoredFile) (files : List StoredFile)
    → is_safe_filename f.name ≡ true
    → has_file f.name files ≡ false
    → Removed os files (f ∷ files) (remove_product_image os (some f.name) (f ∷ files)).1
unfolding remove_product_image unlink select find
Removed-file os f files safe fresh =
    let rest : unlink f.name (f ∷ files) ≡ files =
      rw (text_eq_refl f.name) (unlink-absent f.name files fresh) in
    elim (Bool-cases (open_upload_root os)) [
      | inr shut ↦ rw (safe, shut) (inr (refl, refl))
      | inl opened ↦
          elim (Bool-cases (
            opens_checked (λ (s : Stat). s.is_regular) os.file_before os.opens_file
              os.file_after)) [
                | inr lost ↦ rw (safe, opened, lost) (inr (refl, refl))
                | inl there ↦ elim (Bool-cases os.unlinks) [
                  | inl unlinks ↦
                      rw (safe, opened, there, text_eq_refl f.name, unlinks) (inl (refl, rest))
                  | inr stays ↦
                      rw (safe, opened, there, text_eq_refl f.name, stays) (inr (refl, refl))
                ]
              ]
    ]

pub remove-stored :
    (os : Os) (pillow : Pillow) (upload : Upload) (files : List StoredFile) (name type : Text)
    (stored_files : List StoredFile)
    → StoreEffect pillow upload files (StoreResult.stored name type) stored_files
    → Removed os files stored_files (remove_product_image os (some name) stored_files).1
remove-stored os pillow upload files name type stored_files
      (StoreEffect.kept token e good fresh encoded) =
    Removed-file os (file_of (token ++ format_extension e.format) e) files
      (safe_name token e.format good) fresh
