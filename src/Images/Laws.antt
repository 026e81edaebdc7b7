-- ===== src/Images/Laws.antt =====
-- What `store_product_image` leaves behind, and what `read_product_image` makes of it.
-- `secrets.token_hex(16)` returns 32 lower case hexadecimal digits.
use whs_secure_coding.Prelude.{
  Bool, List, [], all, and_parts, and_then-some, ap, arith, drop, false, guard-some, leb, leb→le,
  length, not, not-true, refl, some, some_injective, subst, suc, take, true, zero, ℕ, ◌&&◌, ◌++◌,
  ◌+◌, ◌∙◌, ◌∷◌, ◌≡◌, ◌≤◌,
}
use whs_secure_coding.Config.{product_max_file_bytes}
use whs_secure_coding.Images.{
  Bytes, Format, Picture, Pillow, format_extension, input_extension, is_safe_filename,
}
use whs_secure_coding.Images.Storing.{
  Encoded, Upload, has_good_size, initial_format, is_moving, reencode, validate_and_reencode,
}
use whs_secure_coding.Text.{Text, codes, is_hex, text_eq}

pub record IsToken (s : Text) : Type 0 where
  pub digits : length s ≡ 32
  pub hex : all is_hex s ≡ true

pub take_append : (s t : Text) (n : ℕ) → length s ≡ n → take n (s ++ t) ≡ s
take_append [] t zero h = refl
take_append [] t (suc n) h = absurd (omega arith)
take_append (c ∷ s) t zero h = absurd (omega arith)
take_append (c ∷ s) t (suc n) h = ap (λ xs. c ∷ xs) (take_append s t n (omega arith))

pub drop_append : (s t : Text) (n : ℕ) → length s ≡ n → drop n (s ++ t) ≡ t
drop_append [] t zero h = refl
drop_append [] t (suc n) h = absurd (omega arith)
drop_append (c ∷ s) t zero h = absurd (omega arith)
drop_append (c ∷ s) t (suc n) h = drop_append s t n (omega arith)

pub take_all : {A : Type 0} (xs : List A) (n : ℕ) → length xs ≤ n → take n xs ≡ xs
take_all [] zero h = refl
take_all [] (suc n) h = refl
take_all (x ∷ xs) zero h = absurd (omega arith)
take_all (x ∷ xs) (suc n) h = ap (λ ys. x ∷ ys) (take_all xs n (omega arith))

length-take : {A : Type 0} (xs : List A) (n : ℕ) → n ≤ length xs → length (take n xs) ≡ n
length-take [] zero h = refl
length-take [] (suc n) h = absurd (omega arith)
length-take (x ∷ xs) zero h = refl
length-take (x ∷ xs) (suc n) h = ap suc (length-take xs n (omega arith))

-- A name of a token and the extension of a format is safe.
pub safe_name :
    (token : Text) (format : Format)
    → IsToken token
    → is_safe_filename (token ++ format_extension format) ≡ true
unfolding is_safe_filename text_eq
safe_name token Format.jpeg h =
    rw
      (
        take_append token (codes ".jpg") 32 h.digits,
        drop_append token (codes ".jpg") 32 h.digits,
        h.digits,
        h.hex,
      )
      refl
safe_name token Format.png h =
    rw
      (
        take_append token (codes ".png") 32 h.digits,
        drop_append token (codes ".png") 32 h.digits,
        h.digits,
        h.hex,
      )
      refl
safe_name token Format.webp h =
    rw
      (
        take_append token (codes ".webp") 32 h.digits,
        drop_append token (codes ".webp") 32 h.digits,
        h.digits,
        h.hex,
      )
      refl

-- What is encoded fits the limit and has a format.
pub record IsEncoded (pillow : Pillow) (upload : Upload) (e : Encoded) : Type 0 where
  pub not_empty : 1 ≤ length e.content
  pub small : length e.content ≤ product_max_file_bytes
  pub picture : Picture
  pub was_opened : pillow.opened (take (product_max_file_bytes + 1) upload.stream) ≡ some picture
  pub of_format : picture.format ≡ some e.format
  pub good_size : has_good_size picture ≡ true
  pub still : is_moving picture ≡ false
  pub encoding :
      pillow.reencoded (take (product_max_file_bytes + 1) upload.stream) e.format ≡ some e.content

IsEncoded-of :
    (pillow : Pillow) (upload : Upload) (picture : Picture) (format : Format) (content : Bytes)
    (b : Bool)
    → pillow.opened (take (product_max_file_bytes + 1) upload.stream) ≡ some picture
    → picture.format ≡ some format
    → has_good_size picture && not (is_moving picture) && b ≡ true
    → pillow.reencoded (take (product_max_file_bytes + 1) upload.stream) format ≡ some content
    → leb 1 (length content) && leb (length content) product_max_file_bytes ≡ true
    → IsEncoded pillow upload (record { content = content; format = format })
IsEncoded-of pillow upload picture format content b opened of_format good encoding fits =
    let (good_size, still) = and_parts (has_good_size picture) _ ((and_parts _ b good).0) in
    let (not_empty, small) = and_parts _ _ fits in
    record {
      not_empty = leb→le 1 (length content) not_empty;
      small = leb→le (length content) product_max_file_bytes small;
      picture = picture;
      was_opened = opened;
      of_format = of_format;
      good_size = good_size;
      still = not-true _ still;
      encoding = encoding;
    }

pub validate_and_reencode-IsEncoded :
    (pillow : Pillow) (upload : Upload) (e : Encoded)
    → validate_and_reencode pillow upload ≡ some e
    → IsEncoded pillow upload e
unfolding validate_and_reencode initial_format reencode
validate_and_reencode-IsEncoded pillow upload e h =
    let raw = take (product_max_file_bytes + 1) upload.stream in
    let (extension, named, h₁) = and_then-some (input_extension pillow upload.filename) _ e h in
    let (read, h₂) = guard-some _ _ e h₁ in
    let (picture, opened, h₃) = and_then-some _ _ e h₂ in
    let (format, first, h₄) = and_then-some _ _ e h₃ in
    let (f, of_format, h₅) = and_then-some picture.format _ format first in
    let (checked, same) = guard-some _ (some f) format h₅ in
    let (good, h₆) = guard-some _ _ e h₄ in
    let (content, encoding, h₇) = and_then-some _ _ e h₆ in
    let (fits, is_e) = guard-some _ _ e h₇ in
    subst (IsEncoded pillow upload) (some_injective is_e) (
      IsEncoded-of pillow upload picture format content _ opened (of_format ∙ same) good encoding
        fits)
