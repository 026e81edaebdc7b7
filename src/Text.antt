-- ===== src/Text.antt =====
-- Python's `str` as the list of its code points, and the operations on it that the program calls:
-- `strip`, `replace` of line ends, `encode("utf-8")`, `in`, `lower`, comparison and full matches of
-- the patterns `[A-Za-z0-9_]+`, `[A-Za-z0-9_-]{43}` and `[0-9a-f]*`.
pub mod Laws
use Prim.Native.Char.{code}
use whs_secure_coding.Prelude.{
  ℕ, ◌+◌, String, Bool, true, false, ◌&&◌, ◌||◌, Option, none, some, List, [], ◌∷◌, leb, ltb, ◌==◌,
  if◌then◌else◌, length, all,
}

abbrev pub Text : Type 0
Text = List ℕ

-- The code points of a literal.
abbrev pub codes : String → Text
codes String.[] = []
codes (String.◌∷◌ c s) = code c ∷ codes s

-- `a == b` on texts.
unfoldable pub text_eq : Text → Text → Bool
text_eq [] [] = true
text_eq [] (d ∷ t) = false
text_eq (c ∷ s) [] = false
text_eq (c ∷ s) (d ∷ t) = c == d && text_eq s t

-- The code points that `str.strip` removes: those of `str.isspace`.
unfoldable pub is_space : ℕ → Bool
is_space c =
    (leb 9 c && leb c 13)
    || (leb 28 c && leb c 32)
    || c == 133
    || c == 160
    || c == 5760
    || (leb 8192 c && leb c 8202)
    || c == 8232
    || c == 8233
    || c == 8239
    || c == 8287
    || c == 12288

unfoldable pub lstrip : Text → Text
lstrip [] = []
lstrip (c ∷ s) = let rest = lstrip s in if is_space c then rest else c ∷ s

abbrev keep_or_drop : ℕ → Text → Text
keep_or_drop c [] = if is_space c then [] else c ∷ []
keep_or_drop c (d ∷ s) = c ∷ d ∷ s

unfoldable pub rstrip : Text → Text
rstrip [] = []
rstrip (c ∷ s) = keep_or_drop c (rstrip s)

unfoldable pub strip : Text → Text
unfolding lstrip rstrip
strip s = rstrip (lstrip s)

-- `s.replace("\r\n", "\n")`
unfoldable pub replace_crlf : Text → Text
replace_crlf [] = []
replace_crlf (c ∷ []) = c ∷ []
replace_crlf (c ∷ d ∷ s) = elim (c == 13 && d == 10) [
  | true ↦ 10 ∷ replace_crlf s
  | false ↦ c ∷ replace_crlf (d ∷ s)
]

-- `s.replace("\r", "\n")`
unfoldable pub replace_cr : Text → Text
replace_cr [] = []
replace_cr (c ∷ s) = (if c == 13 then 10 else c) ∷ replace_cr s

abbrev pub is_surrogate : ℕ → Bool
is_surrogate c = leb 55296 c && leb c 57343

abbrev pub utf8_width : ℕ → ℕ
utf8_width c = if ltb c 128 then 1 else if ltb c 2048 then 2 else if ltb c 65536 then 3 else 4

abbrev add_width : ℕ → Option ℕ → Option ℕ
add_width c none = none
add_width c (some n) = if is_surrogate c then none else some (utf8_width c + n)

-- `len(s.encode("utf-8"))`; `none` is the UnicodeEncodeError that a lone surrogate raises.
unfoldable pub encoded_length : Text → Option ℕ
encoded_length [] = some 0
encoded_length (c ∷ s) = add_width c (encoded_length s)

-- `[A-Za-z0-9_]`
abbrev pub is_word : ℕ → Bool
is_word c =
    (leb b'A' c && leb c b'Z')
    || (leb b'a' c && leb c b'z')
    || (leb b'0' c && leb c b'9')
    || c == b'_'

-- `[0-9a-f]`
abbrev pub is_hex : ℕ → Bool
is_hex c = (leb b'0' c && leb c b'9') || (leb b'a' c && leb c b'f')

-- `USERNAME_PATTERN.fullmatch(s) is not None`
unfoldable pub matches_username : Text → Bool
unfolding all
matches_username s = leb 1 (length s) && all is_word s

-- `str.lower` on ASCII; the program lowers only the keys of its own literals.
abbrev lower_code : ℕ → ℕ
lower_code c = if leb b'A' c && leb c b'Z' then c + 32 else c

unfoldable pub lower : Text → Text
lower [] = []
lower (c ∷ s) = lower_code c ∷ lower s

unfoldable pub starts_with : Text → Text → Bool
starts_with [] s = true
starts_with (c ∷ t) [] = false
starts_with (c ∷ t) (d ∷ s) = c == d && starts_with t s

-- `term in s`
unfoldable pub contains_text : Text → Text → Bool
unfolding starts_with
contains_text t [] = starts_with t []
contains_text t (c ∷ s) = starts_with t (c ∷ s) || contains_text t s
