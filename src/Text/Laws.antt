-- ===== src/Text/Laws.antt =====
-- Laws of the operations on texts.
use whs_secure_coding.Prelude.{
  ℕ, ◌≡◌, ◌↔◌, refl, inl, inr, true, false, [], ◌∷◌, arith, ◌==◌, ==_refl, Bool-cases,
}
use whs_secure_coding.Text.{
  Text, text_eq, is_space, lstrip, rstrip, keep_or_drop, strip, replace_cr,
}

pub text_eq_refl : (s : Text) → text_eq s s ≡ true
unfolding text_eq
text_eq_refl [] = refl
text_eq_refl (c ∷ s) = rw (==_refl c) (text_eq_refl s)

pub text_eq_sound : (s t : Text) → text_eq s t ≡ true → s ≡ t
unfolding text_eq
text_eq_sound [] [] h = refl
text_eq_sound [] (d ∷ t) h = cc
text_eq_sound (c ∷ s) [] h = cc
text_eq_sound (c ∷ s) (d ∷ t) h = ground (arith, text_eq_sound s t)

pub text_eq_iff : (s t : Text) → (text_eq s t ≡ true) ↔ (s ≡ t)
text_eq_iff s t = (text_eq_sound s t, λ e. rw e (text_eq_refl t))

-- The first code point, if there is one, is no space.
abbrev pub StartsClean : Text → Type 0
StartsClean [] = Unit
StartsClean (c ∷ s) = is_space c ≡ false

abbrev pub EndsClean : Text → Type 0
EndsClean [] = Unit
EndsClean (c ∷ []) = is_space c ≡ false
EndsClean (c ∷ d ∷ s) = EndsClean (d ∷ s)

lstrip-StartsClean : (s : Text) → StartsClean (lstrip s)
unfolding lstrip
lstrip-StartsClean [] = tt
lstrip-StartsClean (c ∷ s) = elim (Bool-cases (is_space c)) [
  | inl e ↦ rw e (lstrip-StartsClean s)
  | inr e ↦ rw e e
]

keep_or_drop-EndsClean : (c : ℕ) (s : Text) → EndsClean s → EndsClean (keep_or_drop c s)
keep_or_drop-EndsClean c [] h = elim (Bool-cases (is_space c)) [ inl e ↦ rw e tt | inr e ↦ rw e e ]
keep_or_drop-EndsClean c (d ∷ s) h = h

rstrip-EndsClean : (s : Text) → EndsClean (rstrip s)
unfolding rstrip
rstrip-EndsClean [] = tt
rstrip-EndsClean (c ∷ s) = keep_or_drop-EndsClean c (rstrip s) (rstrip-EndsClean s)

keep_or_drop-StartsClean : (c : ℕ) (s : Text) → is_space c ≡ false → StartsClean (keep_or_drop c s)
keep_or_drop-StartsClean c [] h = rw h h
keep_or_drop-StartsClean c (d ∷ s) h = h

rstrip-StartsClean : (s : Text) → StartsClean s → StartsClean (rstrip s)
unfolding rstrip
rstrip-StartsClean [] h = tt
rstrip-StartsClean (c ∷ s) h = keep_or_drop-StartsClean c (rstrip s) h

-- What `strip` returns has no space at either end.
pub strip-clean : (s : Text) → StartsClean (strip s) × EndsClean (strip s)
unfolding strip
strip-clean s = (rstrip-StartsClean (lstrip s) (lstrip-StartsClean s), rstrip-EndsClean (lstrip s))

lstrip-clean : (s : Text) → StartsClean s → lstrip s ≡ s
unfolding lstrip
lstrip-clean [] h = refl
lstrip-clean (c ∷ s) h = rw h

keep_or_drop-cons : (c d : ℕ) (s t : Text) → t ≡ d ∷ s → keep_or_drop c t ≡ c ∷ d ∷ s
keep_or_drop-cons c d s t e = rw e

rstrip-clean : (s : Text) → EndsClean s → rstrip s ≡ s
unfolding rstrip
rstrip-clean [] h = refl
rstrip-clean (c ∷ []) h = rw h
rstrip-clean (c ∷ d ∷ s) h = keep_or_drop-cons c d s (rstrip (d ∷ s)) (rstrip-clean (d ∷ s) h)

-- A text with no space at either end is left as it is.
pub strip_of_clean : (s : Text) → StartsClean s → EndsClean s → strip s ≡ s
unfolding strip
strip_of_clean s a b = rw (lstrip-clean s a) (rstrip-clean s b)

pub strip_idem : (s : Text) → strip (strip s) ≡ strip s
strip_idem s = strip_of_clean (strip s) (strip-clean s).0 (strip-clean s).1

-- A text without a carriage return.
abbrev pub NoReturn : Text → Type 0
NoReturn [] = Unit
NoReturn (c ∷ s) = ((c == 13) ≡ false) × NoReturn s

pub replace_cr-NoReturn : (s : Text) → NoReturn (replace_cr s)
unfolding replace_cr
replace_cr-NoReturn [] = tt
replace_cr-NoReturn (c ∷ s) = (ground arith, replace_cr-NoReturn s)
