-- ===== src/Prelude/Rows.antt =====
-- A table as the list of its rows, and what the queries of the program do with it: the rows that
-- meet a condition, the first of them, their number, a sum over them, and an update of them.
use Prim.Native.Nat.{ℕ, zero, suc, ◌+◌, ◌*◌, ◌≤◌}
use mathlib.Core.Path.{◌≡◌, refl}
use mathlib.Core.Bool.{Bool, true, false, not, ◌||◌, ◌&&◌}
use mathlib.Core.Option.{Option, none, some}
use mathlib.Core.List.{List, [], ◌∷◌, ◌++◌}
use native.Mathlib.Omega.{arith}
use whs_secure_coding.Prelude.Checks.{if◌then◌else◌, some_injective}

module _ {ℓ} {A : Type ℓ} where
  abbrev pub length : List A → ℕ
  length [] = 0
  length (x ∷ xs) = suc (length xs)

  abbrev pub take : ℕ → List A → List A
  take zero xs = []
  take (suc n) [] = []
  take (suc n) (x ∷ xs) = x ∷ take n xs

  abbrev pub drop : ℕ → List A → List A
  drop zero xs = xs
  drop (suc n) [] = []
  drop (suc n) (x ∷ xs) = drop n xs

  -- `.where(p)`
  unfoldable pub select : (A → Bool) → List A → List A
  select p [] = []
  select p (x ∷ xs) = let rest = select p xs in if p x then x ∷ rest else rest

  -- `.where(p)).one_or_none()` on a column that is unique: the first row.
  unfoldable pub find : (A → Bool) → List A → Option A
  find p [] = none
  find p (x ∷ xs) = if p x then some x else find p xs

  -- `.where(p).exists()`
  unfoldable pub any : (A → Bool) → List A → Bool
  any p [] = false
  any p (x ∷ xs) = p x || any p xs

  -- `for x in xs: if not p(x)`
  unfoldable pub all : (A → Bool) → List A → Bool
  all p [] = true
  all p (x ∷ xs) = p x && all p xs

  -- `select(func.count()).where(p)`, and the `rowcount` of an update under `p`.
  unfoldable pub count : (A → Bool) → List A → ℕ
  count p [] = 0
  count p (x ∷ xs) = (if p x then 1 else 0) + count p xs

  -- `update(...).where(p).values(f)`
  unfoldable pub update : (A → Bool) → (A → A) → List A → List A
  update p f [] = []
  update p f (x ∷ xs) = (if p x then f x else x) ∷ update p f xs

  unfoldable pub sum_of : (A → ℕ) → List A → ℕ
  sum_of f [] = 0
  sum_of f (x ∷ xs) = f x + sum_of f xs

  abbrev pub All {κ} : (A → Type κ) → List A → Type κ
  All P [] = Unit
  All P (x ∷ xs) = P x × All P xs

module _ {ℓ} {A : Type ℓ} where
  pub length-append : (xs ys : List A) → length (xs ++ ys) ≡ length xs + length ys
  length-append [] ys = omega arith
  length-append (x ∷ xs) ys = omega (arith, length-append xs ys)

  pub count-append : (p : A → Bool) (xs ys : List A) → count p (xs ++ ys) ≡ count p xs + count p ys
  unfolding count
  count-append p [] ys = omega arith
  count-append p (x ∷ xs) ys = omega (arith, count-append p xs ys)

  pub sum_of-append : (f : A → ℕ) (xs ys : List A) → sum_of f (xs ++ ys) ≡ sum_of f xs + sum_of f ys
  unfolding sum_of
  sum_of-append f [] ys = omega arith
  sum_of-append f (x ∷ xs) ys = omega (arith, sum_of-append f xs ys)

  -- An update that raises a measure of each row that it meets, by `k`.
  pub sum_of-update_add :
      (f : A → ℕ) (p : A → Bool) (g : A → A) (k : ℕ) (xs : List A)
      → ((x : A) → p x ≡ true → f (g x) ≡ f x + k)
      → sum_of f (update p g xs) ≡ sum_of f xs + count p xs * k
  unfolding sum_of update count
  sum_of-update_add f p g k [] h = omega arith
  sum_of-update_add f p g k (x ∷ xs) h = grind (arith, sum_of-update_add f p g k xs h, h x)

  -- An update that lowers it by `k`.
  pub sum_of-update_sub :
      (f : A → ℕ) (p : A → Bool) (g : A → A) (k : ℕ) (xs : List A)
      → ((x : A) → p x ≡ true → f (g x) + k ≡ f x)
      → sum_of f (update p g xs) + count p xs * k ≡ sum_of f xs
  unfolding sum_of update count
  sum_of-update_sub f p g k [] h = omega arith
  sum_of-update_sub f p g k (x ∷ xs) h = grind (arith, sum_of-update_sub f p g k xs h, h x)

  -- What is found meets the condition.
  pub find_sound : (p : A → Bool) (xs : List A) (x : A) → find p xs ≡ some x → p x ≡ true
  unfolding find
  find_sound p [] x e = ground arith
  find_sound p (y ∷ xs) x e = ground (arith, find_sound p xs x)

  -- Of a condition that no row meets, none is counted.
  pub count-find-none : (p : A → Bool) (xs : List A) → find p xs ≡ none → count p xs ≡ 0
  unfolding find count
  count-find-none p [] e = refl
  count-find-none p (x ∷ xs) e = ground (arith, count-find-none p xs)

  pub find-append_none :
      (p : A → Bool) (xs ys : List A) → find p xs ≡ none → find p (xs ++ ys) ≡ find p ys
  unfolding find
  find-append_none p [] ys e = refl
  find-append_none p (x ∷ xs) ys e = ground (arith, find-append_none p xs ys)

  pub find-append_some :
      (p : A → Bool) (xs ys : List A) (x : A) → find p xs ≡ some x → find p (xs ++ ys) ≡ some x
  unfolding find
  find-append_some p [] ys x e = ground arith
  find-append_some p (y ∷ xs) ys x e = ground (arith, find-append_some p xs ys x)

  -- An update that the condition does not see keeps the number of rows that meet it.
  pub count-update :
      (q p : A → Bool) (g : A → A) (xs : List A)
      → ((x : A) → q (g x) ≡ q x)
      → count q (update p g xs) ≡ count q xs
  unfolding count update
  count-update q p g [] h = refl
  count-update q p g (x ∷ xs) h = ground (arith, count-update q p g xs h, h x)

  pub length-select : (p : A → Bool) (xs : List A) → length (select p xs) ≡ count p xs
  unfolding select count
  length-select p [] = refl
  length-select p (x ∷ xs) = ground (arith, length-select p xs)

  pub length-select-le : (p : A → Bool) (xs : List A) → length (select p xs) ≤ length xs
  unfolding select
  length-select-le p [] = omega arith
  length-select-le p (x ∷ xs) = ground (arith, length-select-le p xs)

  -- Where a row is found under one condition and meets another, some row meets that.
  pub any_of_find :
      (p q : A → Bool) (xs : List A) (x : A) → find p xs ≡ some x → q x ≡ true → any q xs ≡ true
  unfolding find any
  any_of_find p q [] x e h = ground arith
  any_of_find p q (y ∷ xs) x e h = ground (arith, any_of_find p q xs x)

  pub count-and_true : (p : A → Bool) (xs : List A) → count (λ x. p x && true) xs ≡ count p xs
  unfolding count
  count-and_true p [] = refl
  count-and_true p (x ∷ xs) = ground (arith, count-and_true p xs)

  -- The rows that an update passes over are counted as before.
  pub count-update_others :
      (q p : A → Bool) (g : A → A) (xs : List A)
      → count (λ x. q x && not (p x)) xs ≤ count q (update p g xs)
  unfolding count update
  count-update_others q p g [] = omega arith
  count-update_others q p g (x ∷ xs) = ground (arith, count-update_others q p g xs)

  pub count-update_mono :
      (q p : A → Bool) (g : A → A) (xs : List A)
      → ((x : A) → q x ≡ true → q (g x) ≡ true)
      → count q xs ≤ count q (update p g xs)
  unfolding count update
  count-update_mono q p g [] h = omega arith
  count-update_mono q p g (x ∷ xs) h = ground (arith, count-update_mono q p g xs h, h x)

  count-and_not :
      (q p : A → Bool) (xs : List A)
      → count p xs ≡ 0
      → count (λ x. q x && not (p x)) xs ≡ count q xs
  unfolding count
  count-and_not q p [] h = refl
  count-and_not q p (x ∷ xs) h = ground (arith, count-and_not q p xs)

  pub count_of_find :
      (p r : A → Bool) (xs : List A) (t : A) → find r xs ≡ some t → p t ≡ true → 1 ≤ count p xs
  unfolding count find
  count_of_find p r [] t found own = ground arith
  count_of_find p r (x ∷ xs) t found own = ground (arith, count_of_find p r xs t)

  -- Where the row that is found is the only one under `p`, and is not under `q`.
  pub count-and_not-find :
      (q p r : A → Bool) (xs : List A) (t : A)
      → find r xs ≡ some t
      → q t ≡ false
      → p t ≡ true
      → count p xs ≤ 1
      → count (λ x. q x && not (p x)) xs ≡ count q xs
  unfolding count find
  count-and_not-find q p r [] t found out own one = refl
  count-and_not-find q p r (x ∷ xs) t found out own one =
      ground (arith, count-and_not-find q p r xs t, count-and_not q p xs, count_of_find p r xs t)

  pub all-update :
      (q p : A → Bool) (g : A → A) (xs : List A)
      → ((x : A) → q x ≡ true → q (g x) ≡ true)
      → all q xs ≡ true
      → all q (update p g xs) ≡ true
  unfolding all update
  all-update q p g [] h a = refl
  all-update q p g (x ∷ xs) h a = ground (arith, all-update q p g xs h, h x)

  pub all-find :
      (q p : A → Bool) (xs : List A) (x : A) → find p xs ≡ some x → all q xs ≡ true → q x ≡ true
  unfolding all find
  all-find q p [] x e a = ground arith
  all-find q p (y ∷ xs) x e a = ground (arith, all-find q p xs x)

  -- An update of rows that a search does not meet, before or after.
  pub find-update_others :
      (r p : A → Bool) (g : A → A) (xs : List A)
      → ((x : A) → p x ≡ true → r x ≡ false)
      → ((x : A) → p x ≡ true → r (g x) ≡ false)
      → find r (update p g xs) ≡ find r xs
  unfolding find update
  find-update_others r p g [] h k = refl
  find-update_others r p g (x ∷ xs) h k = ground (arith, find-update_others r p g xs h k, h x, k x)

  -- An update of the rows that a search meets, where it still meets them.
  pub find-update_same :
      (p : A → Bool) (g : A → A) (xs : List A) (x : A)
      → find p xs ≡ some x
      → ((y : A) → p y ≡ true → p (g y) ≡ true)
      → find p (update p g xs) ≡ some (g x)
  unfolding find update
  find-update_same p g [] x e h = ground arith
  find-update_same p g (y ∷ xs) x e h = grind (arith, find-update_same p g xs x, h y)

  pub count-any-false : (p : A → Bool) (xs : List A) → any p xs ≡ false → count p xs ≡ 0
  unfolding count any
  count-any-false p [] h = refl
  count-any-false p (x ∷ xs) h = ground (arith, count-any-false p xs)

  -- A row that a search finds is found with its update, where the search does not see the update.
  pub find-update_kept :
      (q p : A → Bool) (g : A → A) (xs : List A) (x : A)
      → ((y : A) → q (g y) ≡ q y)
      → find q xs ≡ some x
      → p x ≡ true
      → find q (update p g xs) ≡ some (g x)
  unfolding find update
  find-update_kept q p g [] x h found own = absurd (cc)
  find-update_kept q p g (y ∷ xs) x h found own = grind (arith, find-update_kept q p g xs x h, h y)

  -- On rows that meet a condition, two searches that agree there find the same row.
  pub find-same :
      (q p r : A → Bool) (xs : List A)
      → all q xs ≡ true
      → ((x : A) → q x ≡ true → p x ≡ r x)
      → find p xs ≡ find r xs
  unfolding find all
  find-same q p r [] h k = refl
  find-same q p r (x ∷ xs) h k = grind (arith, find-same q p r xs, k x)

  -- The row that a search finds is found by a narrower one that it meets.
  pub find-narrowed :
      (p q : A → Bool) (xs : List A) (x : A)
      → find p xs ≡ some x
      → q x ≡ true
      → find (λ y. p y && q y) xs ≡ some x
  unfolding find
  find-narrowed p q [] x e h = absurd (cc)
  find-narrowed p q (y ∷ xs) x e h = grind (arith, find-narrowed p q xs x, some_injective)

  pub all-append :
      (q : A → Bool) (xs : List A) (x : A)
      → all q xs ≡ true
      → q x ≡ true
      → all q (xs ++ x ∷ []) ≡ true
  unfolding all
  all-append q [] x h k = rw k refl
  all-append q (y ∷ ys) x h k = ground (arith, all-append q ys x)
