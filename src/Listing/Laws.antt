-- ===== src/Listing/Laws.antt =====
-- Laws of listings: the pages, one after another, are the rows that the filters take, in order.
use whs_secure_coding.Prelude.{
  All, Bool, List, [], all, ap, arith, count, drop, if◌then◌else◌, length, length-select, map, refl,
  select, suc, sym, take, true, zero, ℕ, ◌&&◌, ◌*◌, ◌++◌, ◌+◌, ◌-◌, ◌∙◌, ◌∷◌, ◌≡◌, ◌≤◌,
}
use whs_secure_coding.Listing.{
  Key, Page, in_order, insert_row, limit_offset, list_page, order_by, ordered, pages_of,
}
use native.Mathlib.Nat.{div-add-mod', mod-lt}

unfoldable pub numbered_pages : {B : Type 0} → (ℕ → Page B) → ℕ → List B
numbered_pages list_of zero = []
numbered_pages list_of (suc n) = numbered_pages list_of n ++ (list_of (suc n)).items

take-all : {A : Type 0} (n : ℕ) (xs : List A) → length xs ≤ n → take n xs ≡ xs
take-all zero [] h = refl
take-all zero (x ∷ xs) h = absurd (omega arith)
take-all (suc n) [] h = refl
take-all (suc n) (x ∷ xs) h = ap (λ ys. x ∷ ys) (take-all n xs (omega arith))

take_none : {A : Type 0} (n : ℕ) → take {A = A} n [] ≡ []
take_none zero = refl
take_none (suc n) = refl

-- The first rows, and those after them.
take-drop : {A : Type 0} (m n : ℕ) (xs : List A) → take (m + n) xs ≡ take m xs ++ take n (drop m xs)
take-drop zero n xs = ap (λ k. take k xs) (omega arith)
take-drop (suc m) n [] = take_none (suc m + n) ∙ sym (take_none n)
take-drop (suc m) n (x ∷ xs) =
    let one : suc m + n ≡ suc (m + n) = omega arith in
    ap (λ k. take k (x ∷ xs)) one ∙ ap (λ ys. x ∷ ys) (take-drop m n xs)

map-append : {A B : Type 0} (f : A → B) (xs ys : List A) → map f (xs ++ ys) ≡ map f xs ++ map f ys
map-append f [] ys = refl
map-append f (x ∷ xs) ys = ap (λ zs. f x ∷ zs) (map-append f xs ys)

module _ {A : Type 0} (le : A → A → Bool) where
  count-insert_row :
      (q : A → Bool) (x : A) (xs : List A) → count q (insert_row le x xs) ≡ count q (x ∷ xs)
  unfolding count insert_row
  count-insert_row q x [] = refl
  count-insert_row q x (y ∷ ys) = ground (arith, count-insert_row q x ys)

  -- Ordering keeps the number of rows of each kind.
  pub count-order_by : (q : A → Bool) (xs : List A) → count q (order_by le xs) ≡ count q xs
  unfolding count order_by
  count-order_by q [] = refl
  count-order_by q (x ∷ xs) =
      count-insert_row q x (order_by le xs)
      ∙ ap (λ n. (if q x then 1 else 0) + n) (count-order_by q xs)

  length-insert_row : (x : A) (xs : List A) → length (insert_row le x xs) ≡ suc (length xs)
  unfolding insert_row
  length-insert_row x [] = refl
  length-insert_row x (y ∷ ys) = ground (arith, length-insert_row x ys)

  length-order_by : (xs : List A) → length (order_by le xs) ≡ length xs
  unfolding order_by
  length-order_by [] = refl
  length-order_by (x ∷ xs) = length-insert_row x (order_by le xs) ∙ ap suc (length-order_by xs)

-- Enough pages for all rows.
enough_pages : (total per_page : ℕ) → 1 ≤ per_page → total ≤ pages_of total per_page * per_page
unfolding pages_of
enough_pages total per_page h =
    let whole = div-add-mod' (total + (per_page - 1)) per_page in
    let rest = mod-lt (total + (per_page - 1)) {m = per_page} (omega (arith, h)) in
    omega (arith, whole, rest, h)

first_pages :
    {A B : Type 0} (key : A → Key) (view : A → B) (p : A → Bool) (oldest : Bool) (per_page : ℕ)
    (rows : List A) (n : ℕ)
    → numbered_pages (λ i. list_page key view p oldest i per_page rows) n
      ≡ map view (take (n * per_page) (ordered key p oldest rows))
unfolding numbered_pages list_page limit_offset
first_pages key view p oldest per_page rows zero =
    let no_rows : 0 * per_page ≡ 0 = omega arith in rw no_rows refl
first_pages key view p oldest per_page rows (suc n) =
    let all_rows = ordered key p oldest rows in
    let size : suc n * per_page ≡ n * per_page + per_page = omega arith in
    let last : suc n - 1 ≡ n = omega arith in
    rw
      (
        first_pages key view p oldest per_page rows n,
        size,
        last,
        take-drop (n * per_page) per_page all_rows,
      )
      (sym (
        map-append view (take (n * per_page) all_rows)
          (take per_page (drop (n * per_page) all_rows))))

-- Listed page after page, every row that the filters take is shown once, in the order asked for.
pub list_page_complete :
    {A B : Type 0} (key : A → Key) (view : A → B) (p : A → Bool) (oldest : Bool) (per_page : ℕ)
    (rows : List A)
    → 1 ≤ per_page
    → numbered_pages
        (λ n. list_page key view p oldest n per_page rows)
        (pages_of (count p rows) per_page)
      ≡ map view (ordered key p oldest rows)
list_page_complete key view p oldest per_page rows h =
    let all_rows = ordered key p oldest rows in
    let enough = enough_pages (count p rows) per_page h in
    let size : length all_rows ≡ count p rows =
      length-order_by _ (select p rows) ∙ length-select p rows in
    first_pages key view p oldest per_page rows (pages_of (count p rows) per_page)
    ∙ ap (map view) (take-all _ all_rows (omega (arith, size, enough)))

-- What holds of every row that the filters take holds of every row that is listed.
module _ {A : Type 0} (q : A → Bool) where
  all-select :
      (p : A → Bool) (xs : List A)
      → ((x : A) → p x ≡ true → q x ≡ true)
      → all q (select p xs) ≡ true
  unfolding all select
  all-select p [] h = refl
  all-select p (x ∷ xs) h = ground (arith, all-select p xs h, h x)

  all-insert_row :
      (le : A → A → Bool) (x : A) (xs : List A) → all q (insert_row le x xs) ≡ (q x && all q xs)
  unfolding all insert_row
  all-insert_row le x [] = refl
  all-insert_row le x (y ∷ ys) = ground (arith, all-insert_row le x ys)

  all-order_by : (le : A → A → Bool) (xs : List A) → all q (order_by le xs) ≡ all q xs
  unfolding all order_by
  all-order_by le [] = refl
  all-order_by le (x ∷ xs) =
      all-insert_row le x (order_by le xs) ∙ ap (λ b. q x && b) (all-order_by le xs)

  all-take : (n : ℕ) (xs : List A) → all q xs ≡ true → all q (take n xs) ≡ true
  unfolding all
  all-take zero xs h = refl
  all-take (suc n) [] h = refl
  all-take (suc n) (x ∷ xs) h = ground (arith, all-take n xs)

  all-drop : (n : ℕ) (xs : List A) → all q xs ≡ true → all q (drop n xs) ≡ true
  unfolding all
  all-drop zero xs h = h
  all-drop (suc n) [] h = refl
  all-drop (suc n) (x ∷ xs) h = all-drop n xs (ground arith)

  all-view :
      {B : Type 0} (P : B → Type 0) (f : A → B) (xs : List A)
      → ((x : A) → q x ≡ true → P (f x))
      → all q xs ≡ true
      → All P (map f xs)
  unfolding all
  all-view P f [] h a = tt
  all-view P f (x ∷ xs) h a = (h x (ground arith), all-view P f xs h (ground arith))

  -- The same for rows in any order.
  pub page-view_by :
      {B : Type 0} (P : B → Type 0) (f : A → B) (le : A → A → Bool) (p : A → Bool)
      (page per_page : ℕ) (rows : List A)
      → ((x : A) → p x ≡ true → q x ≡ true)
      → ((x : A) → q x ≡ true → P (f x))
      → All P (map f (limit_offset page per_page (order_by le (select p rows))))
  unfolding limit_offset
  page-view_by P f le p page per_page rows h shown = all-view P f _ shown (
      all-take per_page _ (
        all-drop ((page - 1) * per_page) _ (all-order_by le (select p rows) ∙ all-select p rows h)))

  pub page-view :
      {B : Type 0} (P : B → Type 0) (f : A → B) (key : A → Key) (p : A → Bool) (oldest : Bool)
      (page per_page : ℕ) (rows : List A)
      → ((x : A) → p x ≡ true → q x ≡ true)
      → ((x : A) → q x ≡ true → P (f x))
      → All P (map f (limit_offset page per_page (ordered key p oldest rows)))
  page-view P f key p oldest page per_page rows h shown =
      page-view_by P f (λ x y. in_order oldest (key x) (key y)) p page per_page rows h shown
