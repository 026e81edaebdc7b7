-- ===== src/Listing/Members.antt =====
-- What is shown comes from the table: a page, or one row, shows members of it that meet the filters.
use whs_secure_coding.Prelude.{
  All, Bool, Bool-cases, List, Memᴰ, [], ap, drop, find, inl, inr, map, refl, select, some,
  some_injective, suc, sym, take, true, zero, ℕ, ◌*◌, ◌-◌, ◌∷◌, ◌≡◌,
}
use whs_secure_coding.Listing.{insert_row, join, limit_offset, order_by, pair_with}
use mathlib.Core.List.Memᴰ

-- What holds of every row that the filters take holds of the rows of a page.
module _ {A : Type 0} (Q : A → Type 0) where
  pub All-select :
      (p : A → Bool) (xs : List A) → ((x : A) → Memᴰ x xs → p x ≡ true → Q x) → All Q (select p xs)
  unfolding select
  All-select p [] h = tt
  All-select p (x ∷ xs) h =
      let rest = All-select p xs (λ y m k. h y (Memᴰ.tail m) k) in
      elim (Bool-cases (p x)) [
        | inl met ↦ rw met (h x (Memᴰ.head refl) met, rest)
        | inr other ↦ rw other rest
      ]

  All-insert_row :
      (le : A → A → Bool) (x : A) (xs : List A) → Q x → All Q xs → All Q (insert_row le x xs)
  unfolding insert_row
  All-insert_row le x [] h k = (h, tt)
  All-insert_row le x (y ∷ ys) h (k, ks) = elim (Bool-cases (le x y)) [
    | inl before ↦ rw before (h, (k, ks))
    | inr beyond ↦ rw beyond (k, All-insert_row le x ys h ks)
  ]

  All-order_by : (le : A → A → Bool) (xs : List A) → All Q xs → All Q (order_by le xs)
  unfolding order_by
  All-order_by le [] h = tt
  All-order_by le (x ∷ xs) (h, hs) = All-insert_row le x (order_by le xs) h (All-order_by le xs hs)

  All-take : (n : ℕ) (xs : List A) → All Q xs → All Q (take n xs)
  All-take zero xs h = tt
  All-take (suc n) [] h = tt
  All-take (suc n) (x ∷ xs) (h, hs) = (h, All-take n xs hs)

  All-drop : (n : ℕ) (xs : List A) → All Q xs → All Q (drop n xs)
  All-drop zero xs h = h
  All-drop (suc n) [] h = tt
  All-drop (suc n) (x ∷ xs) (h, hs) = All-drop n xs hs

pub All-map :
    {A B : Type 0} (P : B → Type 0) (f : A → B) (xs : List A)
    → All (λ x. P (f x)) xs
    → All P (map f xs)
All-map P f [] h = tt
All-map P f (x ∷ xs) (h, hs) = (h, All-map P f xs hs)

pub page_members :
    {A B : Type 0} (P : B → Type 0) (f : A → B) (le : A → A → Bool) (p : A → Bool)
    (page per_page : ℕ) (rows : List A)
    → ((x : A) → Memᴰ x rows → p x ≡ true → P (f x))
    → All P (map f (limit_offset page per_page (order_by le (select p rows))))
unfolding limit_offset
page_members P f le p page per_page rows h = All-map P f _ (
    All-take (λ x. P (f x)) per_page _
      (All-drop (λ x. P (f x)) ((page - 1) * per_page) _
        (All-order_by (λ x. P (f x)) le _ (All-select (λ x. P (f x)) p rows h))))

pub find-Memᴰ : {A : Type 0} (p : A → Bool) (xs : List A) (x : A) → find p xs ≡ some x → Memᴰ x xs
unfolding find
find-Memᴰ p [] x e = absurd (cc)
find-Memᴰ p (y ∷ xs) x e = elim (Bool-cases (p y)) [
  | inl met ↦ Memᴰ.head (sym (some_injective (rw met at e)))
  | inr other ↦ Memᴰ.tail (find-Memᴰ p xs x (rw other at e))
]

-- A pair of a join has a row of each table, and they match.
module _ {A B : Type 0} where
  Memᴰ-pair_with :
      (a x : A) (p : B → Bool) (bs : List B) (b : B)
      → Memᴰ (x, b) (pair_with a p bs)
      → (x ≡ a) × Memᴰ b bs × (p b ≡ true)
  unfolding pair_with
  Memᴰ-pair_with a x p [] b m = elim m [ ]
  Memᴰ-pair_with a x p (y ∷ bs) b m = elim (Bool-cases (p y)) [
    | inl met ↦ elim (Memᴰ.cases_cons (rw met at m)) [
      | inl e ↦
          let same : b ≡ y = ap (λ (z : A × B). z.1) e in
          (ap (λ (z : A × B). z.0) e, Memᴰ.head same, rw same met)
      | inr k ↦ later (Memᴰ-pair_with a x p bs b k)
    ]
    | inr other ↦ later (Memᴰ-pair_with a x p bs b (rw other at m))
  ]
    where
      later : (x ≡ a) × Memᴰ b bs × (p b ≡ true) → (x ≡ a) × Memᴰ b (y ∷ bs) × (p b ≡ true)
      later (own, k, met) = (own, Memᴰ.tail k, met)

  pub Memᴰ-join :
      (on : A → B → Bool) (xs : List A) (bs : List B) (a : A) (b : B)
      → Memᴰ (a, b) (join on xs bs)
      → Memᴰ a xs × Memᴰ b bs × (on a b ≡ true)
  unfolding join
  Memᴰ-join on [] bs a b m = elim m [ ]
  Memᴰ-join on (x ∷ rest) bs a b m = elim (Memᴰ.append_cases (pair_with x (on x) bs) m) [
    | inl here ↦
        let (own, k, met) = Memᴰ-pair_with x a (on x) bs b here in (Memᴰ.head own, k, rw own met)
    | inr below ↦ let (h, k, met) = Memᴰ-join on rest bs a b below in (Memᴰ.tail h, k, met)
  ]
