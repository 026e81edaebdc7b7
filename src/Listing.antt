-- ===== src/Listing.antt =====
-- The pages of rows that the services list: `.where`, `.order_by(created_at, id)`, `.limit`,
-- `.offset`, inner joins, and `ceil(total / per_page)` (`_pages` of app/admin/services.py).
pub mod Laws
pub mod Members
use whs_secure_coding.Prelude.{
  Bool, List, Option, [], any, count, drop, if◌then◌else◌, leb, ltb, map, none, select, some, take,
  true, ℕ, ◌&&◌, ◌*◌, ◌++◌, ◌+◌, ◌-◌, ◌/◌, ◌==◌, ◌||◌, ◌∷◌,
}
use whs_secure_coding.Session.{query}
use whs_secure_coding.Text.{Text, codes, contains_text, lower, text_eq}

pub record Page (A : Type 0) : Type 0 where
  pub items : List A
  pub page : ℕ
  pub per_page : ℕ
  pub total : ℕ
  pub pages : ℕ

-- `_pages`: the ceiling of the quotient. The program divides as floats, which is exact for a total
-- below 2 ^ 53.
unfoldable pub pages_of : ℕ → ℕ → ℕ
pages_of total per_page = (total + (per_page - 1)) / per_page

-- The columns that rows are ordered by.
pub record Key : Type 0 where
  pub created_at : ℕ
  pub id : ℕ

abbrev pub comes_before : Key → Key → Bool
comes_before j k = ltb j.created_at k.created_at || (j.created_at == k.created_at && leb j.id k.id)

-- The order of two keys, ascending or descending.
abbrev pub in_order : Bool → Key → Key → Bool
in_order oldest j k = if oldest then comes_before j k else comes_before k j

module _ {A : Type 0} (le : A → A → Bool) where
  unfoldable pub insert_row : A → List A → List A
  insert_row x [] = x ∷ []
  insert_row x (y ∷ ys) = let rest = insert_row x ys in if le x y then x ∷ y ∷ ys else y ∷ rest

  -- `.order_by(...)`
  unfoldable pub order_by : List A → List A
  unfolding insert_row
  order_by [] = []
  order_by (x ∷ xs) = insert_row x (order_by xs)

-- `.limit(per_page).offset((page - 1) * per_page)`
unfoldable pub limit_offset : {A : Type 0} → ℕ → ℕ → List A → List A
limit_offset page per_page rows = take per_page (drop ((page - 1) * per_page) rows)

-- `select(...).where(p).order_by(...)`
abbrev pub ordered : {A : Type 0} → (A → Key) → (A → Bool) → Bool → List A → List A
ordered key p oldest rows = order_by (λ x y. in_order oldest (key x) (key y)) (select p rows)

-- A listing: the count, and the page of what the view shows of each row.
unfoldable pub list_page :
    {A B : Type 0} → (A → Key) → (A → B) → (A → Bool) → Bool → ℕ → ℕ → List A → Page B
list_page key view p oldest page per_page rows = record {
  items = map view (limit_offset page per_page (ordered key p oldest rows));
  page = page;
  per_page = per_page;
  total = count p rows;
  pages = pages_of (count p rows) per_page;
}

-- The pairs of a row with the rows of a table that match it.
unfoldable pub pair_with : {A B : Type 0} → A → (B → Bool) → List B → List (A × B)
pair_with a p [] = []
pair_with a p (b ∷ bs) = let rest = pair_with a p bs in if p b then (a, b) ∷ rest else rest

-- `.join(table, on)`
unfoldable pub join : {A B : Type 0} → (A → B → Bool) → List A → List B → List (A × B)
unfolding pair_with
join on [] bs = []
join on (a ∷ rest) bs = pair_with a (on a) bs ++ join on rest bs

-- `column.contains(query, autoescape=True)` under `if query`: SQLite's LIKE, which does not tell the
-- cases of ASCII letters apart.
unfoldable pub meets_query : Option Text → List Text → Bool
unfolding any
meets_query none columns = true
meets_query (some []) columns = true
meets_query (some (c ∷ query)) columns =
    any (λ (column : Text). contains_text (lower (c ∷ query)) (lower column)) columns

-- `sort == "oldest"`
abbrev pub is_oldest : Text → Bool
is_oldest sort = text_eq sort (codes "oldest")
