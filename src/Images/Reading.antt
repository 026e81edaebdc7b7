-- ===== src/Images/Reading.antt =====
-- The loop of `read_product_image` in app/products/images.py over `os.read`.
use whs_secure_coding.Prelude.{
  Option, [], ap, arith, drop, if◌then◌else◌, inl, inr, leb, length, none, refl, some, subst, suc,
  take, zero, ℕ, ◌++◌, ◌-◌, ◌<◌, ◌∷◌, ◌≡◌, ◌≢◌, ◌≤◌, ◌⊎◌,
}
use whs_secure_coding.Images.{Bytes}

pub data Chunks : Type 0 where
  out_of_fuel os_error : Chunks
  read_bytes : Bytes → Chunks

abbrev smaller : ℕ → ℕ → ℕ
smaller a b = if leb a b then a else b

-- `min(64 * 1024, remaining)` bytes are asked for, and `os.read` returns as many or fewer.
abbrev pub chunk_size : ℕ → ℕ → ℕ
chunk_size more remaining = smaller (suc more) (smaller 65536 remaining)

abbrev prepend : Bytes → Chunks → Chunks
prepend chunk (Chunks.read_bytes rest) = Chunks.read_bytes (chunk ++ rest)
prepend chunk c = c

-- What a call of `os.read` answers, and the chunk that it returned: an empty one ends the loop.
abbrev with_answer : Option ℕ → (ℕ → Chunks) → Chunks
with_answer none k = Chunks.os_error
with_answer (some more) k = k more

abbrev with_chunk : Bytes → (Unit {0} → Chunks) → Chunks
with_chunk [] k = Chunks.read_bytes []
with_chunk (c ∷ chunk) k = prepend (c ∷ chunk) (k tt)

-- `while remaining`: `left` are the bytes of the file that were not read yet, and `n` counts the
-- calls of `os.read`.
unfoldable pub read_chunks : (ℕ → Option ℕ) → ℕ → ℕ → ℕ → Bytes → Chunks
read_chunks reads zero n remaining left = Chunks.out_of_fuel
read_chunks reads (suc fuel) n zero left = Chunks.read_bytes []
read_chunks reads (suc fuel) n (suc k) left = with_answer (reads n) λ more.
    let chunk = take (chunk_size more (suc k)) left in
    with_chunk chunk λ u.
      read_chunks reads fuel (suc n) (suc k - length chunk) (drop (chunk_size more (suc k)) left)

take_none : (n : ℕ) → take {A = ℕ} n [] ≡ []
take_none zero = refl
take_none (suc n) = refl

minus_zero : (a : ℕ) → a - 0 ≡ a
minus_zero a = omega arith

minus_suc : (a b : ℕ) → suc a - suc b ≡ a - b
minus_suc a b = omega arith

-- A part that is read, and what is still asked for of the rest, make up what was asked for.
chunk_then_rest :
    (size remaining : ℕ) (left : Bytes)
    → size ≤ remaining
    → take size left ++ take (remaining - length (take size left)) (drop size left)
      ≡ take remaining left
chunk_then_rest zero remaining left h = rw (minus_zero remaining) refl
chunk_then_rest (suc size) zero left h = absurd (omega arith)
chunk_then_rest (suc size) (suc remaining) [] h = take_none (suc remaining - 0)
chunk_then_rest (suc size) (suc remaining) (x ∷ left) h =
    rw (minus_suc remaining (length (take size left)))
      (ap (λ xs. x ∷ xs) (chunk_then_rest size remaining left (omega arith)))

chunk_size_bound : (more k : ℕ) → chunk_size more (suc k) ≤ suc k
chunk_size_bound more k = ground arith

chunk_size_positive : (more k : ℕ) → (size : ℕ) × (chunk_size more (suc k) ≡ suc size)
chunk_size_positive more k = (chunk_size more (suc k) - 1, ground arith)

-- A chunk is empty at the end of the file only.
empty_chunk : (size : ℕ) (left : Bytes) → take (suc size) left ≡ [] → left ≡ []
empty_chunk size [] h = refl
empty_chunk size (x ∷ left) h = absurd (cc)

prepend_ends :
    (chunk rest all_bytes : Bytes) (r : Chunks)
    → chunk ++ rest ≡ all_bytes
    → (r ≡ Chunks.os_error) ⊎ (r ≡ Chunks.read_bytes rest)
    → (prepend chunk r ≡ Chunks.os_error) ⊎ (prepend chunk r ≡ Chunks.read_bytes all_bytes)
prepend_ends chunk rest all_bytes r whole (inl failed) = inl (rw failed refl)
prepend_ends chunk rest all_bytes r whole (inr read) = inr (rw (read, whole) refl)

-- The loop ended: with an OSError, or with these bytes.
abbrev pub EndsWith : Bytes → Chunks → Type 0
EndsWith whole r = (r ≡ Chunks.os_error) ⊎ (r ≡ Chunks.read_bytes whole)

-- One turn of the loop, where the rest of it ends.
with_chunk-EndsWith :
    (size k : ℕ) (left : Bytes) (rest : Chunks)
    → suc size ≤ suc k
    → ((c : ℕ) (chunk : Bytes)
        → take (suc size) left ≡ c ∷ chunk
        → EndsWith (take (suc k - length (take (suc size) left)) (drop (suc size) left)) rest)
    → EndsWith (take (suc k) left) (with_chunk (take (suc size) left) (λ u. rest))
with_chunk-EndsWith size k left rest fits again = got (take (suc size) left) refl
  where
    got :
        (chunk : Bytes)
        → take (suc size) left ≡ chunk
        → EndsWith (take (suc k) left) (with_chunk chunk (λ u. rest))
    got [] none_left = inr (rw (empty_chunk size left none_left) refl)
    got (c ∷ chunk) e =
        prepend_ends (c ∷ chunk) _ (take (suc k) left) rest
          (subst
            (λ xs.
              xs ++ take (suc k - length (take (suc size) left)) (drop (suc size) left)
              ≡ take (suc k) left)
            e (chunk_then_rest (suc size) (suc k) left fits))
          (again c chunk e)

with_answer-EndsWith :
    (whole : Bytes) (o : Option ℕ) (k : ℕ → Chunks)
    → ((more : ℕ) → EndsWith whole (k more))
    → EndsWith whole (with_answer o k)
with_answer-EndsWith whole none k h = inl refl
with_answer-EndsWith whole (some more) k h = h more

-- With fuel above the number of bytes that are asked for, the loop ends: with an OSError, or with
-- just the bytes asked for, however many each call of `os.read` returns.
pub read_chunks_ends :
    (reads : ℕ → Option ℕ) (fuel n remaining : ℕ) (left : Bytes)
    → remaining < fuel
    → EndsWith (take remaining left) (read_chunks reads fuel n remaining left)
unfolding read_chunks
read_chunks_ends reads zero n remaining left h = absurd (omega arith)
read_chunks_ends reads (suc fuel) n zero left h = inr refl
read_chunks_ends reads (suc fuel) n (suc k) left h =
    with_answer-EndsWith (take (suc k) left) (reads n) _ λ more.
      let (j, positive) = chunk_size_positive more k in
      let fits = chunk_size_bound more k in
      rw positive (
        with_chunk-EndsWith j k left _ (rw positive at fits) λ c chunk e.
          read_chunks_ends reads fuel (suc n) (suc k - length (take (suc j) left))
            (drop (suc j) left) (rw e (omega arith)))

prepend_goes :
    (chunk : Bytes) (r : Chunks) → r ≢ Chunks.os_error → prepend chunk r ≢ Chunks.os_error
prepend_goes chunk Chunks.out_of_fuel h = λ e. cc
prepend_goes chunk Chunks.os_error h = h
prepend_goes chunk (Chunks.read_bytes rest) h = λ e. cc

with_chunk_goes :
    (chunk : Bytes) (r : Chunks) → r ≢ Chunks.os_error → with_chunk chunk (λ u. r) ≢ Chunks.os_error
with_chunk_goes [] r h = λ e. cc
with_chunk_goes (c ∷ chunk) r h = prepend_goes (c ∷ chunk) r h

with_answer_goes :
    (o : Option ℕ) (more : ℕ) (k : ℕ → Chunks)
    → o ≡ some more
    → ((m : ℕ) → k m ≢ Chunks.os_error)
    → with_answer o k ≢ Chunks.os_error
with_answer_goes none more k e h = absurd (cc)
with_answer_goes (some m) more k e h = h m

-- Where every call of `os.read` goes well, so does the loop.
pub read_chunks_goes :
    (reads : ℕ → Option ℕ) (fuel n remaining : ℕ) (left : Bytes)
    → ((i : ℕ) → (more : ℕ) × (reads i ≡ some more))
    → read_chunks reads fuel n remaining left ≢ Chunks.os_error
unfolding read_chunks
read_chunks_goes reads zero n remaining left h = λ e. cc
read_chunks_goes reads (suc fuel) n zero left h = λ e. cc
read_chunks_goes reads (suc fuel) n (suc k) left h =
    with_answer_goes (reads n) (h n).0 _ (h n).1 λ more.
      with_chunk_goes (take (chunk_size more (suc k)) left) _
        (read_chunks_goes reads fuel (suc n) _ _ h)
