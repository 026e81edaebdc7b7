-- ===== src/Session/Ends.antt =====
-- How a call can end, whatever the database does: rules for a postcondition on the result, on what
-- the transaction sees and on what is committed.
use whs_secure_coding.Prelude.{
  Bool, Bool-cases, Option, ap, false, inl, inr, none, refl, some, subst, suc, sym, true, ℕ, ◌≡◌,
}
use whs_secure_coding.Schema.{Db}
use whs_secure_coding.Session.{
  Error, Result, Session, Signal, Tx, after, attempt, commit, execute, first_signal, flush,
  integrity_error, modify, new_uuid, ok, or_return, pure, query, raise, raised, return_if, rollback,
  sqlalchemy_error, utc_now, ◌>>=◌, answer, continue, handle, settle, written,
}

-- A postcondition: of the result, of what is seen and of what is committed.
abbrev pub Post : Type 0 → Type 1
Post A = Result A → Db → Db → Type 0

-- Begun where `w` is seen and `d` is committed, `m` ends with `Q`.
pub record Ends {A : Type 0} (w d : Db) (m : Tx A) (Q : Post A) : Type 0 where
  pub at :
      (s : Session) → s.working ≡ w → s.committed ≡ d → Q (m s).0 (m s).1.working (m s).1.committed

module _ {A : Type 0} {w d : Db} {Q : Post A} where
  pub Ends-pure : (a : A) → Q (ok a) w d → Ends w d (pure a) Q
  unfolding ◌>>=◌
  Ends-pure a q = record { at = λ s hw hd. rw (hw, hd) q }

  pub Ends-raise : (e : Error) → Q (raised e) w d → Ends w d (raise e) Q
  unfolding ◌>>=◌
  Ends-raise e q = record { at = λ s hw hd. rw (hw, hd) q }

  pub Ends-return_if :
      (b : Bool) {m n : Tx A}
      → (b ≡ true → Ends w d m Q)
      → (b ≡ false → Ends w d n Q)
      → Ends w d (return_if b m n) Q
  unfolding ◌>>=◌
  Ends-return_if true hm hn = hm refl
  Ends-return_if false hm hn = hn refl

pub Ends-weaken :
    {A : Type 0} {w d : Db} (Q R : Post A) {m : Tx A}
    → ((r : Result A) (w' d' : Db) → Q r w' d' → R r w' d')
    → Ends w d m Q
    → Ends w d m R
Ends-weaken Q R {m} f h = record {
  at = λ s hw hd. f (m s).0 (m s).1.working (m s).1.committed (h.at s hw hd);
}

-- What must hold of the first part of a block for the rest to end with `Q`.
abbrev pub Before : {A B : Type 0} → (A → Tx B) → Post B → Post A
Before k Q (ok a) w d = Ends w d (k a) Q
Before k Q (raised e) w d = Q (raised e) w d

-- What must hold of the body of a `try` for the whole to end with `Q`.
abbrev pub Caught : {A : Type 0} → (Error → Tx A) → Post A → Post A
Caught h Q (ok a) w d = Q (ok a) w d
Caught h Q (raised e) w d = Ends w d (h e) Q

continue-Ends :
    {A B : Type 0} (k : A → Tx B) (Q : Post B) (r : Result A) (s : Session)
    → Before k Q r s.working s.committed
    → Q (continue r k s).0 (continue r k s).1.working (continue r k s).1.committed
continue-Ends k Q (ok a) s h = h.at s refl refl
continue-Ends k Q (raised e) s h = h

handle-Ends :
    {A : Type 0} (h : Error → Tx A) (Q : Post A) (r : Result A) (s : Session)
    → Caught h Q r s.working s.committed
    → Q (handle h r s).0 (handle h r s).1.working (handle h r s).1.committed
handle-Ends h Q (ok a) s c = c
handle-Ends h Q (raised e) s c = c.at s refl refl

module _ {A B : Type 0} {w d : Db} {Q : Post B} where
  pub Ends-bind : (m : Tx A) {k : A → Tx B} → Ends w d m (Before k Q) → Ends w d (m >>= k) Q
  unfolding ◌>>=◌
  Ends-bind m {k} h = record { at = λ s hw hd. continue-Ends k Q (m s).0 (m s).1 (h.at s hw hd) }

  pub Ends-or_return :
      (o : Option A) {n : Tx B} {k : A → Tx B}
      → (o ≡ none → Ends w d n Q)
      → ((a : A) → o ≡ some a → Ends w d (k a) Q)
      → Ends w d (or_return o n k) Q
  unfolding ◌>>=◌
  Ends-or_return none hn hk = hn refl
  Ends-or_return (some a) hn hk = hk a refl

module _ {A : Type 0} {w d : Db} {Q : Post A} where
  pub Ends-attempt :
      (m : Tx A) {h : Error → Tx A} → Ends w d m (Caught h Q) → Ends w d (attempt m h) Q
  unfolding ◌>>=◌
  Ends-attempt m {h} body = record {
    at = λ s hw hd. handle-Ends h Q (m s).0 (m s).1 (body.at s hw hd);
  }

-- The statements. A failure leaves what is seen and what is committed.
module _ {A B : Type 0} {w d : Db} (Q : Post B) (k : A → Tx B) where
  answer-Before :
      (g : Signal) (a : A)
      → ((e : Error) → Q (raised e) w d)
      → Ends w d (k a) Q
      → Before k Q (answer g a) w d
  answer-Before Signal.fine a fails h = h
  answer-Before Signal.integrity a fails h = fails integrity_error
  answer-Before Signal.operational a fails h = fails sqlalchemy_error
  answer-Before Signal.lost a fails h = fails sqlalchemy_error

  written-Before :
      (g : Signal) (a : A) (w' : Db) (s : Session)
      → s.working ≡ w
      → s.committed ≡ d
      → ((e : Error) → Q (raised e) w d)
      → Ends w' d (k a) Q
      → Before k Q (answer g a) (written g w' s).working (written g w' s).committed
  written-Before Signal.fine a w' s hw hd fails h = rw hd h
  written-Before Signal.integrity a w' s hw hd fails h = rw (hw, hd) (fails integrity_error)
  written-Before Signal.operational a w' s hw hd fails h = rw (hw, hd) (fails sqlalchemy_error)
  written-Before Signal.lost a w' s hw hd fails h = rw (hw, hd) (fails sqlalchemy_error)

module _ {A B : Type 0} {w d : Db} {Q : Post B} where
  pub Ends-query :
      (f : Db → A) (k : A → Tx B)
      → ((e : Error) → Q (raised e) w d)
      → Ends w d (k (f w)) Q
      → Ends w d (query f >>= k) Q
  unfolding ◌>>=◌ query
  Ends-query f k fails h = Ends-bind (query f) (record {
    at = λ s hw hd. rw (hw, hd) (answer-Before Q k (first_signal s.signals) (f w) fails h);
  })

  pub Ends-execute :
      (f : Db → Db × A) (k : A → Tx B)
      → ((e : Error) → Q (raised e) w d)
      → Ends (f w).0 d (k (f w).1) Q
      → Ends w d (execute f >>= k) Q
  unfolding ◌>>=◌ execute
  Ends-execute f k fails h = Ends-bind (execute f) (record {
    at = λ s hw hd.
        let t : Session = after s in
        subst
          (λ v.
            Before k Q (answer (first_signal s.signals) (f v).1)
              (written (first_signal s.signals) (f v).0 t).working
              (written (first_signal s.signals) (f v).0 t).committed)
          (sym hw) (written-Before Q k (first_signal s.signals) (f w).1 (f w).0 t hw hd fails h);
  })

module _ {B : Type 0} {w d : Db} {Q : Post B} where
  pub Ends-rollback : (k : Unit {0} → Tx B) → Ends d d (k tt) Q → Ends w d (rollback >>= k) Q
  unfolding ◌>>=◌
  Ends-rollback k h = record { at = λ s hw hd. h.at (record s { working = s.committed }) hd hd }

  pub Ends-modify :
      (f : Db → Db) (k : Unit {0} → Tx B) → Ends (f w) d (k tt) Q → Ends w d (modify f >>= k) Q
  unfolding ◌>>=◌
  Ends-modify f k h = record {
    at = λ s hw hd. h.at (record s { working = f s.working }) (ap f hw) hd;
  }

  pub Ends-new_uuid : (k : ℕ → Tx B) → ((i : ℕ) → Ends w d (k i) Q) → Ends w d (new_uuid >>= k) Q
  unfolding ◌>>=◌
  Ends-new_uuid k h = record {
    at = λ s hw hd. (h (s.uuids 0)).at (record s { uuids = λ n. s.uuids (suc n) }) hw hd;
  }

  pub Ends-utc_now : (k : ℕ → Tx B) → ((t : ℕ) → Ends w d (k t) Q) → Ends w d (utc_now >>= k) Q
  unfolding ◌>>=◌
  Ends-utc_now k h = record { at = λ s hw hd. (h s.now).at s hw hd }

  pub Ends-flush :
      (allowed : Db → Bool) (add : Db → Db) (k : Unit {0} → Tx B)
      → ((e : Error) → Q (raised e) w d)
      → (allowed w ≡ true → Ends (add w) d (k tt) Q)
      → Ends w d (flush allowed add >>= k) Q
  unfolding ◌>>=◌ flush
  Ends-flush allowed add k fails h = record {
    at = λ s hw hd. elim (Bool-cases (allowed s.working)) [
      | inl yes_allowed ↦
          rw yes_allowed
            ((Ends-execute (λ db. (add db, tt)) k fails (h (rw hw at yes_allowed))).at s hw hd)
      | inr refused ↦ rw (refused, hw, hd) (fails integrity_error)
    ];
  }

  settle-Before :
      (k : Unit {0} → Tx B) (g : Signal) (s : Session)
      → s.working ≡ w
      → s.committed ≡ d
      → ((e : Error) → Q (raised e) w d)
      → Q (raised sqlalchemy_error) w w
      → Ends w w (k tt) Q
      → Before k Q (settle g s).0 (settle g s).1.working (settle g s).1.committed
  settle-Before k Signal.fine s hw hd fails lost h = rw hw h
  settle-Before k Signal.integrity s hw hd fails lost h = rw (hw, hd) (fails integrity_error)
  settle-Before k Signal.operational s hw hd fails lost h = rw (hw, hd) (fails sqlalchemy_error)
  settle-Before k Signal.lost s hw hd fails lost h = rw hw lost

  -- A commit may take effect and raise all the same.
  pub Ends-commit :
      (k : Unit {0} → Tx B)
      → ((e : Error) → Q (raised e) w d)
      → Q (raised sqlalchemy_error) w w
      → Ends w w (k tt) Q
      → Ends w d (commit >>= k) Q
  unfolding ◌>>=◌ commit
  Ends-commit k fails lost h = Ends-bind commit (record {
    at = λ s hw hd. settle-Before k (first_signal s.signals) (after s) hw hd fails lost h;
  })

-- A postcondition that an exception meets where nothing is committed.
abbrev pub Unless : {A : Type 0} → Db → (Db → A → Type 0) → Post A
Unless db P (ok a) w d = P d a
Unless db P (raised e) w d = d ≡ db

-- What is then committed, of a run from `db`.
pub Unless-committed :
    {A : Type 0} {db : Db} (P : Db → A → Type 0) (R : Db → Type 0) (r : Result A) (w d : Db)
    → Unless db P r w d
    → R db
    → ((a : A) → P d a → R d)
    → R d
Unless-committed P R (ok a) w d h base step = step a h
Unless-committed P R (raised e) w d h base step = subst R (sym h) base
