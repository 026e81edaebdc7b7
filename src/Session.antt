-- ===== src/Session.antt =====
-- The SQLAlchemy session that app/extensions.py makes (`db.session`), as the services use it: what is
-- committed, what the open transaction sees, and exceptions. The database and its driver are not
-- code of the repository; what they may do at each statement is chosen by `signals`, one for each
-- call in order, and a call beyond the end of the list goes well.
pub mod Ends
pub mod Reads
use whs_secure_coding.Prelude.{Bool, List, Option, [], if◌then◌else◌, none, some, suc, ℕ, ◌∷◌}
use whs_secure_coding.Schema.{Db}

-- What one call of the database does. A statement that is not a commit has no acknowledgement to
-- lose: `lost` is one more failure there.
pub data Signal : Type 0 where
  fine integrity operational lost : Signal

-- IntegrityError; another SQLAlchemyError; a ValueError, which the program itself raises.
pub data Error : Type 0 where
  integrity_error sqlalchemy_error value_error : Error

pub data Result (A : Type 0) : Type 0 where
  ok : A → Result A
  raised : Error → Result A

-- `uuids` are the values that `uuid.uuid4()` will return, and `now` is the time.
pub record Session : Type 0 where
  pub committed : Db
  pub working : Db
  pub signals : List Signal
  pub uuids : ℕ → ℕ
  pub now : ℕ

-- A session at the start of a request.
abbrev pub open_session : Db → List Signal → (ℕ → ℕ) → ℕ → Session
open_session db signals uuids now = record {
  committed = db;
  working = db;
  signals = signals;
  uuids = uuids;
  now = now;
}

abbrev pub Tx : Type 0 → Type 0
Tx A = Session → Result A × Session

abbrev continue : {A B : Type 0} → Result A → (A → Tx B) → Tx B
continue (ok a) f s = f a s
continue (raised e) f s = (raised e, s)

module _ {A : Type 0} where
  unfoldable pub pure : A → Tx A
  pure a s = (ok a, s)

  unfoldable pub raise : Error → Tx A
  raise e s = (raised e, s)

  abbrev handle : (Error → Tx A) → Result A → Tx A
  handle h (ok a) s = (ok a, s)
  handle h (raised e) s = h e s

  -- `try: m` with its `except` clauses.
  unfoldable pub attempt : Tx A → (Error → Tx A) → Tx A
  attempt m h s = let (r, s') = m s in handle h r s'

-- `if test: return ...`, and the rest of the block.
unfoldable pub return_if : {B : Type 0} → Bool → Tx B → Tx B → Tx B
return_if test n k = if test then n else k

-- `if o is None: return ...`, and the rest of the block with the value.
unfoldable pub or_return : {A B : Type 0} → Option A → Tx B → (A → Tx B) → Tx B
or_return none n k = n
or_return (some a) n k = k a

abbrev pub first_signal : List Signal → Signal
first_signal [] = Signal.fine
first_signal (g ∷ gs) = g

abbrev pub later_signals : List Signal → List Signal
later_signals [] = []
later_signals (g ∷ gs) = gs

abbrev pub after : Session → Session
after s = record s { signals = later_signals s.signals }

abbrev answer : {A : Type 0} → Signal → A → Result A
answer Signal.fine a = ok a
answer Signal.integrity a = raised integrity_error
answer Signal.operational a = raised sqlalchemy_error
answer Signal.lost a = raised sqlalchemy_error

-- `db.session.execute(select ...)`: reads what the transaction sees.
unfoldable pub query : {A : Type 0} → (Db → A) → Tx A
query f s = (answer (first_signal s.signals) (f s.working), after s)

abbrev written : Signal → Db → Session → Session
written Signal.fine db s = record s { working = db }
written _ db s = s

-- `db.session.execute(update ...)`, with what it returns of the rows that it met.
unfoldable pub execute : {A : Type 0} → (Db → Db × A) → Tx A
execute f s =
    let (db, a) = f s.working in
    (answer (first_signal s.signals) a, written (first_signal s.signals) db (after s))

abbrev settle : Signal → Session → Result (Unit {0}) × Session
settle Signal.fine s = (ok tt, record s { committed = s.working })
settle Signal.integrity s = (raised integrity_error, s)
settle Signal.operational s = (raised sqlalchemy_error, s)
settle Signal.lost s = (raised sqlalchemy_error, record s { committed = s.working })

-- `db.session.commit()`: an exception leaves it open whether the transaction took effect.
unfoldable pub commit : Tx (Unit {0})
commit s = settle (first_signal s.signals) (after s)

-- `db.session.rollback()`
unfoldable pub rollback : Tx (Unit {0})
rollback s = (ok tt, record s { working = s.committed })

-- A new row that is flushed: the database takes it, or raises IntegrityError.
unfoldable pub flush : (Db → Bool) → (Db → Db) → Tx (Unit {0})
unfolding execute
flush allowed add s =
    if allowed s.working then execute (λ db. (add db, tt)) s else (raised integrity_error, after s)

-- A change of the objects of the session, with no statement of its own.
unfoldable pub modify : (Db → Db) → Tx (Unit {0})
modify f s = (ok tt, record s { working = f s.working })

-- `new_uuid()`
unfoldable pub new_uuid : Tx ℕ
new_uuid s = (ok (s.uuids 0), record s { uuids = λ n. s.uuids (suc n) })

-- `utc_now()`
unfoldable pub utc_now : Tx ℕ
utc_now s = (ok s.now, s)

-- The rest of a block after a call that may raise. Opening it opens all of the above.
infixl 10 ◌>>=◌ ◌>>◌
unfoldable pub ◌>>=◌ : {A B : Type 0} → Tx A → (A → Tx B) → Tx B
unfolding pure raise attempt return_if or_return query execute commit rollback flush modify new_uuid
    utc_now
◌>>=◌ m f s = let (r, s') = m s in continue r f s'

abbrev pub ◌>>◌ : {A B : Type 0} → Tx A → Tx B → Tx B
m >> k = m >>= λ _. k
