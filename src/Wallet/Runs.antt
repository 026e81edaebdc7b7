-- ===== src/Wallet/Runs.antt =====
-- Calls of `create_transfer` one after another, each on a session of its own: BEGIN IMMEDIATE makes
-- the writers of a database take turns. A call brings what the database will do to it.
use whs_secure_coding.Prelude.{
  All, List, [], arith, find, find-append_none, inl, inr, length, length-append, none, refl, some,
  subst, ℕ, ◌+◌, ◌∙◌, ◌∷◌, ◌≡◌, ◌≢◌, ◌⊎◌,
}
use whs_secure_coding.Platform.{Platform}
use whs_secure_coding.Schema.{Db, Transfer}
use whs_secure_coding.Session.{Signal, open_session}
use whs_secure_coding.Text.{Text, text_eq}
use whs_secure_coding.Text.Laws.{text_eq_refl}
use whs_secure_coding.Wallet.{
  TransferOutcome, TransferRequest, create_transfer, credit_recipient, debit_sender,
  existing_transfer,
}
use whs_secure_coding.Wallet.Atomic.{create_transfer_atomic}
use whs_secure_coding.Wallet.Booking.{Booking, IsAuthorized, IsBookable, book}
use whs_secure_coding.Wallet.Effect.{Effect}
use whs_secure_coding.Wallet.Money.{IsReconciled, book-IsReconciled, book_conserves, total}
use whs_secure_coding.Wallet.Policy.{derive_idempotency_key, valid_idempotency_token}

pub record Call : Type 0 where
  pub request : TransferRequest
  pub signals : List Signal
  pub uuids : ℕ → ℕ
  pub now : ℕ

-- What is committed after a call.
unfoldable pub after_call : Platform → Db → Call → Db
after_call p db c =
    (create_transfer p c.request (open_session db c.signals c.uuids c.now)).1.committed

-- What is committed after a sequence of calls.
unfoldable pub after_calls : Platform → Db → List Call → Db
after_calls p db [] = db
after_calls p db (c ∷ cs) = after_calls p (after_call p db c) cs

-- A call leaves the database, or books.
pub data Change (p : Platform) (q : TransferRequest) (db d : Db) : Type 0 where
  none_made : d ≡ db → Change p q db d
  one_made :
      (b : Booking) → IsBookable db b → IsAuthorized p q db b → d ≡ book b db → Change p q db d

change_of_effect :
    (p : Platform) (q : TransferRequest) (db d : Db) (o : TransferOutcome)
    → Effect (IsAuthorized p q db) db d o
    → Change p q db d
change_of_effect p q db d o (Effect.refused r) = none_made r.same
change_of_effect p q db d o (Effect.booked b h) = one_made b h.bookable h.granted h.after

pub change : (p : Platform) (db : Db) (c : Call) → Change p c.request db (after_call p db c)
unfolding after_call
change p db c =
    let (o, _, e) = create_transfer_atomic p c.request db c.signals c.uuids c.now in
    change_of_effect p c.request db _ o e

total-Change :
    (p : Platform) (q : TransferRequest) (db d : Db) → Change p q db d → total d ≡ total db
total-Change p q db d (none_made e) = rw e
total-Change p q db d (one_made b h a e) = rw e (book_conserves db b h)

IsReconciled-Change :
    (p : Platform) (q : TransferRequest) (db d : Db)
    → Change p q db d
    → IsReconciled db
    → IsReconciled d
IsReconciled-Change p q db d (none_made e) r = rw e r
IsReconciled-Change p q db d (one_made b h a e) r = rw e (book-IsReconciled db b h r)

-- Whatever requests arrive, and whatever the database does to each call, the sum of all balances
-- stays what it was.
pub after_calls_conserve :
    (p : Platform) (cs : List Call) (db : Db) → total (after_calls p db cs) ≡ total db
unfolding after_calls
after_calls_conserve p [] db = refl
after_calls_conserve p (c ∷ cs) db =
    after_calls_conserve p cs (after_call p db c) ∙ total-Change p c.request db _ (change p db c)

-- Where every balance agrees with the transfers (what the user's wallets were given, less what the
-- user sent, with what the user received), it still does after any calls, failing or not.
pub after_calls-IsReconciled :
    (p : Platform) (cs : List Call) (db : Db) → IsReconciled db → IsReconciled (after_calls p db cs)
unfolding after_calls
after_calls-IsReconciled p [] db r = r
after_calls-IsReconciled p (c ∷ cs) db r =
    after_calls-IsReconciled p cs (after_call p db c)
      (IsReconciled-Change p c.request db _ (change p db c) r)

-- Each call is for this sender, and carries this token.
abbrev pub Carries : ℕ → Text → Call → Type 0
Carries sender token c =
    (c.request.sender_id ≡ some sender)
    × (valid_idempotency_token c.request.raw_idempotency_token ≡ some token)

-- A transfer of this sender and token is there.
abbrev pub IsSpent : Platform → ℕ → Text → Db → Type 0
IsSpent p sender token db = existing_transfer (derive_idempotency_key p sender token) db ≢ none

key_of :
    (p : Platform) (db : Db) (b : Booking) (c : Call) (sender : ℕ) (token : Text)
    → Carries sender token c
    → IsAuthorized p c.request db b
    → b.transfer.idempotency_key ≡ derive_idempotency_key p sender token
key_of p db b c sender token h a = ground (arith, a.key, a.sender, a.token_valid)

-- Once a transfer of the sender and token is there, no call that carries them changes anything,
-- whatever else it asks for.
spent_call :
    (p : Platform) (db : Db) (c : Call) (sender : ℕ) (token : Text)
    → Carries sender token c
    → IsSpent p sender token db
    → Change p c.request db (after_call p db c)
    → after_call p db c ≡ db
spent_call p db c sender token h s (none_made e) = e
spent_call p db c sender token h s (one_made b k a e) =
    absurd (
      s (subst (λ x. existing_transfer x db ≡ none) (key_of p db b c sender token h a) a.key_fresh))

length-book : (b : Booking) (db : Db) → length (book b db).transfers ≡ length db.transfers + 1
unfolding book debit_sender credit_recipient
length-book b db = omega (arith, length-append db.transfers (b.transfer ∷ []))

pub found-book :
    (b : Booking) (db : Db)
    → existing_transfer b.transfer.idempotency_key db ≡ none
    → existing_transfer b.transfer.idempotency_key (book b db) ≡ some b.transfer
unfolding book debit_sender credit_recipient existing_transfer find
found-book b db fresh =
    find-append_none (λ (t : Transfer). text_eq t.idempotency_key b.transfer.idempotency_key)
      db.transfers (b.transfer ∷ []) fresh
    ∙ (rw (text_eq_refl b.transfer.idempotency_key) refl)

book-IsSpent :
    (p : Platform) (db : Db) (b : Booking) (c : Call) (sender : ℕ) (token : Text)
    → Carries sender token c
    → IsAuthorized p c.request db b
    → IsSpent p sender token (book b db)
book-IsSpent p db b c sender token h a =
    subst (λ x. existing_transfer x (book b db) ≢ none) (key_of p db b c sender token h a)
      (λ e. cc (found-book b db a.key_fresh))

-- While the transfer is there, calls that carry its sender and token change nothing.
pub spent_calls :
    (p : Platform) (sender : ℕ) (token : Text) (cs : List Call) (db : Db)
    → All (Carries sender token) cs
    → IsSpent p sender token db
    → after_calls p db cs ≡ db
unfolding after_calls
spent_calls p sender token [] db h s = refl
spent_calls p sender token (c ∷ cs) db h s =
    let e = spent_call p db c sender token h.0 s (change p db c) in
    rw e (spent_calls p sender token cs db h.1 s)

abbrev AtMostOne : Db → Db → Type 0
AtMostOne db d = (d ≡ db) ⊎ (length d.transfers ≡ length db.transfers + 1)

first_call :
    (p : Platform) (sender : ℕ) (token : Text) (c : Call) (cs : List Call) (db : Db)
    → All (Carries sender token) (c ∷ cs)
    → AtMostOne (after_call p db c) (after_calls p (after_call p db c) cs)
    → Change p c.request db (after_call p db c)
    → AtMostOne db (after_calls p (after_call p db c) cs)
first_call p sender token c cs db h ih (none_made e) =
    rw e (subst (λ d. AtMostOne d (after_calls p d cs)) e ih)
first_call p sender token c cs db h ih (one_made b k a e) =
    rw (e, spent_calls p sender token cs (book b db) h.1 (book-IsSpent p db b c sender token h.0 a))
      (inr (length-book b db))

-- Of all calls that carry one sender and one token (the first try, every retry after an error or a
-- lost answer, and requests that reuse the token for something else), at most one books a transfer:
-- afterwards the database is as it was, or holds exactly one transfer more.
pub one_transfer_per_token :
    (p : Platform) (sender : ℕ) (token : Text) (cs : List Call) (db : Db)
    → All (Carries sender token) cs
    → (after_calls p db cs ≡ db)
      ⊎ (length (after_calls p db cs).transfers ≡ length db.transfers + 1)
unfolding after_calls
one_transfer_per_token p sender token [] db h = inl refl
one_transfer_per_token p sender token (c ∷ cs) db h =
    first_call p sender token c cs db h
      (one_transfer_per_token p sender token cs (after_call p db c) h.1) (change p db c)
