-- ===== src/Wallet/Retry.antt =====
-- A request that is sent again after its transfer was booked.
use whs_secure_coding.Prelude.{[], arith, refl, some, sym, true, ℕ, ◌++◌, ◌∷◌, ◌≡◌, ◌≢◌}
use whs_secure_coding.Platform.{Platform}
use whs_secure_coding.Schema.{Db, Transfer}
use whs_secure_coding.Session.{ok, open_session}
use whs_secure_coding.Wallet.{
  TransferRequest, TransferResult, create_transfer, credit_recipient, debit_sender, same_payload,
}
use whs_secure_coding.Wallet.Answers.{IsChecked, transfer_repeated}
use whs_secure_coding.Wallet.Booking.{Booking, IsAuthorized, book}
use whs_secure_coding.Wallet.Runs.{Call, Change, after_call, change, found-book}

-- The checks of an authorized request pass again after its booking: a booking changes no user.
IsChecked-again :
    (p : Platform) (q : TransferRequest) (db : Db) (b : Booking) (a : IsAuthorized p q db b)
    → IsChecked p q
        (book b db)
        b.transfer.sender_id
        b.transfer.amount
        a.payee
        b.transfer.idempotency_key
unfolding book debit_sender credit_recipient
IsChecked-again p q db b a = record {
  name = a.name;
  password = a.password;
  token = a.token;
  payer = a.payer;
  sender_given = a.sender;
  amount_given = a.amount;
  named = a.named;
  typed = a.typed;
  token_given = a.token_valid;
  keyed = sym a.key;
  payer_found = a.payer_found;
  password_right = a.password_right;
  payee_found = a.payee_found;
}

same_payload_self :
    (t : Transfer) (payee : ℕ)
    → payee ≡ t.recipient_id
    → same_payload t t.sender_id payee t.amount ≡ true
same_payload_self t payee e = ground arith

-- What a retry answers, and what it leaves committed.
abbrev Repeats : Platform → Call → Db → Transfer → (ℕ → ℕ) → ℕ → Type 0
Repeats p c d t uuids now =
    let (r, s) = create_transfer p c.request (open_session d [] uuids now) in
    (r ≡ ok (record { result = TransferResult.idempotent; transfer_id = some t.id }))
    × (s.committed ≡ d)

retry_of_booking :
    (p : Platform) (db : Db) (c : Call) (b : Booking) (uuids : ℕ → ℕ) (now : ℕ)
    → IsAuthorized p c.request db b
    → Repeats p c (book b db) b.transfer uuids now
retry_of_booking p db c b uuids now a =
    rw (same_payload_self b.transfer a.payee.id a.payee_paid) at (
      transfer_repeated p c.request (book b db) b.transfer.sender_id b.transfer.amount a.payee
        b.transfer.idempotency_key uuids now b.transfer (IsChecked-again p c.request db b a)
        (found-book b db a.key_fresh))

transfers-book : (b : Booking) (db : Db) → (book b db).transfers ≡ db.transfers ++ b.transfer ∷ []
unfolding book debit_sender credit_recipient
transfers-book b db = refl

retry_of_change :
    (p : Platform) (db d : Db) (c : Call) (uuids : ℕ → ℕ) (now : ℕ)
    → Change p c.request db d
    → d ≢ db
    → (t : Transfer) × (d.transfers ≡ db.transfers ++ t ∷ []) × Repeats p c d t uuids now
retry_of_change p db d c uuids now (Change.none_made e) h = absurd (h e)
retry_of_change p db d c uuids now (Change.one_made b k a e) h =
    rw e (b.transfer, transfers-book b db, retry_of_booking p db c b uuids now a)

-- If a call has changed anything, whatever it answered (CREATED, or DATABASE_ERROR where the answer
-- to the commit was lost), then it has added one transfer, and the same request sent again to a
-- database that does what it is asked is answered IDEMPOTENT with the id of that transfer, and
-- changes nothing.
pub retry_idempotent :
    (p : Platform) (db : Db) (c : Call) (uuids : ℕ → ℕ) (now : ℕ)
    → after_call p db c ≢ db
    → (t : Transfer) × ((after_call p db c).transfers ≡ db.transfers ++ t ∷ [])
      × (let (r, s) = create_transfer p c.request (open_session (after_call p db c) [] uuids now) in
          (r ≡ ok (record { result = TransferResult.idempotent; transfer_id = some t.id }))
          × (s.committed ≡ after_call p db c))
retry_idempotent p db c uuids now h =
    retry_of_change p db (after_call p db c) c uuids now (change p db c) h
