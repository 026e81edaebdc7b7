-- ===== src/Wallet/Booking.antt =====
-- The effect of a transfer on the database, and where it may come from.
use whs_secure_coding.Prelude.{[], none, some, true, ℕ, ◌∷◌, ◌≡◌, ◌≢◌}
use whs_secure_coding.Audit.{add_row, entry}
use whs_secure_coding.Platform.{Platform}
use whs_secure_coding.Schema.{AuditLog, Db, Transfer, User, Value, is_active}
use whs_secure_coding.Schema.Constraints.{transfer_allowed}
use whs_secure_coding.Text.{Text}
use whs_secure_coding.Wallet.{
  TransferOutcome, TransferRequest, TransferResult, add_transfer, checked_amount, checked_password,
  credit_recipient, debit_sender, existing_transfer, find_recipient, find_sender,
}
use whs_secure_coding.Wallet.Policy.{
  derive_idempotency_key, normalize_recipient_username, valid_idempotency_token,
}

-- A booking: the row of the transfer and the row of the audit log.
pub record Booking : Type 0 where
  pub transfer : Transfer
  pub audit_id : ℕ
  pub audited_at : ℕ

abbrev pub audit_row : Booking → AuditLog
audit_row b =
    entry b.audit_id b.audited_at (some b.transfer.sender_id) "transfer.created" "transfer"
      (some b.transfer.id) (some (("amount", Value.num b.transfer.amount) ∷ []))

abbrev pub debited : Booking → Db → Db × ℕ
debited b db = debit_sender b.transfer.sender_id b.transfer.amount (add_transfer b.transfer db)

abbrev pub credited : Booking → Db → Db × ℕ
credited b db = credit_recipient b.transfer.recipient_id b.transfer.amount (debited b db).0

-- The database after a booking.
unfoldable pub book : Booking → Db → Db
book b db = add_row (audit_row b) (credited b db).0

-- What holds of a booking that is made: the database takes the row, and both updates meet one row.
pub record IsBookable (db : Db) (b : Booking) : Type 0 where
  pub allowed : transfer_allowed db b.transfer ≡ true
  pub one_debit : (debited b db).1 ≡ 1
  pub one_credit : (credited b db).1 ≡ 1

-- The call has changed nothing.
pub record Refused (db d : Db) (o : TransferOutcome) : Type 0 where
  pub same : d ≡ db
  pub not_created : o.result ≢ TransferResult.created

-- A booking of sender, recipient, amount and key.
pub record IsFor (sender recipient amount : ℕ) (key : Text) (b : Booking) : Type 0 where
  pub sender_is : b.transfer.sender_id ≡ sender
  pub recipient_is : b.transfer.recipient_id ≡ recipient
  pub amount_is : b.transfer.amount ≡ amount
  pub key_is : b.transfer.idempotency_key ≡ key

-- What a request must have shown for its booking: the checks of `create_transfer`, on what was
-- committed when the call began.
pub record IsAuthorized (p : Platform) (q : TransferRequest) (db : Db) (b : Booking) : Type 0 where
  pub name : Text
  pub password : Text
  pub token : Text
  pub payer : User
  pub payee : User
  pub sender : q.sender_id ≡ some b.transfer.sender_id
  pub amount : checked_amount q.amount ≡ some b.transfer.amount
  pub named : normalize_recipient_username q.recipient_username ≡ some name
  pub payee_found : find_recipient name db ≡ some payee
  pub payee_paid : payee.id ≡ b.transfer.recipient_id
  pub payee_active : is_active payee.status ≡ true
  pub payer_found : find_sender b.transfer.sender_id db ≡ some payer
  pub typed : checked_password q.current_password ≡ some password
  pub password_right : p.check_password_hash payer.password_hash password ≡ true
  pub token_valid : valid_idempotency_token q.raw_idempotency_token ≡ some token
  pub key : b.transfer.idempotency_key ≡ derive_idempotency_key p b.transfer.sender_id token
  pub key_fresh : existing_transfer b.transfer.idempotency_key db ≡ none
