-- ===== src/Wallet.antt =====
-- app/wallet/services.py: `create_transfer` and its parts. The policy of app/wallet/policy.py is the
-- child Policy; the proofs stand in the other children.
pub mod Policy
pub mod Booking
pub mod Effect
pub mod Atomic
pub mod Money
pub mod Runs
pub mod Answers
pub mod Retry
pub mod Keys
pub mod History
pub mod HistoryLaws
mod Tests
use whs_secure_coding.Prelude.{
  Bool, Option, [], any, count, find, if◌then◌else◌, leb, length, none, not, some, update, ℕ, ◌&&◌,
  ◌++◌, ◌+◌, ◌-◌, ◌==◌, ◌∷◌,
}
use whs_secure_coding.Audit.{add_audit_log}
use whs_secure_coding.Config.{transfer_max_amount, transfer_min_amount}
use whs_secure_coding.Platform.{Platform}
use whs_secure_coding.Schema.{Db, Transfer, User, Value, Wallet, is_active}
use whs_secure_coding.Schema.Constraints.{transfer_allowed}
use whs_secure_coding.Session.{
  Error, Tx, attempt, commit, execute, flush, integrity_error, new_uuid, or_return, pure, query,
  return_if, rollback, utc_now, ◌>>=◌, ◌>>◌,
}
use whs_secure_coding.Text.{Text, text_eq}
use Policy.{Arg, normalize_recipient_username, valid_idempotency_token, derive_idempotency_key}

pub data TransferResult : Type 0 where
  created idempotent idempotency_conflict self_transfer recipient_unavailable : TransferResult
  current_password_invalid insufficient_funds database_error : TransferResult

pub record TransferOutcome : Type 0 where
  pub result : TransferResult
  pub transfer_id : Option ℕ

-- `TransferOutcome(result)`
abbrev pub outcome : TransferResult → TransferOutcome
outcome r = record { result = r; transfer_id = none }

-- `_rollback_outcome`
abbrev pub rollback_outcome : TransferOutcome → Tx TransferOutcome
rollback_outcome o = rollback >> pure o

-- `_begin_write_transaction`
abbrev begin_write_transaction : Tx (Unit {0})
begin_write_transaction = do rollback; query (λ db. tt); pure tt

-- `_existing_transfer`
unfoldable pub existing_transfer : Text → Db → Option Transfer
existing_transfer key db = find (λ (t : Transfer). text_eq t.idempotency_key key) db.transfers

abbrev pub same_payload : Transfer → ℕ → ℕ → ℕ → Bool
same_payload t sender recipient amount =
    t.sender_id == sender && t.recipient_id == recipient && t.amount == amount

-- What `_resolve_existing` makes of the row that it found.
abbrev pub resolved : Option Transfer → ℕ → ℕ → ℕ → Option TransferOutcome
resolved none sender recipient amount = none
resolved (some t) sender recipient amount = some (
    if same_payload t sender recipient amount
    then record { result = TransferResult.idempotent; transfer_id = some t.id }
    else outcome TransferResult.idempotency_conflict)

-- `_resolve_existing`
abbrev pub resolve_existing : Text → ℕ → ℕ → ℕ → Tx (Option TransferOutcome)
resolve_existing key sender recipient amount = do
  existing ← query (existing_transfer key)
  pure (resolved existing sender recipient amount)

unfoldable pub active_user_exists : Db → ℕ → Bool
active_user_exists db id = any (λ (u : User). u.id == id && is_active u.status) db.users

abbrev pub can_debit : Db → ℕ → ℕ → Wallet → Bool
can_debit db sender amount w =
    w.user_id == sender && leb amount w.balance && active_user_exists db sender

abbrev pub can_credit : Db → ℕ → Wallet → Bool
can_credit db recipient w = w.user_id == recipient && active_user_exists db recipient

-- `_debit_sender`: one conditional UPDATE, and its `rowcount`.
unfoldable pub debit_sender : ℕ → ℕ → Db → Db × ℕ
debit_sender sender amount db =
    let p = can_debit db sender amount in
    (
      record db {
        wallets = update p (λ (w : Wallet). record w { balance = w.balance - amount }) db.wallets;
      },
      count p db.wallets,
    )

-- `_credit_recipient`
unfoldable pub credit_recipient : ℕ → ℕ → Db → Db × ℕ
credit_recipient recipient amount db =
    let p = can_credit db recipient in
    (
      record db {
        wallets = update p (λ (w : Wallet). record w { balance = w.balance + amount }) db.wallets;
      },
      count p db.wallets,
    )

-- `db.session.add(transfer)`
abbrev pub add_transfer : Transfer → Db → Db
add_transfer t db = record db { transfers = db.transfers ++ t ∷ [] }

-- `select(User.id, User.password_hash).where(User.id == sender_id, User.status == "active")`
abbrev pub find_sender : ℕ → Db → Option User
find_sender id db = find (λ (u : User). u.id == id && is_active u.status) db.users

-- `select(User.id, User.status).where(User.username == normalized_recipient)`
abbrev pub find_recipient : Text → Db → Option User
find_recipient name db = find (λ (u : User). text_eq u.username name) db.users

-- `select(Wallet.user_id).where(Wallet.user_id == id)`
abbrev pub find_wallet : ℕ → Db → Option Wallet
find_wallet id db = find (λ (w : Wallet). w.user_id == id) db.wallets

-- From the insertion of the transfer to the commit.
unfoldable pub book_transfer : ℕ → ℕ → ℕ → Text → Tx TransferOutcome
book_transfer sender recipient amount key = do
  id ← new_uuid
  now ← utc_now
  let transfer : Transfer = record {
    id = id;
    sender_id = sender;
    recipient_id = recipient;
    amount = amount;
    idempotency_key = key;
    created_at = now;
  }
  flush (λ db. transfer_allowed db transfer) (add_transfer transfer)
  debited ← execute (debit_sender sender amount)
  return_if (not (debited == 1)) (rollback_outcome (outcome TransferResult.insufficient_funds)) do
    credited ← execute (credit_recipient recipient amount)
    return_if (not (credited == 1))
        (rollback_outcome (outcome TransferResult.recipient_unavailable))
        do
          add_audit_log (some sender) "transfer.created" "transfer" (some id)
              (some (("amount", Value.num amount) ∷ []))
          commit
          pure (record { result = TransferResult.created; transfer_id = some id })

-- From the recipient's row to the commit.
unfoldable pub settle_transfer : ℕ → User → ℕ → Text → Tx TransferOutcome
settle_transfer sender recipient amount key = do
  existing ← resolve_existing key sender recipient.id amount
  or_return existing
      (return_if (recipient.id == sender) (rollback_outcome (outcome TransferResult.self_transfer))
        (return_if (not (is_active recipient.status))
          (rollback_outcome (outcome TransferResult.recipient_unavailable))
          do
            sender_wallet ← query (find_wallet sender)
            or_return sender_wallet (rollback_outcome (outcome TransferResult.database_error)) λ _.
                do
                  recipient_wallet ← query (find_wallet recipient.id)
                  or_return recipient_wallet
                      (rollback_outcome (outcome TransferResult.recipient_unavailable))
                      (λ _. book_transfer sender recipient.id amount key)))
      rollback_outcome

-- The two `except` clauses; `recipient` is the variable `recipient_id`, `none` before its assignment.
unfoldable pub on_error : ℕ → Option ℕ → ℕ → Text → Error → Tx TransferOutcome
on_error sender (some recipient) amount key integrity_error = do
  rollback
  attempt
      (do
        existing ← resolve_existing key sender recipient amount
        or_return existing (pure (outcome TransferResult.database_error)) pure)
      (λ _. rollback_outcome (outcome TransferResult.database_error))
on_error sender recipient amount key _ = rollback_outcome (outcome TransferResult.database_error)

-- The `try` statement: the arguments have been checked.
unfoldable pub transfer_checked : Platform → ℕ → Text → ℕ → Text → Text → Tx TransferOutcome
transfer_checked p sender_id recipient_name amount current_password key =
    attempt
      (do
        begin_write_transaction
        sender ← query (find_sender sender_id)
        or_return sender (rollback_outcome (outcome TransferResult.current_password_invalid))
            λ (u : User).
              return_if (not (p.check_password_hash u.password_hash current_password))
                (rollback_outcome (outcome TransferResult.current_password_invalid))
                do
                  recipient ← query (find_recipient recipient_name)
                  or_return recipient
                      (rollback_outcome (outcome TransferResult.recipient_unavailable))
                      λ r.
                        attempt (settle_transfer sender_id r amount key)
                          (on_error sender_id (some r.id) amount key))
      (on_error sender_id none amount key)

-- The arguments of `create_transfer`; `sender_id` is `none` where it is no text or the empty one.
pub record TransferRequest : Type 0 where
  pub sender_id : Option ℕ
  pub recipient_username : Arg
  pub amount : Arg
  pub current_password : Arg
  pub raw_idempotency_token : Arg

-- The test on `amount`, with the number where it passes.
unfoldable pub checked_amount : Arg → Option ℕ
checked_amount (Arg.int n) =
    if leb transfer_min_amount n && leb n transfer_max_amount then some n else none
checked_amount _ = none

-- The test on `current_password`, with the text where it passes.
unfoldable pub checked_password : Arg → Option Text
checked_password (Arg.str s) = if leb 1 (length s) && leb (length s) 128 then some s else none
checked_password _ = none

unfoldable pub create_transfer : Platform → TransferRequest → Tx TransferOutcome
create_transfer p q =
    or_return (normalize_recipient_username q.recipient_username)
      (pure (outcome TransferResult.recipient_unavailable))
      λ recipient_name.
        or_return (checked_amount q.amount) (pure (outcome TransferResult.database_error)) λ amount.
          or_return (checked_password q.current_password)
            (pure (outcome TransferResult.current_password_invalid))
            λ current_password.
              or_return (valid_idempotency_token q.raw_idempotency_token)
                (pure (outcome TransferResult.database_error))
                λ token.
                  or_return q.sender_id (pure (outcome TransferResult.current_password_invalid))
                    λ sender_id.
                      transfer_checked p sender_id recipient_name amount current_password
                        (derive_idempotency_key p sender_id token)
