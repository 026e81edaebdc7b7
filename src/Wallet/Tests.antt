-- ===== src/Wallet/Tests.antt =====
-- Tests of the wallet on the sample market, and the theorems at concrete inputs.
use whs_secure_coding.Prelude.{
  All, List, [], all, any, ap, arith, count, find, length, none, refl, some, sum_of, sym, update, ℕ,
  ◌∙◌, ◌∷◌, ◌≡◌, ◌⊎◌,
}
use whs_secure_coding.Audit.{add_audit_log, entry}
use whs_secure_coding.Audit.Policy.{
  is_member, is_sensitive, lookup_keys, safe_items, validate_audit_details,
}
use whs_secure_coding.Listing.{join, pair_with}
use whs_secure_coding.Samples.{ids, market, member, plain, wallet, zeros}
use whs_secure_coding.Schema.{Db, Role, Transfer, User, UserStatus, Value}
use whs_secure_coding.Schema.Constraints.{transfer_allowed}
use whs_secure_coding.Session.{Signal, ok, open_session, ◌>>=◌}
use whs_secure_coding.Text.{Text, codes, is_space, matches_username, strip, text_eq}
use whs_secure_coding.Wallet.{
  TransferOutcome, TransferRequest, TransferResult, active_user_exists, book_transfer,
  checked_amount, checked_password, create_transfer, credit_recipient, debit_sender,
  existing_transfer, on_error, settle_transfer, transfer_checked,
}
use whs_secure_coding.Wallet.Answers.{IsChecked, planned_booking, transfer_created}
use whs_secure_coding.Wallet.Atomic.{create_transfer_atomic}
use whs_secure_coding.Wallet.Booking.{IsAuthorized, book}
use whs_secure_coding.Wallet.Effect.{Effect}
use whs_secure_coding.Wallet.History.{
  TransferDetailView, get_transfer_detail, history_filter, list_transfer_history,
}
use whs_secure_coding.Wallet.HistoryLaws.{IsDetail, IsOwn, history_private}
use whs_secure_coding.Wallet.Money.{
  IsReconciled, balance_of, granted_to, received_by, sent_by, total,
}
use whs_secure_coding.Wallet.Policy.{
  Arg, derive_idempotency_key, normalize_recipient_username, valid_idempotency_token,
}
use whs_secure_coding.Wallet.Retry.{retry_idempotent}
use whs_secure_coding.Wallet.Runs.{
  Call, Carries, after_call, after_calls, after_calls-IsReconciled, after_calls_conserve,
  one_transfer_per_token,
}

abbrev token : Text
token = zeros 43

-- Alice sends to Bobby.
abbrev request : ℕ → TransferRequest
request amount = record {
  sender_id = some 1;
  recipient_username = Arg.str (codes " bobby ");
  amount = Arg.int amount;
  current_password = Arg.str (codes "correct horse");
  raw_idempotency_token = Arg.str token;
}

abbrev call : ℕ → List Signal → Call
call amount signals = record { request = request amount; signals = signals; uuids = ids; now = 7 }

abbrev paid : Transfer
paid = record {
  id = 100;
  sender_id = 1;
  recipient_id = 2;
  amount = 300;
  idempotency_key = zeros 64;
  created_at = 7;
}

abbrev paid_market : Db
paid_market = record market {
  wallets = wallet 1 99700 ∷ wallet 2 100300 ∷ wallet 3 100000 ∷ wallet 4 100000 ∷ [];
  transfers = paid ∷ [];
  audit_logs =
      entry 101 7 (some 1) "transfer.created" "transfer" (some 100)
        (some (("amount", Value.num 300) ∷ []))
      ∷ [];
}

-- Opens what a test of a call computes with.
sent : Call → Db → Db
unfolding after_call create_transfer transfer_checked settle_transfer book_transfer on_error
    existing_transfer debit_sender credit_recipient active_user_exists checked_amount
    checked_password normalize_recipient_username valid_idempotency_token derive_idempotency_key
    add_audit_log validate_audit_details lookup_keys is_member safe_items is_sensitive
    transfer_allowed ◌>>=◌ text_eq strip is_space matches_username find any all count update
sent c db = after_call plain db c

pays : after_call plain market (call 300 []) ≡ paid_market
unfolding sent
pays = refl

abbrev CheckedOutcome : TransferOutcome → Db → Db → Type 0
CheckedOutcome o db d = Effect (IsAuthorized plain (request 300) db) db d o

create_transfer_atomic_example :
    let (r, s) =
      create_transfer plain
        (request 300)
        (open_session market (Signal.fine ∷ Signal.lost ∷ []) ids 7) in
    (o : TransferOutcome) × (r ≡ ok o) × CheckedOutcome o market s.committed
create_transfer_atomic_example =
    create_transfer_atomic plain (request 300) market (Signal.fine ∷ Signal.lost ∷ []) ids 7

abbrev attempts : List Call
attempts = call 300 (Signal.integrity ∷ []) ∷ call 300 [] ∷ call 300 [] ∷ call 500 [] ∷ []

after_calls_conserve_example : total (after_calls plain market attempts) ≡ total market
after_calls_conserve_example = after_calls_conserve plain attempts market

market-IsReconciled : IsReconciled market
unfolding balance_of sent_by received_by granted_to sum_of count
market-IsReconciled = record { at = λ u. ground arith }

after_calls-IsReconciled_example : IsReconciled (after_calls plain market attempts)
after_calls-IsReconciled_example =
    after_calls-IsReconciled plain attempts market market-IsReconciled

attempts-Carries : All (Carries 1 token) attempts
unfolding valid_idempotency_token all
attempts-Carries = ((refl, refl), ((refl, refl), ((refl, refl), ((refl, refl), tt))))

one_transfer_per_token_example :
    (after_calls plain market attempts ≡ market)
    ⊎ (length (after_calls plain market attempts).transfers ≡ 1)
one_transfer_per_token_example =
    one_transfer_per_token plain 1 token attempts market attempts-Carries

retry_idempotent_example :
    (t : Transfer) × ((after_call plain market (call 300 [])).transfers ≡ t ∷ [])
    × (let (r, s) =
          create_transfer plain
            (request 300)
            (open_session (after_call plain market (call 300 [])) [] ids 9) in
        (r ≡ ok (record { result = TransferResult.idempotent; transfer_id = some t.id }))
        × (s.committed ≡ after_call plain market (call 300 [])))
retry_idempotent_example =
    retry_idempotent plain market (call 300 []) ids 9
      (λ e. cc (ap (λ (d : Db). d.transfers) (sym pays ∙ e)))

abbrev bobby : User
bobby = member 2 "bobby" Role.user UserStatus.active

request-IsChecked :
    (amount : ℕ) (db : Db)
    → db.users ≡ market.users
    → checked_amount (Arg.int amount) ≡ some amount
    → IsChecked plain (request amount) db 1 amount bobby (zeros 64)
unfolding checked_password normalize_recipient_username valid_idempotency_token
    derive_idempotency_key strip is_space matches_username find all text_eq
request-IsChecked amount db same fits = record {
  name = codes "bobby";
  password = codes "correct horse";
  token = token;
  payer = member 1 "alice" Role.user UserStatus.active;
  sender_given = refl;
  amount_given = fits;
  named = refl;
  typed = refl;
  token_given = refl;
  keyed = refl;
  payer_found = rw same refl;
  password_right = refl;
  payee_found = rw same refl;
}

transfer_created_example :
    let (r, s) = create_transfer plain (request 300) (open_session market [] ids 7) in
    (r ≡ ok (record { result = TransferResult.created; transfer_id = some 100 }))
    × (s.committed ≡ book (planned_booking 1 2 300 (zeros 64) ids 7) market)
unfolding existing_transfer transfer_allowed checked_amount find any all count text_eq
transfer_created_example =
    transfer_created plain (request 300) market 1 300 bobby (zeros 64) ids 7 (wallet 1 100000)
      (wallet 2 100000) (request-IsChecked 300 market refl refl) refl refl refl refl refl
      (omega arith) refl refl refl

history_private_example :
    All
      (IsOwn 2 paid_market)
      (list_transfer_history 2 (codes "received") (codes "oldest") 1 10 paid_market).content.items
    × ((v : TransferDetailView)
        → get_transfer_detail 2 100 paid_market ≡ some v
        → IsDetail 2 100 paid_market v)
history_private_example = history_private 2 (codes "received") (codes "oldest") 1 10 100 paid_market

-- Bobby has received one transfer; Carol sees none.
seen :
    (list_transfer_history 2 (codes "received") (codes "oldest") 1 10 paid_market).content.total ≡ 1
unfolding list_transfer_history count history_filter text_eq
seen = refl

unseen : get_transfer_detail 3 100 paid_market ≡ none
unfolding get_transfer_detail find join pair_with
unseen = refl
