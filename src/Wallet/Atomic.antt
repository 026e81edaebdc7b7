-- ===== src/Wallet/Atomic.antt =====
-- `create_transfer` is atomic and authorized, whatever the database does to it.
use whs_secure_coding.Prelude.{List, refl, sym, ℕ, ◌≡◌}
use whs_secure_coding.Platform.{Platform}
use whs_secure_coding.Schema.{Db}
use whs_secure_coding.Session.{Result, Signal, ok, open_session, raised}
use whs_secure_coding.Session.Ends.{Ends, Ends-or_return, Ends-pure}
use whs_secure_coding.Wallet.{
  TransferOutcome, TransferRequest, TransferResult, create_transfer, outcome,
}
use whs_secure_coding.Wallet.Booking.{Booking, IsAuthorized}
use whs_secure_coding.Wallet.Effect.{Effect, EffectPost, refusal, transfer_checked-Effect}
use whs_secure_coding.Wallet.Policy.{derive_idempotency_key}

create_transfer-Effect :
    (p : Platform) (q : TransferRequest) (db w : Db)
    → Ends w db (create_transfer p q) (EffectPost (IsAuthorized p q db) db)
unfolding create_transfer
create_transfer-Effect p q db w =
    Ends-or_return _
      (λ bad.
        Ends-pure (outcome TransferResult.recipient_unavailable)
          (refusal (IsAuthorized p q db) _ (λ e. cc)))
      λ name named.
        Ends-or_return _
          (λ bad.
            Ends-pure (outcome TransferResult.database_error)
              (refusal (IsAuthorized p q db) _ (λ e. cc)))
          λ amount_value amount_ok.
            Ends-or_return _
              (λ bad.
                Ends-pure (outcome TransferResult.current_password_invalid)
                  (refusal (IsAuthorized p q db) _ (λ e. cc)))
              λ password typed.
                Ends-or_return _
                  (λ bad.
                    Ends-pure (outcome TransferResult.database_error)
                      (refusal (IsAuthorized p q db) _ (λ e. cc)))
                  λ token token_valid.
                    Ends-or_return _
                      (λ bad.
                        Ends-pure (outcome TransferResult.current_password_invalid)
                          (refusal (IsAuthorized p q db) _ (λ e. cc)))
                      λ sender sender_given.
                        transfer_checked-Effect (IsAuthorized p q db) p db w sender name
                          amount_value password (derive_idempotency_key p sender token)
                          λ payer payee payer_found right payee_found fresh live b for. record {
                            name = name;
                            password = password;
                            token = token;
                            payer = payer;
                            payee = payee;
                            sender = rw for.sender_is sender_given;
                            amount = rw for.amount_is amount_ok;
                            named = named;
                            payee_found = payee_found;
                            payee_paid = sym for.recipient_is;
                            payee_active = live;
                            payer_found = rw for.sender_is payer_found;
                            typed = typed;
                            password_right = right;
                            token_valid = token_valid;
                            key = rw (for.key_is, for.sender_is) refl;
                            key_fresh = rw for.key_is fresh;
                          }

answer_of :
    (P : Booking → Type 0) {db : Db} (r : Result TransferOutcome) (w d : Db)
    → EffectPost P db r w d
    → (o : TransferOutcome) × (r ≡ ok o) × Effect P db d o
answer_of P (ok o) w d h = (o, refl, h)
answer_of P (raised e) w d h = absurd h

-- Whatever the arguments and whatever the database does, `create_transfer` returns an outcome, and
-- what is then committed is what was committed before, the outcome not being CREATED, or that with
-- one booking that the constraints and both conditional updates allow, the outcome being CREATED
-- with its id or DATABASE_ERROR.
pub create_transfer_atomic :
    (p : Platform) (q : TransferRequest) (db : Db) (signals : List Signal) (uuids : ℕ → ℕ) (now : ℕ)
    → let (r, s) = create_transfer p q (open_session db signals uuids now) in
      (o : TransferOutcome) × (r ≡ ok o) × Effect (IsAuthorized p q db) db s.committed o
create_transfer_atomic p q db signals uuids now =
    let t = open_session db signals uuids now in
    answer_of (IsAuthorized p q db) _ (create_transfer p q t).1.working _
      ((create_transfer-Effect p q db db).at t refl refl)
