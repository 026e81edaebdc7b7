-- ===== src/Wallet/Effect.antt =====
-- How the body of `create_transfer` ends, whatever the database does to it: in a refusal, or in a
-- booking. `P` is what a caller knows of every booking that is made.
use whs_secure_coding.Prelude.{
  Bool, Option, arith, false, inl, inr, none, not, refl, some, subst, true, ℕ, ◌==◌, ◌≡◌, ◌≢◌, ◌⊎◌,
}
use whs_secure_coding.Audit.Writes.{Ends-add_audit_log, transfer_created_details}
use whs_secure_coding.Platform.{Platform}
use whs_secure_coding.Schema.{Db, Transfer, User, is_active}
use whs_secure_coding.Session.{
  Error, Result, commit, integrity_error, ok, pure, raised, sqlalchemy_error, ◌>>◌,
}
use whs_secure_coding.Session.Ends.{
  Caught, Ends, Ends-attempt, Ends-bind, Ends-commit, Ends-execute, Ends-flush, Ends-new_uuid,
  Ends-or_return, Ends-pure, Ends-query, Ends-return_if, Ends-rollback, Ends-utc_now, Ends-weaken,
  Post,
}
use whs_secure_coding.Text.{Text}
use whs_secure_coding.Wallet.{
  TransferOutcome, TransferResult, book_transfer, existing_transfer, find_recipient, find_sender,
  on_error, outcome, resolved, rollback_outcome, settle_transfer, transfer_checked,
}
use whs_secure_coding.Wallet.Booking.{Booking, IsBookable, IsFor, Refused, book}

one_row : (n : ℕ) → not (n == 1) ≡ false → n ≡ 1
one_row n h = ground arith

was_active : (b : Bool) → not b ≡ false → b ≡ true
was_active b h = ground arith

resolved-none :
    (t : Option Transfer) (sender recipient amount : ℕ)
    → resolved t sender recipient amount ≡ none
    → t ≡ none
resolved-none none sender recipient amount h = refl
resolved-none (some t) sender recipient amount h = cc

module _ (P : Booking → Type 0) where
  -- The call has booked, and says so, or cannot tell.
  pub record Booked (db d : Db) (o : TransferOutcome) (b : Booking) : Type 0 where
    pub bookable : IsBookable db b
    pub granted : P b
    pub after : d ≡ book b db
    pub told :
        (o ≡ record { result = TransferResult.created; transfer_id = some b.transfer.id })
        ⊎ (o ≡ outcome TransferResult.database_error)

  -- How `create_transfer` ends where `db` was committed.
  pub data Effect (db d : Db) (o : TransferOutcome) : Type 0 where
    refused : Refused db d o → Effect db d o
    booked : (b : Booking) → Booked db d o b → Effect db d o

  abbrev pub EffectPost : Db → Post TransferOutcome
  EffectPost db (ok o) w d = Effect db d o
  EffectPost db (raised e) w d = ⊥

  -- What an exception of the `try` body leaves committed.
  data Raised (db d : Db) (e : Error) : Type 0 where
    kept : d ≡ db → Raised db d e
    lost :
        (b : Booking) → IsBookable db b → P b → d ≡ book b db → e ≡ sqlalchemy_error → Raised db d e

  abbrev BodyPost : Db → Post TransferOutcome
  BodyPost db (ok o) w d = Effect db d o
  BodyPost db (raised e) w d = Raised db d e

  pub refusal : {db : Db} (o : TransferOutcome) → o.result ≢ TransferResult.created → Effect db db o
  refusal o h = refused (record { same = refl; not_created = h })

  module _ {db w : Db} where
    -- A return after a rollback, with another result than CREATED, is a refusal.
    rollback_outcome-body :
        (o : TransferOutcome)
        → o.result ≢ TransferResult.created
        → Ends w db (rollback_outcome o) (BodyPost db)
    rollback_outcome-body o h = Ends-rollback _ (Ends-pure o (refusal o h))

    rollback_outcome-Effect :
        (o : TransferOutcome)
        → o.result ≢ TransferResult.created
        → Ends w db (rollback_outcome o) (EffectPost db)
    rollback_outcome-Effect o h = Ends-rollback _ (Ends-pure o (refusal o h))

  abbrev created_outcome : Booking → TransferOutcome
  created_outcome b = record { result = TransferResult.created; transfer_id = some b.transfer.id }

  -- The commit of a booking.
  commit_booking-body :
      (db : Db) (b : Booking)
      → IsBookable db b
      → P b
      → Ends (book b db) db (commit >> pure (created_outcome b)) (BodyPost db)
  commit_booking-body db b h g =
      Ends-commit _ (λ e. kept refl) (lost b h g refl refl)
        (Ends-pure _
          (booked b (record { bookable = h; granted = g; after = refl; told = inl refl })))

  book_transfer-body :
      (db : Db) (sender recipient amount : ℕ) (key : Text)
      → ((b : Booking) → IsFor sender recipient amount key b → P b)
      → Ends db db (book_transfer sender recipient amount key) (BodyPost db)
  unfolding book_transfer book
  book_transfer-body db sender recipient amount key grant = Ends-new_uuid _ λ id.
      Ends-utc_now _ λ now.
        Ends-flush _ _ _ (λ e. kept refl)
          λ allowed.
            Ends-execute _ _ (λ e. kept refl)
              (Ends-return_if _
                (λ h. rollback_outcome-body (outcome TransferResult.insufficient_funds) (λ e. cc))
                λ one_debit.
                  Ends-execute _ _ (λ e. kept refl)
                    (Ends-return_if _
                      (λ h.
                        rollback_outcome-body (outcome TransferResult.recipient_unavailable)
                          (λ e. cc))
                      λ one_credit.
                        Ends-add_audit_log _ _ _ _ _ _ refl (transfer_created_details amount)
                          λ audit_id audited_at.
                            let b : Booking = record {
                              transfer = record {
                                id = id;
                                sender_id = sender;
                                recipient_id = recipient;
                                amount = amount;
                                idempotency_key = key;
                                created_at = now;
                              };
                              audit_id = audit_id;
                              audited_at = audited_at;
                            } in
                            commit_booking-body db b
                              (record {
                                allowed = allowed;
                                one_debit = one_row _ one_debit;
                                one_credit = one_row _ one_credit;
                              })
                              (grant b (record {
                                sender_is = refl;
                                recipient_is = refl;
                                amount_is = refl;
                                key_is = refl;
                              }))))

  abbrev NotCreated : Option TransferOutcome → Type 0
  NotCreated none = Unit
  NotCreated (some o) = o.result ≢ TransferResult.created

  -- `_resolve_existing` never answers CREATED.
  resolved-NotCreated :
      (t : Option Transfer) (sender recipient amount : ℕ)
      → NotCreated (resolved t sender recipient amount)
  resolved-NotCreated none sender recipient amount = tt
  resolved-NotCreated (some t) sender recipient amount = ground arith

  found_not_created :
      (t : Option Transfer) (sender recipient amount : ℕ) (o : TransferOutcome)
      → resolved t sender recipient amount ≡ some o
      → o.result ≢ TransferResult.created
  found_not_created t sender recipient amount o found =
      subst NotCreated found (resolved-NotCreated t sender recipient amount)

  -- DATABASE_ERROR is a true answer to whatever an exception leaves.
  give_up :
      {db d : Db} {e : Error} → Raised db d e → Effect db d (outcome TransferResult.database_error)
  give_up (kept same) = refused (record { same = same; not_created = λ e. cc })
  give_up (lost b bookable granted after e) =
      booked b (record { bookable = bookable; granted = granted; after = after; told = inr refl })

  retry_lookup :
      (db w : Db) (sender recipient amount : ℕ) (key : Text)
      → Ends w db (on_error sender (some recipient) amount key integrity_error) (EffectPost db)
  unfolding on_error
  retry_lookup db w sender recipient amount key = Ends-rollback _ (
      Ends-attempt _ (
        Ends-bind _ (
          Ends-query _ _ (λ e. rollback_outcome-Effect _ (λ h. cc))
            (Ends-pure _ (
              Ends-or_return _
                (λ missing. Ends-pure (outcome TransferResult.database_error) (refusal _ (λ h. cc)))
                (λ o found.
                  Ends-pure o
                    (refusal o (found_not_created _ sender recipient amount o found))))))))

  -- The handler of an exception of the body.
  on_error-Effect :
      (db w d : Db) (sender amount : ℕ) (recipient : Option ℕ) (key : Text) (e : Error)
      → Raised db d e
      → Ends w d (on_error sender recipient amount key e) (EffectPost db)
  unfolding on_error
  on_error-Effect db w d sender amount (some r) key integrity_error (kept same) =
      rw same (retry_lookup db w sender r amount key)
  on_error-Effect db w d sender amount (some r) key integrity_error (lost b h g after e) =
      absurd (cc)
  on_error-Effect db w d sender amount recipient key e r = Ends-rollback _ (Ends-pure _ (give_up r))

  settle_transfer-body :
      (db : Db) (sender : ℕ) (recipient : User) (amount : ℕ) (key : Text)
      → (existing_transfer key db ≡ none
          → is_active recipient.status ≡ true
          → (b : Booking) → IsFor sender recipient.id amount key b
          → P b)
      → Ends db db (settle_transfer sender recipient amount key) (BodyPost db)
  unfolding settle_transfer
  settle_transfer-body db sender recipient amount key grant = Ends-bind _ (
      Ends-query _ _ (λ e. kept refl)
        (Ends-pure _ (
          Ends-or_return _
            (λ fresh.
              Ends-return_if _
                (λ own. rollback_outcome-body (outcome TransferResult.self_transfer) (λ e. cc))
                λ other.
                  Ends-return_if _
                    (λ dormant.
                      rollback_outcome-body (outcome TransferResult.recipient_unavailable)
                        (λ e. cc))
                    λ live.
                      Ends-query _ _ (λ e. kept refl)
                        (Ends-or_return _
                          (λ missing.
                            rollback_outcome-body (outcome TransferResult.database_error) (λ e. cc))
                          λ _ _.
                            Ends-query _ _ (λ e. kept refl)
                              (Ends-or_return _
                                (λ missing.
                                  rollback_outcome-body
                                    (outcome TransferResult.recipient_unavailable) (λ e. cc))
                                λ _ _. book_transfer-body db sender recipient.id amount key (
                                  grant (resolved-none _ sender recipient.id amount fresh)
                                    (was_active _ live)))))
            (λ o found.
              rollback_outcome-body o (found_not_created _ sender recipient.id amount o found)))))

  -- The body under the inner handler, as the body of the outer one.
  settled :
      (db : Db) (sender amount : ℕ) (r : User) (key : Text) (o : Result TransferOutcome) (w d : Db)
      → BodyPost db o w d
      → Caught
          (on_error sender (some r.id) amount key)
          (Caught (on_error sender none amount key) (EffectPost db))
          o
          w
          d
  settled db sender amount r key (ok o) w d h = h
  settled db sender amount r key (raised e) w d h =
      Ends-weaken (EffectPost db) (Caught (on_error sender none amount key) (EffectPost db))
        (λ o w' d'. answered o w' d') (on_error-Effect db w d sender amount (some r.id) key e h)
    where
      answered :
          (o : Result TransferOutcome) (w' d' : Db)
          → EffectPost db o w' d'
          → Caught (on_error sender none amount key) (EffectPost db) o w' d'
      answered (ok o) w' d' x = x
      answered (raised e) w' d' x = absurd x

  pub transfer_checked-Effect :
      (p : Platform) (db w : Db) (sender : ℕ) (name : Text) (amount : ℕ) (password key : Text)
      → ((payer payee : User)
          → find_sender sender db ≡ some payer
          → p.check_password_hash payer.password_hash password ≡ true
          → find_recipient name db ≡ some payee
          → existing_transfer key db ≡ none
          → is_active payee.status ≡ true
          → (b : Booking) → IsFor sender payee.id amount key b
          → P b)
      → Ends w db (transfer_checked p sender name amount password key) (EffectPost db)
  unfolding transfer_checked
  transfer_checked-Effect p db w sender name amount password key grant = Ends-attempt _ (
      Ends-bind _ (
        Ends-rollback _ (
          Ends-query _ _ (λ e. failed e)
            (Ends-pure _ (
              Ends-query _ _ (λ e. failed e)
                (Ends-or_return _
                  (λ missing.
                    refused_body (outcome TransferResult.current_password_invalid) (λ e. cc))
                  λ u payer_found.
                    Ends-return_if _
                      (λ wrong.
                        refused_body (outcome TransferResult.current_password_invalid) (λ e. cc))
                      λ right.
                        Ends-query _ _ (λ e. failed e)
                          (Ends-or_return _
                            (λ missing.
                              refused_body (outcome TransferResult.recipient_unavailable) (λ e. cc))
                            λ r payee_found. Ends-attempt _ (
                              Ends-weaken (BodyPost db) _ (settled db sender amount r key) (
                                settle_transfer-body db sender r amount key
                                  (grant u r payer_found (was_active _ right) payee_found))))))))))
    where
      failed : (e : Error) → Ends db db (on_error sender none amount key e) (EffectPost db)
      failed e = on_error-Effect db db db sender amount none key e (kept refl)

      refused_body :
          (o : TransferOutcome)
          → o.result ≢ TransferResult.created
          → Ends db db
              (rollback_outcome o)
              (Caught (on_error sender none amount key) (EffectPost db))
      refused_body o h = Ends-rollback _ (Ends-pure o (refusal o h))
