-- ===== src/Wallet/Answers.antt =====
-- What `create_transfer` answers where the database does what it is asked.
use whs_secure_coding.Prelude.{
  All, Bool, List, [], any_of_find, arith, count, count-and_true, count-update, false, find,
  find_sound, if◌then◌else◌, leb, none, refl, some, subst, sym, true, ℕ, ◌&&◌, ◌-◌, ◌<◌, ◌==◌, ◌∙◌,
  ◌∷◌, ◌≡◌, ◌≤◌,
}
use whs_secure_coding.Audit.{add_audit_log}
use whs_secure_coding.Audit.Writes.{transfer_created_details}
use whs_secure_coding.Platform.{Platform}
use whs_secure_coding.Schema.{Db, Transfer, User, Wallet, is_active}
use whs_secure_coding.Schema.Constraints.{transfer_allowed}
use whs_secure_coding.Session.{attempt, ok, open_session, ◌>>=◌}
use whs_secure_coding.Text.{Text}
use whs_secure_coding.Wallet.{
  TransferRequest, TransferResult, active_user_exists, book_transfer, checked_amount,
  checked_password, create_transfer, credit_recipient, debit_sender, existing_transfer,
  find_recipient, find_sender, find_wallet, on_error, outcome, same_payload, settle_transfer,
  transfer_checked,
}
use whs_secure_coding.Wallet.Booking.{Booking, book, credited, debited}
use whs_secure_coding.Wallet.Policy.{
  derive_idempotency_key, normalize_recipient_username, valid_idempotency_token,
}

-- A request whose checks pass, with the rows that they found.
pub record IsChecked (p : Platform) (q : TransferRequest) (db : Db) (sender : ℕ) (amount : ℕ)
    (payee : User) (key : Text) : Type 0 where
  pub name : Text
  pub password : Text
  pub token : Text
  pub payer : User
  pub sender_given : q.sender_id ≡ some sender
  pub amount_given : checked_amount q.amount ≡ some amount
  pub named : normalize_recipient_username q.recipient_username ≡ some name
  pub typed : checked_password q.current_password ≡ some password
  pub token_given : valid_idempotency_token q.raw_idempotency_token ≡ some token
  pub keyed : derive_idempotency_key p sender token ≡ key
  pub payer_found : find_sender sender db ≡ some payer
  pub password_right : p.check_password_hash payer.password_hash password ≡ true
  pub payee_found : find_recipient name db ≡ some payee

-- The booking that a call makes with these ids and at this time.
abbrev pub planned_booking : ℕ → ℕ → ℕ → Text → (ℕ → ℕ) → ℕ → Booking
planned_booking sender recipient amount key uuids now = record {
  transfer = record {
    id = uuids 0;
    sender_id = sender;
    recipient_id = recipient;
    amount = amount;
    idempotency_key = key;
    created_at = now;
  };
  audit_id = uuids 1;
  audited_at = now;
}

module _ (p : Platform) (q : TransferRequest) (db : Db) (sender amount : ℕ) (payee : User)
    (key : Text) (h : IsChecked p q db sender amount payee key) (uuids : ℕ → ℕ) (now : ℕ) where
  checked_settle :
      (create_transfer p q (open_session db [] uuids now))
      ≡ attempt
          (attempt
            (settle_transfer sender payee amount key)
            (on_error sender (some payee.id) amount key))
          (on_error sender none amount key)
          (open_session db [] uuids now)
  unfolding create_transfer transfer_checked ◌>>=◌
  checked_settle =
      rw
        (
          h.named, h.amount_given, h.typed, h.token_given, h.sender_given, h.keyed, h.payer_found,
          h.password_right, h.payee_found,
        )
        refl

  module _ (fresh : existing_transfer key db ≡ none) (other : (payee.id == sender) ≡ false)
      (live : is_active payee.status ≡ true) (payer_wallet payee_wallet : Wallet)
      (payer_holds : find_wallet sender db ≡ some payer_wallet)
      (payee_holds : find_wallet payee.id db ≡ some payee_wallet)
      (allowed : transfer_allowed db (planned_booking sender payee.id amount key uuids now).transfer
        ≡ true) where
    answered_created :
        (debited (planned_booking sender payee.id amount key uuids now) db).1 ≡ 1
        → (credited (planned_booking sender payee.id amount key uuids now) db).1 ≡ 1
        → let (r, s) = create_transfer p q (open_session db [] uuids now) in
          (r ≡ ok (record { result = TransferResult.created; transfer_id = some (uuids 0) }))
          × (s.committed ≡ book (planned_booking sender payee.id amount key uuids now) db)
    unfolding settle_transfer book_transfer book add_audit_log ◌>>=◌
    answered_created one_debit one_credit =
        rw
          (
            checked_settle,
            fresh,
            other,
            live,
            payer_holds,
            payee_holds,
            allowed,
            one_debit,
            one_credit,
            transfer_created_details amount,
          )
          (refl, refl)

    answered_insufficient :
        (debited (planned_booking sender payee.id amount key uuids now) db).1 ≡ 0
        → let (r, s) = create_transfer p q (open_session db [] uuids now) in
          (r ≡ ok (outcome TransferResult.insufficient_funds)) × (s.committed ≡ db)
    unfolding settle_transfer book_transfer book ◌>>=◌
    answered_insufficient no_debit =
        rw (checked_settle, fresh, other, live, payer_holds, payee_holds, allowed, no_debit)
          (refl, refl)

  -- A row with the key is there: it is compared with the request, and nothing else is looked at.
  answered_existing :
      (t : Transfer)
      → existing_transfer key db ≡ some t
      → let (r, s) = create_transfer p q (open_session db [] uuids now) in
        (r
          ≡ ok (
              if same_payload t sender payee.id amount
              then record { result = TransferResult.idempotent; transfer_id = some t.id }
              else outcome TransferResult.idempotency_conflict))
        × (s.committed ≡ db)
  unfolding settle_transfer ◌>>=◌
  answered_existing t there = rw (checked_settle, there) (refl, refl)

poor_debit :
    (sender amount : ℕ) (live : Bool) (ws : List Wallet)
    → All (λ (w : Wallet). w.user_id ≡ sender → w.balance < amount) ws
    → count (λ (w : Wallet). w.user_id == sender && leb amount w.balance && live) ws ≡ 0
unfolding count
poor_debit sender amount live [] h = refl
poor_debit sender amount live (w ∷ ws) h = ground (arith, h.0, poor_debit sender amount live ws h.1)

-- A request whose checks pass, with a token that is new, between two different users who have
-- wallets, and with a row that the constraints allow, is answered INSUFFICIENT_FUNDS and changes
-- nothing where no wallet of the sender holds the amount.
pub transfer_insufficient :
    (p : Platform) (q : TransferRequest) (db : Db) (sender amount : ℕ) (payee : User) (key : Text)
    (uuids : ℕ → ℕ) (now : ℕ) (payer_wallet payee_wallet : Wallet)
    → IsChecked p q db sender amount payee key
    → existing_transfer key db ≡ none
    → (payee.id == sender) ≡ false
    → is_active payee.status ≡ true
    → find_wallet sender db ≡ some payer_wallet
    → find_wallet payee.id db ≡ some payee_wallet
    → transfer_allowed db (record {
      id = uuids 0;
      sender_id = sender;
      recipient_id = payee.id;
      amount = amount;
      idempotency_key = key;
      created_at = now;
    })
      ≡ true
    → All (λ (w : Wallet). w.user_id ≡ sender → w.balance < amount) db.wallets
    → let (r, s) = create_transfer p q (open_session db [] uuids now) in
      (r ≡ ok (outcome TransferResult.insufficient_funds)) × (s.committed ≡ db)
unfolding debit_sender active_user_exists
transfer_insufficient p q db sender amount payee key uuids now w v h fresh other live hw hv allowed
      poor =
    answered_insufficient p q db sender amount payee key h uuids now fresh other live w v hw hv
      allowed (poor_debit sender amount (active_user_exists db sender) db.wallets poor)

-- A request whose checks pass and whose token has been used by its sender is answered by the row
-- that is there: IDEMPOTENT with its id if recipient and amount are those of the row,
-- IDEMPOTENCY_CONFLICT if not. Nothing changes, and neither the recipient's status nor any balance
-- is looked at.
pub transfer_repeated :
    (p : Platform) (q : TransferRequest) (db : Db) (sender amount : ℕ) (payee : User) (key : Text)
    (uuids : ℕ → ℕ) (now : ℕ) (t : Transfer)
    → IsChecked p q db sender amount payee key
    → existing_transfer key db ≡ some t
    → let (r, s) = create_transfer p q (open_session db [] uuids now) in
      (r
        ≡ ok (
            if same_payload t sender payee.id amount
            then record { result = TransferResult.idempotent; transfer_id = some t.id }
            else outcome TransferResult.idempotency_conflict))
      × (s.committed ≡ db)
transfer_repeated p q db sender amount payee key uuids now t h there =
    answered_existing p q db sender amount payee key h uuids now t there

holds_enough :
    (sender amount : ℕ) (ws : List Wallet) (w : Wallet)
    → find (λ (v : Wallet). v.user_id == sender) ws ≡ some w
    → count (λ (v : Wallet). v.user_id == sender) ws ≡ 1
    → amount ≤ w.balance
    → count (λ (v : Wallet). v.user_id == sender && leb amount v.balance && true) ws ≡ 1
unfolding find count
holds_enough sender amount [] w e one enough = cc
holds_enough sender amount (v ∷ ws) w e one enough =
    ground (arith, holds_enough sender amount ws w, none_left sender amount ws)
  where
    none_left :
        (sender amount : ℕ) (ws : List Wallet)
        → count (λ (v : Wallet). v.user_id == sender) ws ≡ 0
        → count (λ (v : Wallet). v.user_id == sender && leb amount v.balance && true) ws ≡ 0
    none_left sender amount [] h = refl
    none_left sender amount (x ∷ xs) h = ground (arith, none_left sender amount xs)

debit_one :
    (sender amount : ℕ) (db : Db) (w : Wallet)
    → find_wallet sender db ≡ some w
    → count (λ (v : Wallet). v.user_id == sender) db.wallets ≡ 1
    → amount ≤ w.balance
    → active_user_exists db sender ≡ true
    → (debit_sender sender amount db).1 ≡ 1
unfolding debit_sender
debit_one sender amount db w hw one_w enough live =
    subst
      (λ b. count (λ (v : Wallet). v.user_id == sender && leb amount v.balance && b) db.wallets ≡ 1)
      (sym live) (holds_enough sender amount db.wallets w hw one_w enough)

credit_one :
    (sender recipient amount : ℕ) (db : Db)
    → count (λ (v : Wallet). v.user_id == recipient) db.wallets ≡ 1
    → active_user_exists db recipient ≡ true
    → (credit_recipient recipient amount (debit_sender sender amount db).0).1 ≡ 1
unfolding debit_sender credit_recipient active_user_exists
credit_one sender recipient amount db one_v live =
    subst
      (λ b.
        count (λ (v : Wallet). v.user_id == recipient && b)
          (debit_sender sender amount db).0.wallets
        ≡ 1)
      (sym live)
      (count-and_true (λ (v : Wallet). v.user_id == recipient) _
        ∙ count-update (λ (v : Wallet). v.user_id == recipient) _
            (λ (v : Wallet). record v { balance = v.balance - amount }) db.wallets (λ v. refl)
        ∙ one_v)

same_active : (u : User) → is_active u.status ≡ true → (u.id == u.id && is_active u.status) ≡ true
same_active u live = ground arith

-- A request whose checks pass, with a token that is new, between two different users with one wallet
-- each, where the sender holds the amount and the constraints allow the row, is answered CREATED with
-- the id that was drawn, and the booking is what is committed.
pub transfer_created :
    (p : Platform) (q : TransferRequest) (db : Db) (sender amount : ℕ) (payee : User) (key : Text)
    (uuids : ℕ → ℕ) (now : ℕ) (payer_wallet payee_wallet : Wallet)
    → IsChecked p q db sender amount payee key
    → existing_transfer key db ≡ none
    → (payee.id == sender) ≡ false
    → is_active payee.status ≡ true
    → find_wallet sender db ≡ some payer_wallet
    → count (λ (w : Wallet). w.user_id == sender) db.wallets ≡ 1
    → amount ≤ payer_wallet.balance
    → find_wallet payee.id db ≡ some payee_wallet
    → count (λ (w : Wallet). w.user_id == payee.id) db.wallets ≡ 1
    → transfer_allowed db (record {
      id = uuids 0;
      sender_id = sender;
      recipient_id = payee.id;
      amount = amount;
      idempotency_key = key;
      created_at = now;
    })
      ≡ true
    → let (r, s) = create_transfer p q (open_session db [] uuids now) in
      (r ≡ ok (record { result = TransferResult.created; transfer_id = some (uuids 0) }))
      × (s.committed ≡ book (planned_booking sender payee.id amount key uuids now) db)
unfolding debit_sender credit_recipient active_user_exists
transfer_created p q db sender amount payee key uuids now w v h fresh other live hw one_w enough hv
      one_v allowed =
    answered_created p q db sender amount payee key h uuids now fresh other live w v hw hv allowed
      (debit_one sender amount db w hw one_w enough (
        any_of_find _ _ db.users h.payer h.payer_found
          (find_sound _ db.users h.payer h.payer_found)))
      (credit_one sender payee.id amount db one_v
        (any_of_find _ _ db.users payee h.payee_found (same_active payee live)))
