-- ===== src/Wallet/Money.antt =====
-- The points: a booking moves them and makes none, and every wallet agrees with the transfers.
use whs_secure_coding.Prelude.{
  [], ap, arith, count, count-update, if◌then◌else◌, refl, sum_of, sum_of-append, sum_of-update_add,
  sum_of-update_sub, ℕ, ◌*◌, ◌+◌, ◌-◌, ◌==◌, ◌∙◌, ◌∷◌, ◌≡◌,
}
use whs_secure_coding.Audit.{add_row}
use whs_secure_coding.Config.{initial_balance}
use whs_secure_coding.Schema.{AuditLog, Db, Transfer, Wallet}
use whs_secure_coding.Wallet.{add_transfer, can_credit, can_debit, credit_recipient, debit_sender}
use whs_secure_coding.Wallet.Booking.{Booking, IsBookable, audit_row, book, credited, debited}

-- All points.
unfoldable pub total : Db → ℕ
total db = sum_of (λ (w : Wallet). w.balance) db.wallets

-- What the wallets of a user hold, what the user has sent and received, and what registration gave.
unfoldable pub balance_of : ℕ → Db → ℕ
balance_of u db = sum_of (λ (w : Wallet). if w.user_id == u then w.balance else 0) db.wallets

unfoldable pub sent_by : ℕ → Db → ℕ
sent_by u db = sum_of (λ (t : Transfer). if t.sender_id == u then t.amount else 0) db.transfers

unfoldable pub received_by : ℕ → Db → ℕ
received_by u db =
    sum_of (λ (t : Transfer). if t.recipient_id == u then t.amount else 0) db.transfers

unfoldable pub granted_to : ℕ → Db → ℕ
granted_to u db = initial_balance * count (λ (w : Wallet). w.user_id == u) db.wallets

-- Every user's points are those of registration, less what was sent, with what was received.
pub record IsReconciled (db : Db) : Type 0 where
  pub at : (u : ℕ) → balance_of u db + sent_by u db ≡ granted_to u db + received_by u db

total-add_row : (row : AuditLog) (db : Db) → total (add_row row db) ≡ total db
unfolding total
total-add_row row db = refl

balance_of-add_row :
    (u : ℕ) (row : AuditLog) (db : Db) → balance_of u (add_row row db) ≡ balance_of u db
unfolding balance_of
balance_of-add_row u row db = refl

module _ (db : Db) (b : Booking) (h : IsBookable db b) where
  total-debited : total (debited b db).0 + b.transfer.amount ≡ total db
  unfolding total debit_sender
  total-debited =
      let p = can_debit (add_transfer b.transfer db) b.transfer.sender_id b.transfer.amount in
      let g = λ (w : Wallet). record w { balance = w.balance - b.transfer.amount } in
      let one : count p db.wallets ≡ 1 = h.one_debit in
      omega (
        arith,
        sum_of-update_sub (λ (w : Wallet). w.balance) p g b.transfer.amount db.wallets
            (λ w m. ground arith),
        ap (λ (n : ℕ). n * b.transfer.amount) one,
      )

  total-credited : total (credited b db).0 ≡ total (debited b db).0 + b.transfer.amount
  unfolding total credit_recipient
  total-credited =
      let p = can_credit (debited b db).0 b.transfer.recipient_id in
      let g = λ (w : Wallet). record w { balance = w.balance + b.transfer.amount } in
      let one : count p (debited b db).0.wallets ≡ 1 = h.one_credit in
      omega (
        arith,
        sum_of-update_add (λ (w : Wallet). w.balance) p g b.transfer.amount (debited b db).0.wallets
            (λ w m. refl),
        ap (λ (n : ℕ). n * b.transfer.amount) one,
      )

  total-book : total (book b db) ≡ total db
  unfolding book
  total-book =
      rw (total-add_row (audit_row b) (credited b db).0)
        (omega (arith, total-debited, total-credited))

  module _ (u : ℕ) where
    abbrev out : ℕ
    out = if b.transfer.sender_id == u then b.transfer.amount else 0

    abbrev into : ℕ
    into = if b.transfer.recipient_id == u then b.transfer.amount else 0

    abbrev held : Wallet → ℕ
    held w = if w.user_id == u then w.balance else 0

    balance_of-debited : balance_of u (debited b db).0 + out ≡ balance_of u db
    unfolding balance_of debit_sender
    balance_of-debited =
        let p = can_debit (add_transfer b.transfer db) b.transfer.sender_id b.transfer.amount in
        let g = λ (w : Wallet). record w { balance = w.balance - b.transfer.amount } in
        let one : count p db.wallets ≡ 1 = h.one_debit in
        omega (
          arith,
          sum_of-update_sub held p g out db.wallets (λ w m. ground arith),
          ap (λ (n : ℕ). n * out) one,
        )

    balance_of-credited : balance_of u (credited b db).0 ≡ balance_of u (debited b db).0 + into
    unfolding balance_of credit_recipient
    balance_of-credited =
        let p = can_credit (debited b db).0 b.transfer.recipient_id in
        let g = λ (w : Wallet). record w { balance = w.balance + b.transfer.amount } in
        let one : count p (debited b db).0.wallets ≡ 1 = h.one_credit in
        omega (
          arith,
          sum_of-update_add held p g into (debited b db).0.wallets (λ w m. ground arith),
          ap (λ (n : ℕ). n * into) one,
        )

    sent_by-book : sent_by u (book b db) ≡ sent_by u db + out
    unfolding sent_by book debit_sender credit_recipient sum_of
    sent_by-book = omega (
      arith,
      sum_of-append (λ (t : Transfer). if t.sender_id == u then t.amount else 0) db.transfers
          (b.transfer ∷ []),
    )

    received_by-book : received_by u (book b db) ≡ received_by u db + into
    unfolding received_by book debit_sender credit_recipient sum_of
    received_by-book = omega (
      arith,
      sum_of-append (λ (t : Transfer). if t.recipient_id == u then t.amount else 0) db.transfers
          (b.transfer ∷ []),
    )

    granted_to-book : granted_to u (book b db) ≡ granted_to u db
    unfolding granted_to book debit_sender credit_recipient
    granted_to-book =
        ap (λ (n : ℕ). initial_balance * n)
          (count-update (λ (w : Wallet). w.user_id == u) _
              (λ (w : Wallet). record w { balance = w.balance + b.transfer.amount }) _ (λ w. refl)
            ∙ count-update (λ (w : Wallet). w.user_id == u) _
                (λ (w : Wallet). record w { balance = w.balance - b.transfer.amount }) _
                (λ w. refl))

    balance_of-book : balance_of u (book b db) + out ≡ balance_of u db + into
    unfolding book
    balance_of-book =
        rw (balance_of-add_row u (audit_row b) (credited b db).0)
          (omega (arith, balance_of-debited, balance_of-credited))

  pub book-IsReconciled : IsReconciled db → IsReconciled (book b db)
  book-IsReconciled r = record {
    at = λ u.
        omega
          (arith, balance_of-book u, sent_by-book u, received_by-book u, granted_to-book u, r.at u);
  }

-- A booking makes and destroys no points, and leaves every wallet in agreement with the transfers.
pub book_conserves : (db : Db) (b : Booking) → IsBookable db b → total (book b db) ≡ total db
book_conserves db b h = total-book db b h
