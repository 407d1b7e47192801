-- ===== src/Invoice/Replay.antt =====
-- A payment that is recorded again under its reference is recorded once.
use sinkronis_backend.Common.{
  ℕ, not, true, ◌≡◌, refl, ◌∙◌, none, some, arith, inl, inr, Option-cases,
}
use sinkronis_backend.Common.Int.{pos, ◌-ℤ◌, eqb_ℤ_iff}
use sinkronis_backend.Common.Amount.{IsWhole, exceeds, equals}
use sinkronis_backend.Common.Text.{Text, text_eq_self}
use sinkronis_backend.Common.Table.{Table, find, find_where, put, find_where-put_new}
use sinkronis_backend.Database.{
  External, IsColumn, Db, Invoice, InvoicePayment, InvoiceHistory, InvoiceStatus, ok, Returns,
  returns, raises, bind-Returns, bind-Same, weaken, require-Same, ensure-Returns,
  transaction-Returns, catch-Returns, resume, transaction, rolled_back, catch, handled, missing,
  not_payable, exceeds_balance, payment_reference_used,
}
use sinkronis_backend.Audit.{persist_audit_log-Returns}
use sinkronis_backend.Invoice.Amounts.{invoice_receivable, paid_amount, is_payable, display_status}
use sinkronis_backend.Invoice.Whole.{equals_iff}
use sinkronis_backend.Invoice.Store.{add_history, find_invoice, invoice_owned}
use sinkronis_backend.Invoice.Draft.{Caller}
use sinkronis_backend.Invoice.Pay.{
  PaymentInput, new_payment, next_status, as_paid, payment_audit, write_payment, pay_balance,
  pay_new, pay_again, pay_in_transaction, on_error, record_invoice_payment, has_reference,
  is_same_payment,
}
use sinkronis_backend.Invoice.Reads.{invoice_owned-Returns}
use sinkronis_backend.Invoice.Writes.{insert_payment-Returns, modify_invoice-Returns}

module _ (x : External) (caller : Caller) (i : ℕ) (input : PaymentInput) where
  open caller use {organization_id, now}

  -- The first payment with the reference is this one.
  IsRecorded : Table InvoicePayment → Type 0
  IsRecorded t =
      (k : ℕ) × (p : InvoicePayment) × (find_where (has_reference organization_id input.reference) t
        ≡ some (k, p))
      × (is_same_payment x caller i input p ≡ true)

  abbrev Recorded : Db → Type 0
  Recorded db = IsRecorded db.books.payments

  recorded_as :
      IsColumn x → IsWhole input.amount → equals input.amount (pos (x.column input.amount)) ≡ true
  recorded_as columns whole =
      let kept = pos (x.column input.amount) in
      equals_iff x columns input.amount whole kept ∙ (eqb_ℤ_iff kept kept).1 refl

  new_payment-IsRecorded :
      (columns : IsColumn x) (whole : IsWhole input.amount) (t : Table InvoicePayment)
      → find_where (has_reference organization_id input.reference) t ≡ none
      → find input.payment_id t ≡ none
      → IsRecorded (put input.payment_id (new_payment x caller i input) t)
  unfolding IsRecorded
  new_payment-IsRecorded columns whole t unused new = (
    input.payment_id,
    new_payment x caller i input,
    find_where-put_new _ input.payment_id (new_payment x caller i input) t new unused
        (ground (arith, text_eq_self input.reference)),
    ground (arith, recorded_as columns whole),
  )

  write_payment-Recorded :
      IsColumn x
      → IsWhole input.amount
      → (number : Text) (status : InvoiceStatus) (db : Db)
      → find_where (has_reference organization_id input.reference) db.books.payments ≡ none
      → Returns (λ _. Unit {0}) (λ _. Recorded) (write_payment x caller i input number status db)
  unfolding write_payment resume add_history
  write_payment-Recorded columns whole number status db unused =
      bind-Returns
        (weaken (insert_payment-Returns input.payment_id (new_payment x caller i input) db)
          (λ _ db' q. rw q.1 (new_payment-IsRecorded columns whole db.books.payments unused q.0))
          (λ _ _. tt))
        λ _ db' h.
          bind-Returns
            (weaken (modify_invoice-Returns i (as_paid x caller i input status) db')
              (λ _ db'' m. rw m.2 h) (λ _ _. tt))
            λ _ db'' h''. bind-Returns (add_history-Recorded _ db'' h'') λ _ db3 h3.
              weaken
                (persist_audit_log-Returns (λ db h t. h) x caller.stamp
                  (payment_audit x caller i input number status) db3 h3)
                (λ _ _ k. k) (λ _ _. tt)
    where
      add_history-Recorded :
          (row : InvoiceHistory) (db : Db)
          → Recorded db
          → Returns (λ _. Unit {0}) (λ _. Recorded) (add_history row db)
      add_history-Recorded row db h = returns h

  pay_new-Recorded :
      IsColumn x
      → IsWhole input.amount
      → (db : Db)
      → find_where (has_reference organization_id input.reference) db.books.payments ≡ none
      → Returns (λ _. Unit {0}) (λ _. Recorded) (pay_new x caller i input db)
  unfolding pay_new pay_balance resume
  pay_new-Recorded columns whole db unused =
      bind-Same _ (require-Same (find_invoice organization_id i db) missing db tt) λ current owned.
        bind-Same _
          (ensure-Returns (is_payable (display_status current.status current.due_date now))
            not_payable db tt)
          λ _ _.
            let balance = invoice_receivable current -ℤ paid_amount i db.books.payments in
            bind-Same _ (ensure-Returns (not (exceeds input.amount balance)) exceeds_balance db tt)
              λ _ _.
                write_payment-Recorded columns whole current.invoice_no
                  (next_status x caller i input balance) db unused

  pay_again-Recorded :
      (k : ℕ) (p : InvoicePayment) (db : Db)
      → find_where (has_reference organization_id input.reference) db.books.payments ≡ some (k, p)
      → Returns (λ _. Unit {0}) (λ _. Recorded) (pay_again x caller i input p db)
  unfolding pay_again resume IsRecorded
  pay_again-Recorded k p db used =
      bind-Same _ (ensure-Returns (is_same_payment x caller i input p) payment_reference_used db tt)
        λ _ same.
          bind-Same _ (require-Same (find_invoice organization_id i db) missing db tt)
            λ _ _. returns {db = db} (k, p, used, same)

  pay-Recorded :
      IsColumn x
      → IsWhole input.amount
      → (db : Db) → Returns (λ _. Unit {0}) (λ _. Recorded) (pay_in_transaction x caller i input db)
  unfolding pay_in_transaction
  pay-Recorded columns whole db =
      elim (Option-cases
        (find_where (has_reference organization_id input.reference) db.books.payments)) [
          | inl unused ↦ rw (pay_in_transaction, unused) (pay_new-Recorded columns whole db unused)
          | inr ((k, p), used) ↦ rw (pay_in_transaction, used) (pay_again-Recorded k p db used)
        ]

  -- A recorded payment is only looked up.
  again-eq :
      (row : Invoice) (db : Db)
      → Recorded db
      → find_invoice organization_id i db ≡ some row
      → record_invoice_payment x caller i input db ≡ (ok row, db)
  unfolding record_invoice_payment pay_in_transaction pay_again invoice_owned transaction
      rolled_back catch handled resume IsRecorded
  again-eq row db recorded owned =
      let (k, p, used, same) = recorded in
      rw (record_invoice_payment, pay_in_transaction, used, pay_again, same, owned, owned) refl

module _ (x : External) (caller : Caller) (i : ℕ) (input : PaymentInput) where
  again-Recorded :
      (later : Caller) (retry : PaymentInput) (db : Db)
      → Recorded x caller i input db
      → Recorded x
          (record later { organization_id = caller.organization_id })
          i
          (record retry { reference = input.reference; amount = input.amount })
          db
  unfolding IsRecorded
  again-Recorded later retry db h = h

  -- Once the recording of a payment with at most two decimals has returned, recording a payment of the
  -- same organisation, invoice, reference and amount again returns the same invoice and writes nothing. A column
  -- is assumed to keep a number that needs no more decimals than it has.
  pub record_invoice_payment-once :
      IsColumn x
      → IsWhole input.amount
      → (db : Db)
      → Returns
          (λ _. Unit {0})
          (λ row db'.
            (later : Caller) (retry : PaymentInput)
            → record_invoice_payment x
                (record later { organization_id = caller.organization_id })
                i
                (record retry { reference = input.reference; amount = input.amount })
                db'
              ≡ (ok row, db'))
          (record_invoice_payment x caller i input db)
  unfolding record_invoice_payment resume
  record_invoice_payment-once columns whole db =
      bind-Returns
        (catch-Returns {E = λ _. Unit {0}} _ (on_error x caller i input) db
          (transaction-Returns (pay_in_transaction x caller i input) db tt
            (pay-Recorded x caller i input columns whole db))
          (λ e db' _. raises tt))
        λ _ db' h'.
          weaken {E = λ _. Unit {0}} (invoice_owned-Returns db' tt caller.organization_id i)
            (λ row db'' q later retry. rw q.1 (
              again-eq x (record later { organization_id = caller.organization_id }) i
                (record retry { reference = input.reference; amount = input.amount }) row db'
                (again-Recorded later retry db' h') q.0))
            (λ _ _. tt)
