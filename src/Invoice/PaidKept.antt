-- ===== src/Invoice/PaidKept.antt =====
-- A payment keeps the invoices in order.
use mathlib.Core.Option.{some-injective}
use sinkronis_backend.Common.{
  ℕ, not, true, false, ◌≡◌, refl, sym, ◌∙◌, none, some, arith, inl, inr, Bool-cases, Option-cases,
  if◌then◌else◌,
}
use sinkronis_backend.Common.Int.{ℤ, pos, ◌+ℤ◌, ◌-ℤ◌, int_laws, eqb_ℤ, leb_ℤ, eqb_ℤ_iff}
use sinkronis_backend.Common.Amount.{IsWhole, exceeds}
use sinkronis_backend.Common.Text.{Text}
use sinkronis_backend.Common.Table.{find, find_where, put}
use sinkronis_backend.Database.{
  External, IsColumn, Db, Error, Invoice, InvoicePayment, InvoiceStatus, partially_paid, fully_paid,
  Returns, returns, raises, bind-Returns, bind-Same, weaken, require-Same, ensure-Returns,
  transaction-Returns, catch-Returns, resume, missing, not_payable, exceeds_balance,
  payment_reference_used,
}
use sinkronis_backend.Audit.{persist_audit_log-Returns}
use sinkronis_backend.Invoice.Amounts.{invoice_receivable, paid_amount, is_payable, display_status}
use sinkronis_backend.Invoice.Whole.{not-exceeds, equals_iff}
use sinkronis_backend.Invoice.Store.{with_books, with_invoices, find_invoice}
use sinkronis_backend.Invoice.Draft.{Caller}
use sinkronis_backend.Invoice.Pay.{
  PaymentInput, new_payment, next_status, as_paid, payment_audit, write_payment, pay_balance,
  pay_new, pay_again, pay_in_transaction, on_error, record_invoice_payment, has_reference,
  is_same_payment,
}
use sinkronis_backend.Invoice.Reads.{find_invoice-found}
use sinkronis_backend.Invoice.Writes.{insert_payment-Returns, modify_invoice-Returns}
use sinkronis_backend.Invoice.Settled.{◌<ℤ◌, IsPaidUp, IsInOrder, pay-IsSettled}
use sinkronis_backend.Invoice.Kept.{Kept, invoice_owned-Kept, add_history-Kept, in_order}
use sinkronis_backend.Invoice.SentKept.{same_totals}

lt_of_leb : (a b : ℤ) → leb_ℤ a b ≡ true → eqb_ℤ a b ≡ false → a <ℤ b
lt_of_leb a b h apart = ground arith

-- The status that a payment gives says how much was paid.
paid_up :
    (due paid amount : ℤ)
    → leb_ℤ amount (due -ℤ paid) ≡ true
    → IsPaidUp
        (if eqb_ℤ amount (due -ℤ paid) then fully_paid else partially_paid)
        due
        (paid +ℤ amount)
unfolding IsPaidUp
paid_up due paid amount within = elim (Bool-cases (eqb_ℤ amount (due -ℤ paid))) [
  | inl whole ↦ let e = (eqb_ℤ_iff amount (due -ℤ paid)).0 whole in rw whole (rw e (omega int_laws))
  | inr partial ↦
      let below = lt_of_leb amount (due -ℤ paid) within partial in
      rw partial (omega (int_laws, below))
]

module _ (x : External) (caller : Caller) (i : ℕ) (input : PaymentInput) (columns : IsColumn x)
    (whole : IsWhole input.amount) where
  open caller use {organization_id, user_id, now}

  paid-IsInOrder :
      (current : Invoice) (paid : ℤ)
      → IsInOrder (some current) paid
      → let balance = invoice_receivable current -ℤ paid in
        not (exceeds input.amount balance) ≡ true
        → IsInOrder
            (some (as_paid x caller i input (next_status x caller i input balance) current))
            (paid +ℤ pos (x.column input.amount))
  unfolding IsInOrder invoice_receivable
  paid-IsInOrder current paid ordered within = (
    same_totals current _ current.sent_at _ _ ordered.0,
    rw (equals_iff x columns input.amount whole (invoice_receivable current -ℤ paid)) (
        paid_up (invoice_receivable current) paid (pos (x.column input.amount)) (
          sym (not-exceeds x columns input.amount whole (invoice_receivable current -ℤ paid))
          ∙ within)),
  )

  paid_books :
      (number : Text) (status : InvoiceStatus) (current : Invoice) (db db' db'' : Db)
      → Kept db
      → find i db.books.invoices ≡ some current
      → IsInOrder
          (some (as_paid x caller i input status current))
          (paid_amount i db.books.payments +ℤ pos (x.column input.amount))
      → find input.payment_id db.books.payments ≡ none
      → db'
        ≡ with_books
            (record db.books {
              payments = put input.payment_id (new_payment x caller i input) db.books.payments;
            })
            db
      → (row : Invoice) → find i db'.books.invoices ≡ some row
      → db''
        ≡ with_books
            (with_invoices
              (put i (as_paid x caller i input status row) db'.books.invoices)
              db'.books)
            db'
      → Kept db''
  paid_books number status current db db' db'' h there ordered new e row found e' =
      let same = some-injective _ _ (sym (rw e at found) ∙ there) in
      rw (e', e, same)
        (pay-IsSettled input.payment_id i (new_payment x caller i input)
          (as_paid x caller i input status current) db.books new refl h ordered)

  write_payment-Kept :
      (number : Text) (status : InvoiceStatus) (current : Invoice) (db : Db)
      → Kept db
      → find i db.books.invoices ≡ some current
      → IsInOrder
          (some (as_paid x caller i input status current))
          (paid_amount i db.books.payments +ℤ pos (x.column input.amount))
      → Returns (λ _. Unit {0}) (λ _. Kept) (write_payment x caller i input number status db)
  unfolding write_payment resume
  write_payment-Kept number status current db h there ordered =
      bind-Returns
        (weaken (insert_payment-Returns input.payment_id (new_payment x caller i input) db)
          (λ _ _ q. q) (λ _ _. tt))
        λ _ db' q.
          bind-Returns
            (weaken (modify_invoice-Returns i (as_paid x caller i input status) db')
              (λ _ db'' m.
                paid_books number status current db db' db'' h there ordered q.0 q.1 m.0 m.1 m.2)
              (λ _ _. tt))
            λ _ db'' h''.
              bind-Returns (weaken (add_history-Kept _ db'' h'') (λ _ _ k. k) (λ _ _. tt))
                λ _ db3 h3.
                  weaken
                    (persist_audit_log-Returns (λ db h t. h) x caller.stamp
                      (payment_audit x caller i input number status) db3 h3)
                    (λ _ _ k. k) (λ _ _. tt)

  pay_balance-Kept :
      (current : Invoice) (db : Db)
      → Kept db
      → find i db.books.invoices ≡ some current
      → Returns
          (λ _. Unit {0})
          (λ _. Kept)
          (pay_balance x caller i input current
            (invoice_receivable current -ℤ paid_amount i db.books.payments)
            db)
  unfolding pay_balance resume
  pay_balance-Kept current db h there =
      let paid = paid_amount i db.books.payments in
      let balance = invoice_receivable current -ℤ paid in
      bind-Same _ (ensure-Returns (not (exceeds input.amount balance)) exceeds_balance db tt)
        λ _ within.
          write_payment-Kept current.invoice_no (next_status x caller i input balance) current db h
            there (paid-IsInOrder current paid (in_order i db h there) within)

  pay_new-Kept :
      (db : Db) → Kept db → Returns (λ _. Unit {0}) (λ _. Kept) (pay_new x caller i input db)
  unfolding pay_new resume
  pay_new-Kept db h =
      bind-Same _ (require-Same (find_invoice organization_id i db) missing db tt) λ current owned.
        bind-Same _
          (ensure-Returns (is_payable (display_status current.status current.due_date now))
            not_payable db tt)
          λ _ _. pay_balance-Kept current db h (find_invoice-found organization_id i db owned)

  pay_again-Kept :
      (existing : InvoicePayment) (db : Db)
      → Kept db
      → Returns (λ _. Unit {0}) (λ _. Kept) (pay_again x caller i input existing db)
  unfolding pay_again resume
  pay_again-Kept existing db h =
      bind-Same _
        (ensure-Returns (is_same_payment x caller i input existing) payment_reference_used db tt)
        λ _ _.
          bind-Same _ (require-Same (find_invoice organization_id i db) missing db tt)
            λ _ _. returns {db = db} h

  pay_in_transaction-Kept :
      (db : Db)
      → Kept db
      → Returns (λ _. Unit {0}) (λ _. Kept) (pay_in_transaction x caller i input db)
  unfolding pay_in_transaction
  pay_in_transaction-Kept db h =
      elim (Option-cases
        (find_where (has_reference organization_id input.reference) db.books.payments)) [
          | inl unused ↦ rw (pay_in_transaction, unused) (pay_new-Kept db h)
          | inr ((k, existing), e) ↦ rw (pay_in_transaction, e) (pay_again-Kept existing db h)
        ]

  on_error-Kept :
      (e : Error) (db : Db) → Kept db → Returns Kept (λ _. Kept) (on_error x caller i input e db)
  on_error-Kept e db h = raises h

  pub record_invoice_payment-Kept :
      (db : Db) → Kept db → Returns Kept (λ _. Kept) (record_invoice_payment x caller i input db)
  unfolding record_invoice_payment resume
  record_invoice_payment-Kept db h =
      bind-Returns
        (catch-Returns _ (on_error x caller i input) db
          (transaction-Returns (pay_in_transaction x caller i input) db h
            (pay_in_transaction-Kept db h))
          on_error-Kept)
        λ _ db' h'. invoice_owned-Kept organization_id i db' h'
