-- ===== src/Invoice/Settled.antt =====
-- When the invoices and their payments agree.
use mathlib.Core.Path.{subst}
use sinkronis_backend.Common.{
  ==_iff, ℕ, false, ◌≡◌, Option, none, some, ◌+◌, ◌==◌, ◌≤◌, ◌<◌, arith, inl, inr, Bool-cases,
}
use sinkronis_backend.Common.Int.{ℤ, pos, ◌+ℤ◌, ◌-ℤ◌, ◌≤ℤ◌, pos_part, neg_part, int_laws}
use sinkronis_backend.Common.Table.{Table, find, put, remove, find-put, find-remove, sum_of-put_new}
use sinkronis_backend.Database.{
  Books, Invoice, InvoicePayment, InvoiceStatus, draft, sent, partially_paid, fully_paid, void,
  overdue,
}
use sinkronis_backend.Invoice.Amounts.{invoice_receivable, paid_amount, share}
use sinkronis_backend.Invoice.Lines.{sum_subtotals, sum_vat}
use sinkronis_backend.Invoice.Store.{with_invoices}

infix 50 ◌<ℤ◌
abbrev pub ◌<ℤ◌ : ℤ → ℤ → Type 0
a <ℤ b = pos_part a + neg_part b < pos_part b + neg_part a

-- The totals are those of the lines.
pub record IsTotalled (row : Invoice) : Type 0 where
  pub subtotal_of_lines : row.subtotal ≡ sum_subtotals row.items
  pub tax_of_lines : row.tax_amount ≡ sum_vat row.items
  pub total_of_both : row.total ≡ row.subtotal + row.tax_amount
  pub payable : row.amount_payable ≡ pos row.total -ℤ pos row.wht_amount
  pub wht_within : row.wht_amount ≤ row.subtotal

-- What the status says of the amount paid and the amount due.
unfoldable pub IsPaidUp : InvoiceStatus → ℤ → ℤ → Type 0
IsPaidUp draft due paid = paid ≡ pos 0
IsPaidUp sent due paid = paid ≡ pos 0
IsPaidUp partially_paid due paid = paid <ℤ due
IsPaidUp fully_paid due paid = paid ≡ due
IsPaidUp void due paid = Unit
IsPaidUp overdue due paid = paid ≤ℤ due

-- An invoice that is not there has no payment.
unfoldable pub IsInOrder : Option Invoice → ℤ → Type 0
unfolding IsPaidUp
IsInOrder none paid = paid ≡ pos 0
IsInOrder (some row) paid = IsTotalled row × IsPaidUp row.status (invoice_receivable row) paid

unfoldable pub IsSettled : Books → Type 0
unfolding IsInOrder
IsSettled books = (i : ℕ) → IsInOrder (find i books.invoices) (paid_amount i books.payments)

-- The invoice `i` becomes `row`, with the payments that it has.
pub put-IsSettled :
    (i : ℕ) (row : Invoice) (books : Books)
    → IsSettled books
    → IsInOrder (some row) (paid_amount i books.payments)
    → IsSettled (with_invoices (put i row books.invoices) books)
unfolding IsSettled
put-IsSettled i row books h now j = elim (Bool-cases (i == j)) [
  | inl same ↦
      let e = (==_iff i j).0 same in
      rw (find-put i j, same)
        (subst (λ k. IsInOrder (some row) (paid_amount k books.payments)) e now)
  | inr apart ↦ rw (find-put i j, apart) (h j)
]

pub remove-IsSettled :
    (i : ℕ) (books books' : Books)
    → IsSettled books
    → paid_amount i books.payments ≡ pos 0
    → books'.invoices ≡ remove i books.invoices
    → books'.payments ≡ books.payments
    → IsSettled books'
unfolding IsSettled IsInOrder
remove-IsSettled i books books' h unpaid e p j = elim (Bool-cases (i == j)) [
  | inl same ↦
      let here = (==_iff i j).0 same in
      rw (e, p, find-remove i j, same)
        (subst (λ k. paid_amount k books.payments ≡ pos 0) here unpaid)
  | inr apart ↦ rw (e, p, find-remove i j, apart) (h j)
]

-- A new payment counts for its invoice only.
pub paid_amount-put :
    (k j : ℕ) (p : InvoicePayment) (t : Table InvoicePayment)
    → find k t ≡ none
    → paid_amount j (put k p t) ≡ paid_amount j t +ℤ share j p
unfolding paid_amount
paid_amount-put k j p t new = sum_of-put_new (share j) k p t new

share_here : (i : ℕ) (p : InvoicePayment) → p.invoice_id ≡ i → share i p ≡ p.amount
share_here i p e = ground arith

share_apart :
    (i j : ℕ) (p : InvoicePayment) → p.invoice_id ≡ i → (i == j) ≡ false → share j p ≡ pos 0
share_apart i j p e apart = ground arith

+ℤ_zero : (a : ℤ) → a +ℤ pos 0 ≡ a
+ℤ_zero a = omega int_laws

-- A payment is added and its invoice becomes `row`.
pub pay-IsSettled :
    (k i : ℕ) (p : InvoicePayment) (row : Invoice) (books : Books)
    → find k books.payments ≡ none
    → p.invoice_id ≡ i
    → IsSettled books
    → IsInOrder (some row) (paid_amount i books.payments +ℤ p.amount)
    → IsSettled (
        with_invoices
          (put i row books.invoices)
          (record books { payments = put k p books.payments }))
unfolding IsSettled
pay-IsSettled k i p row books new own h now j = elim (Bool-cases (i == j)) [
  | inl same ↦
      let e = (==_iff i j).0 same in
      rw (find-put i j, same, paid_amount-put k j p books.payments new, ← e, share_here i p own) now
  | inr apart ↦
      rw
        (
          find-put i j,
          apart,
          paid_amount-put k j p books.payments new,
          share_apart i j p own apart,
          +ℤ_zero,
        )
        (h j)
]
