-- ===== src/Invoice/Store.antt =====
-- Reading and writing the tables of the invoices, under the unique constraints of
-- prisma/schema.prisma.
use sinkronis_backend.Common.{
  ℕ, Bool, Option, none, some, ◌∷◌, ◌==◌, ◌&&◌, ◌||◌, is_set, if◌then◌else◌,
}
use sinkronis_backend.Common.Text.{Text, text_eq}
use sinkronis_backend.Common.Table.{Table, find, put, any_other}
use sinkronis_backend.Database.{
  Db, Action, ok, err, p2002, p2025, missing, Books, Invoice, InvoicePayment, InvoiceHistory,
  InvoiceStatus, same_text, require,
}

abbrev pub with_books : Books → Db → Db
with_books books db = record db { books = books }

abbrev pub with_invoices : Table Invoice → Books → Books
with_invoices t books = record books { invoices = t }

-- The unique constraints of the model Invoice.
unfoldable pub invoices_conflict : Invoice → Invoice → Bool
invoices_conflict a b =
    a.organization_id == b.organization_id
    && (text_eq a.invoice_no b.invoice_no || same_text a.payment_reference b.payment_reference)

-- The unique constraint of the model AccountingInvoicePayment.
unfoldable pub payments_conflict : InvoicePayment → InvoicePayment → Bool
payments_conflict a b = a.organization_id == b.organization_id && text_eq a.reference b.reference

unfoldable pub insert_invoice : ℕ → Invoice → Action (Unit {0})
insert_invoice i row db =
    if is_set (find i db.books.invoices) || any_other i (invoices_conflict row) db.books.invoices
    then (err p2002, db)
    else (ok tt, with_books (with_invoices (put i row db.books.invoices) db.books) db)

unfoldable pub modify_invoice : ℕ → (Invoice → Invoice) → Action (Unit {0})
modify_invoice i f db = elim (find i db.books.invoices) [
  | none ↦ (err p2025, db)
  | some row ↦
      if any_other i (invoices_conflict (f row)) db.books.invoices
      then (err p2002, db)
      else (ok tt, with_books (with_invoices (put i (f row) db.books.invoices) db.books) db)
]

unfoldable pub insert_payment : ℕ → InvoicePayment → Action (Unit {0})
insert_payment k row db =
    if is_set (find k db.books.payments) || any_other k (payments_conflict row) db.books.payments
    then (err p2002, db)
    else (ok tt, with_books (record db.books { payments = put k row db.books.payments }) db)

unfoldable pub add_history : InvoiceHistory → Action (Unit {0})
add_history row db = (ok tt, with_books (record db.books { history = row ∷ db.books.history }) db)

abbrev entry : ℕ → ℕ → InvoiceStatus → ℕ → Text → InvoiceHistory
entry o i status user description = record {
  organization_id = o;
  invoice_id = i;
  status = status;
  actor_user_id = some user;
  description = description;
}

-- `accountingInvoiceStatusHistory.create`
abbrev pub record_status : ℕ → ℕ → InvoiceStatus → ℕ → Text → Action (Unit {0})
record_status o i status user description = add_history (entry o i status user description)

abbrev pub owned_by : {A : Type 0} → (A → ℕ) → ℕ → Option A → Option A
owned_by organization o none = none
owned_by organization o (some a) = if organization a == o then some a else none

abbrev pub find_invoice : ℕ → ℕ → Db → Option Invoice
find_invoice o i db = owned_by (λ row. row.organization_id) o (find i db.books.invoices)

-- `invoiceOwned`
unfoldable pub invoice_owned : ℕ → ℕ → Action Invoice
invoice_owned o i = λ db. require (find_invoice o i db) missing db
