-- ===== src/Invoice/Writes.antt =====
-- What the writes of Invoice/Store.antt leave behind.
use sinkronis_backend.Common.{ℕ, ◌≡◌, refl, none, some, inl, inr, Bool-cases, Option-cases}
use sinkronis_backend.Common.Table.{find, put, any_other}
use sinkronis_backend.Database.{Db, Invoice, InvoicePayment, Returns, returns, raises}
use sinkronis_backend.Invoice.Store.{
  with_books, with_invoices, invoices_conflict, payments_conflict, insert_invoice, modify_invoice,
  insert_payment,
}

pub insert_invoice-Returns :
    (i : ℕ) (row : Invoice) (db : Db)
    → Returns
        (λ db'. db' ≡ db)
        (λ _ db'.
          (find i db.books.invoices ≡ none)
          × (db' ≡ with_books (with_invoices (put i row db.books.invoices) db.books) db))
        (insert_invoice i row db)
unfolding insert_invoice
insert_invoice-Returns i row db = elim (Option-cases (find i db.books.invoices)) [
  | inr (old, e) ↦ rw (e, insert_invoice) (raises refl)
  | inl absent ↦ elim (Bool-cases (any_other i (invoices_conflict row) db.books.invoices)) [
    | inl taken ↦ rw (absent, taken, insert_invoice) (raises refl)
    | inr free ↦ rw (absent, free, insert_invoice) (returns (refl, refl))
  ]
]

pub modify_invoice-Returns :
    (i : ℕ) (f : Invoice → Invoice) (db : Db)
    → Returns
        (λ db'. db' ≡ db)
        (λ _ db'.
          (row : Invoice) × (find i db.books.invoices ≡ some row)
          × (db' ≡ with_books (with_invoices (put i (f row) db.books.invoices) db.books) db))
        (modify_invoice i f db)
unfolding modify_invoice
modify_invoice-Returns i f db = elim (Option-cases (find i db.books.invoices)) [
  | inl absent ↦ rw (absent, modify_invoice) (raises refl)
  | inr (row, e) ↦ elim (Bool-cases (any_other i (invoices_conflict (f row)) db.books.invoices)) [
    | inl taken ↦ rw (e, taken, modify_invoice) (raises refl)
    | inr free ↦ rw (e, free, modify_invoice) (returns (row, refl, refl))
  ]
]

pub insert_payment-Returns :
    (k : ℕ) (row : InvoicePayment) (db : Db)
    → Returns
        (λ db'. db' ≡ db)
        (λ _ db'.
          (find k db.books.payments ≡ none)
          × (db' ≡ with_books (record db.books { payments = put k row db.books.payments }) db))
        (insert_payment k row db)
unfolding insert_payment
insert_payment-Returns k row db = elim (Option-cases (find k db.books.payments)) [
  | inr (old, e) ↦ rw (e, insert_payment) (raises refl)
  | inl absent ↦ elim (Bool-cases (any_other k (payments_conflict row) db.books.payments)) [
    | inl taken ↦ rw (absent, taken, insert_payment) (raises refl)
    | inr free ↦ rw (absent, free, insert_payment) (returns (refl, refl))
  ]
]
