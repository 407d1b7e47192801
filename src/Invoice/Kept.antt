-- ===== src/Invoice/Kept.antt =====
-- The steps that the calls on invoices share keep the invoices and their payments in order.
use sinkronis_backend.Common.{ℕ, true, ◌≡◌, some, arith}
use sinkronis_backend.Common.Int.{ℤ, pos}
use sinkronis_backend.Common.Text.{Text}
use sinkronis_backend.Common.Table.{find}
use sinkronis_backend.Database.{
  External, Db, Invoice, InvoiceHistory, draft, Returns, returns, weaken,
}
use sinkronis_backend.Audit.{create_audit_log-Returns}
use sinkronis_backend.Invoice.Amounts.{paid_amount, is_draft}
use sinkronis_backend.Invoice.Store.{add_history, invoice_owned, modify_invoice}
use sinkronis_backend.Invoice.Draft.{Caller, audit_invoice}
use sinkronis_backend.Invoice.Reads.{invoice_owned-Returns}
use sinkronis_backend.Invoice.Writes.{modify_invoice-Returns}
use sinkronis_backend.Invoice.Settled.{IsPaidUp, IsInOrder, IsSettled, put-IsSettled}

abbrev pub Kept : Db → Type 0
Kept db = IsSettled db.books

pub audit_invoice-Kept :
    (x : External) (caller : Caller) (action : Text) (i : ℕ) (summary : Text) (db : Db)
    → Kept db
    → Returns Kept (λ _. Kept) (audit_invoice x caller action i summary db)
unfolding audit_invoice
audit_invoice-Kept x caller action i summary db h =
    create_audit_log-Returns (λ db h t. h) x caller.stamp _ db h

pub invoice_owned-Kept :
    (o i : ℕ) (db : Db) → Kept db → Returns Kept (λ _. Kept) (invoice_owned o i db)
invoice_owned-Kept o i db h = weaken (invoice_owned-Returns db h o i) (λ _ _ q. rw q.1 h) (λ _ e. e)

-- The history is number part of the invariant.
pub add_history-Kept :
    (row : InvoiceHistory) (db : Db) → Kept db → Returns Kept (λ _. Kept) (add_history row db)
unfolding add_history IsSettled
add_history-Kept row db h = returns h

-- The row `i` is rewritten in a way that keeps it in order.
pub modify_invoice-Kept :
    (i : ℕ) (f : Invoice → Invoice) (db : Db)
    → Kept db
    → ((row : Invoice)
        → find i db.books.invoices ≡ some row
        → IsInOrder (some (f row)) (paid_amount i db.books.payments))
    → Returns Kept (λ _. Kept) (modify_invoice i f db)
modify_invoice-Kept i f db h k =
    weaken (modify_invoice-Returns i f db)
      (λ _ db' q. rw q.2 (put-IsSettled i (f q.0) db.books h (k q.0 q.1))) (λ db' e. rw e h)

pub in_order :
    (i : ℕ) (db : Db) {row : Invoice}
    → Kept db
    → find i db.books.invoices ≡ some row
    → IsInOrder (some row) (paid_amount i db.books.payments)
unfolding IsSettled
in_order i db h e = rw e at (h i)

pub status_of_draft : (row : Invoice) → is_draft row.status ≡ true → row.status ≡ draft
status_of_draft row h = ground arith

-- A draft has number payment.
pub draft_unpaid :
    (row : Invoice) (paid : ℤ)
    → is_draft row.status ≡ true
    → IsInOrder (some row) paid
    → paid ≡ pos 0
unfolding IsInOrder IsPaidUp
draft_unpaid row paid h ordered = rw (status_of_draft row h) at ordered.1
