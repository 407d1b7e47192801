-- ===== src/Invoice/SentKept.antt =====
-- Sending and deleting an invoice keeps the invoices in order.
use mathlib.Core.Option.{some-injective}
use sinkronis_backend.Common.{
  ℕ, Bool, true, false, ◌≡◌, refl, sym, ◌∙◌, Option, some, ◌++◌, ltb, ◌==◌, ◌&&◌, &&-true, inl, inr,
  Bool-cases, Option-cases,
}
use sinkronis_backend.Common.Int.{ℤ, pos}
use sinkronis_backend.Common.Text.{Text, codes}
use sinkronis_backend.Common.Table.{find, count_where}
use sinkronis_backend.Database.{
  External, Db, Invoice, InvoiceStatus, sent, Returns, returns, raises, bind-Returns, bind-Same,
  ensure-Returns, transaction-Returns, resume, only_draft_sent, only_draft_deletable,
  customer_email_missing,
}
use sinkronis_backend.Invoice.Amounts.{paid_amount, is_draft}
use sinkronis_backend.Invoice.Store.{find_invoice}
use sinkronis_backend.Invoice.Draft.{Caller, erase_invoice, delete_invoice, requests_of}
use sinkronis_backend.Invoice.Send.{as_sent, has_email, send_mail, mark_sent, send_invoice}
use sinkronis_backend.Invoice.Reads.{invoice_owned-Returns, find_invoice-found}
use sinkronis_backend.Invoice.Settled.{IsTotalled, IsPaidUp, IsInOrder, remove-IsSettled}
use sinkronis_backend.Invoice.Kept.{
  Kept, audit_invoice-Kept, invoice_owned-Kept, add_history-Kept, modify_invoice-Kept, in_order,
  draft_unpaid,
}

-- The columns that sending and paying change are no part of the totals.
pub same_totals :
    (row : Invoice) (status : InvoiceStatus) (at on : Option ℕ) (reference : Option Text)
    → IsTotalled row
    → IsTotalled
        (record row { status = status; sent_at = at; paid_at = on; payment_reference = reference })
same_totals row status at on reference t = record {
  subtotal_of_lines = t.subtotal_of_lines;
  tax_of_lines = t.tax_of_lines;
  total_of_both = t.total_of_both;
  payable = t.payable;
  wht_within = t.wht_within;
}

sent-IsInOrder :
    (now : ℕ) (row : Invoice) (paid : ℤ)
    → is_draft row.status ≡ true
    → IsInOrder (some row) paid
    → IsInOrder (some (as_sent now row)) paid
unfolding IsInOrder IsPaidUp
sent-IsInOrder now row paid h ordered = (
  same_totals row sent (some now) row.paid_at row.payment_reference ordered.0,
  draft_unpaid row paid h ordered,
)

module _ (x : External) (caller : Caller) (i : ℕ) where
  open caller use {organization_id, user_id, now}

  as_sent-IsInOrder :
      (current : Invoice) (db : Db)
      → Kept db
      → find_invoice organization_id i db ≡ some current
      → is_draft current.status ≡ true
      → (row : Invoice) → find i db.books.invoices ≡ some row
      → IsInOrder (some (as_sent now row)) (paid_amount i db.books.payments)
  as_sent-IsInOrder current db h owned open_row row there =
      let found = find_invoice-found organization_id i db owned in
      let same = some-injective _ _ (sym there ∙ found) in
      rw same (
        sent-IsInOrder now current (paid_amount i db.books.payments) open_row
          (in_order i db h found))

  mark_sent-Kept :
      (current : Invoice) (db : Db)
      → Kept db
      → find_invoice organization_id i db ≡ some current
      → is_draft current.status ≡ true
      → Returns Kept (λ _. Kept) (mark_sent caller i db)
  unfolding mark_sent resume
  mark_sent-Kept current db h owned open_row =
      bind-Returns
        (modify_invoice-Kept i (as_sent now) db h (as_sent-IsInOrder current db h owned open_row))
        λ _ db' h'. add_history-Kept _ db' h'

  send_mail-Same :
      (accepted : Bool) (db : Db)
      → Kept db
      → Returns Kept (λ _ db'. Unit {0} × (db' ≡ db)) (send_mail accepted db)
  send_mail-Same true db h = returns (tt, refl)
  send_mail-Same false db h = raises h

  pub send_invoice-Kept :
      (accepted : Bool) (db : Db)
      → Kept db
      → Returns Kept (λ _. Kept) (send_invoice x caller accepted i db)
  unfolding send_invoice resume
  send_invoice-Kept accepted db h =
      bind-Same _ (invoice_owned-Returns db h organization_id i) λ current owned.
        bind-Same _ (ensure-Returns (is_draft current.status) only_draft_sent db h) λ _ open_row.
          bind-Same _
            (ensure-Returns (has_email (find current.client_id db.books.clients))
              customer_email_missing db h)
            λ _ _. bind-Same _ (send_mail-Same accepted db h) λ _ _.
              bind-Returns
                (transaction-Returns (mark_sent caller i) db h
                  (mark_sent-Kept current db h owned open_row))
                λ _ db' h'.
                  bind-Returns
                    (audit_invoice-Kept x caller (codes "ACCOUNTING_INVOICE_SENT") i
                      (codes "Sent invoice " ++ current.invoice_no) db' h')
                    λ _ db'' h''. invoice_owned-Kept organization_id i db'' h''

erase_invoice-Kept :
    (i : ℕ) (db : Db)
    → Kept db
    → paid_amount i db.books.payments ≡ pos 0
    → Returns Kept (λ _. Kept) (erase_invoice i db)
unfolding erase_invoice
erase_invoice-Kept i db h unpaid = elim (Option-cases (find i db.books.invoices)) [
  | inl absent ↦ rw (erase_invoice, absent) (raises h)
  | inr (row, e) ↦
      let payments = count_where (λ p. p.invoice_id == i) db.books.payments in
      elim (Bool-cases (ltb 0 payments)) [
        | inl some_payment ↦ rw (erase_invoice, e, some_payment) (raises h)
        | inr no_payment ↦
            rw (erase_invoice, e, no_payment)
              (returns (remove-IsSettled i db.books _ h unpaid refl refl))
      ]
]

pub delete_invoice-Kept :
    (x : External) (caller : Caller) (i : ℕ) (db : Db)
    → Kept db
    → Returns Kept (λ _. Kept) (delete_invoice x caller i db)
unfolding delete_invoice resume
delete_invoice-Kept x caller i db h =
    bind-Same _ (invoice_owned-Returns db h caller.organization_id i) λ current owned.
      bind-Same _
        (ensure-Returns (is_draft current.status && requests_of i db == 0) only_draft_deletable db
          h)
        λ _ allowed.
          bind-Returns
            (erase_invoice-Kept i db h (
              draft_unpaid current (paid_amount i db.books.payments) (&&-true _ _ allowed).0
                (in_order i db h (find_invoice-found caller.organization_id i db owned))))
            λ _ db' h'.
              audit_invoice-Kept x caller (codes "ACCOUNTING_INVOICE_DELETED") i
                (codes "Deleted draft invoice " ++ current.invoice_no) db' h'
