-- ===== src/Invoice/DraftKept.antt =====
-- Creating and changing a draft keeps the invoices in order.
use mathlib.Core.Option.{some-injective}
use sinkronis_backend.Common.{
  ℕ, Bool, true, false, ◌≡◌, refl, sym, Option, none, some, List, ◌∙◌, ◌≤◌, ◌==◌, ◌||◌, arith, inl,
  inr, Bool-cases,
}
use sinkronis_backend.Common.Int.{ℤ}
use sinkronis_backend.Common.Text.{Text}
use sinkronis_backend.Common.Table.{find}
use sinkronis_backend.Database.{
  External, Db, Invoice, InvoiceItem, InvoiceTemplate, draft, Returns, bind-Returns, bind-Same,
  weaken, require-Same, ensure-Returns, transaction-Returns, resume, conflict, wht_rate_invalid,
  only_draft_editable, wht_not_enabled,
}
use sinkronis_backend.Invoice.Amounts.{
  Wht, round_half_up, calculate_invoice_wht, paid_amount, is_draft,
}
use sinkronis_backend.Common.Amount.{Amount}
use sinkronis_backend.Invoice.Lines.{sum_subtotals}
use sinkronis_backend.Invoice.Store.{find_invoice}
use sinkronis_backend.Invoice.Draft.{
  Caller, InvoiceInput, InvoiceChange, new_invoice, store_invoice, create_invoice, or_keep, wht_of,
  default_template, wht_after, may_set_rate, changed_invoice, update_invoice, subtotal_after,
}
use sinkronis_backend.Invoice.Reads.{
  assert_invoice_relations-ReadOnly, resolve_invoice_lines-ReadOnly, changed_lines-ReadOnly,
  invoice_owned-Returns, find_invoice-found,
}
use sinkronis_backend.Invoice.Writes.{insert_invoice-Returns}
use sinkronis_backend.Invoice.Settled.{IsTotalled, IsPaidUp, IsInOrder, IsSettled, put-IsSettled}
use sinkronis_backend.Invoice.Kept.{
  Kept, audit_invoice-Kept, invoice_owned-Kept, add_history-Kept, modify_invoice-Kept, in_order,
  status_of_draft, draft_unpaid,
}

-- The withholding tax is at most a tenth of the subtotal, up to rounding.
wht-within :
    (subtotal : ℕ) (applicable : Bool) (rate : Option ℕ) {wht : Wht}
    → calculate_invoice_wht subtotal applicable rate ≡ some wht
    → wht.amount ≤ subtotal
unfolding calculate_invoice_wht round_half_up
wht-within subtotal false rate e = ground arith
wht-within subtotal true none e = cc
wht-within subtotal true (some rate) e = elim (Bool-cases (rate == 5 || rate == 10)) [
  | inl holds ↦ ground arith
  | inr fails ↦ ground arith
]

fresh-IsInOrder :
    (i : ℕ) (row : Invoice) (db : Db)
    → IsTotalled row
    → row.status ≡ draft
    → Kept db
    → find i db.books.invoices ≡ none
    → IsInOrder (some row) (paid_amount i db.books.payments)
unfolding IsSettled IsInOrder IsPaidUp
fresh-IsInOrder i row db totalled fresh h absent = (totalled, rw fresh (rw absent at (h i)))

draft-IsInOrder :
    (row row' : Invoice) (paid : ℤ)
    → is_draft row.status ≡ true
    → IsInOrder (some row) paid
    → IsTotalled row'
    → row'.status ≡ row.status
    → IsInOrder (some row') paid
unfolding IsInOrder IsPaidUp
draft-IsInOrder row row' paid h ordered totalled same =
    (totalled, rw (same, status_of_draft row h) (draft_unpaid row paid h ordered))

totals : {row : Invoice} (paid : ℤ) → IsInOrder (some row) paid → IsTotalled row
unfolding IsInOrder
totals paid ordered = ordered.0

module _ (x : External) (vat : Amount) (caller : Caller) where
  open caller use {organization_id, user_id}

  new_invoice-IsTotalled :
      (input : InvoiceInput) (number : Text) (lines : List InvoiceItem) (wht : Wht)
      (template : Option InvoiceTemplate)
      → wht.amount ≤ sum_subtotals lines
      → IsTotalled (new_invoice x vat caller input number lines wht template)
  unfolding new_invoice
  new_invoice-IsTotalled input number lines wht template h = record {
    subtotal_of_lines = refl;
    tax_of_lines = refl;
    total_of_both = refl;
    payable = refl;
    wht_within = h;
  }

  new_invoice-status :
      (input : InvoiceInput) (number : Text) (lines : List InvoiceItem) (wht : Wht)
      (template : Option InvoiceTemplate)
      → (new_invoice x vat caller input number lines wht template).status ≡ draft
  unfolding new_invoice
  new_invoice-status input number lines wht template = refl

  store_invoice-Kept :
      (i : ℕ) (row : Invoice) (db : Db)
      → IsTotalled row
      → row.status ≡ draft
      → Kept db
      → Returns Kept (λ _. Kept) (store_invoice x vat caller i row db)
  unfolding store_invoice resume
  store_invoice-Kept i row db totalled fresh h =
      bind-Returns
        (weaken (insert_invoice-Returns i row db)
          (λ _ db' q.
            rw q.1 (put-IsSettled i row db.books h (fresh-IsInOrder i row db totalled fresh h q.0)))
          (λ db' e. rw e h))
        λ _ db' h'. add_history-Kept _ db' h'

  pub create_invoice-Kept :
      (i : ℕ) (number : Text) (input : InvoiceInput) (db : Db)
      → Kept db
      → Returns Kept (λ _. Kept) (create_invoice x vat caller i number input db)
  unfolding create_invoice resume
  create_invoice-Kept i number input db h =
      bind-Same _
        (assert_invoice_relations-ReadOnly db h organization_id input.client_id input.project_id
          input.assigned_agent_id)
        λ _ _.
          bind-Same _ (resolve_invoice_lines-ReadOnly db h x vat organization_id input.items)
            λ lines _.
              bind-Same _
                (require-Same (wht_of x vat caller input lines) (conflict wht_rate_invalid) db h)
                λ wht e.
                  let template = default_template organization_id db in
                  let within =
                    wht-within (sum_subtotals lines) (or_keep input.wht_applicable false)
                      input.wht_rate e in
                  bind-Returns
                    (transaction-Returns _ db h (
                      store_invoice-Kept i
                        (new_invoice x vat caller input number lines wht template) db
                        (new_invoice-IsTotalled input number lines wht template within)
                        (new_invoice-status input number lines wht template) h))
                    λ _ db' h'.
                      bind-Returns (audit_invoice-Kept x caller _ i _ db' h')
                        λ _ db'' h''. invoice_owned-Kept organization_id i db'' h''

  -- The change keeps a draft totalled: the lines that stay are still those of the subtotal.
  changed_invoice-IsTotalled :
      (change : InvoiceChange) (row : Invoice) (lines : Option (List InvoiceItem)) (wht : Wht)
      → IsTotalled row
      → wht.amount ≤ subtotal_after x vat caller lines row
      → IsTotalled (changed_invoice x vat caller change row lines wht row)
  unfolding changed_invoice
  changed_invoice-IsTotalled change row none wht t h = record {
    subtotal_of_lines = t.subtotal_of_lines;
    tax_of_lines = t.tax_of_lines;
    total_of_both = t.total_of_both;
    payable = rw t.total_of_both refl;
    wht_within = h;
  }
  changed_invoice-IsTotalled change row (some lines) wht t h = record {
    subtotal_of_lines = refl;
    tax_of_lines = refl;
    total_of_both = refl;
    payable = refl;
    wht_within = h;
  }

  changed_invoice-status :
      (change : InvoiceChange) (current row : Invoice) (lines : Option (List InvoiceItem))
      (wht : Wht)
      → (changed_invoice x vat caller change current lines wht row).status ≡ row.status
  unfolding changed_invoice
  changed_invoice-status change current row none wht = refl
  changed_invoice-status change current row (some lines) wht = refl

  changed_invoice-IsInOrder :
      (i : ℕ) (change : InvoiceChange) (current : Invoice) (lines : Option (List InvoiceItem))
      (wht : Wht) (db : Db)
      → Kept db
      → find_invoice organization_id i db ≡ some current
      → is_draft current.status ≡ true
      → wht.amount ≤ subtotal_after x vat caller lines current
      → (row : Invoice) → find i db.books.invoices ≡ some row
      → IsInOrder
          (some (changed_invoice x vat caller change current lines wht row))
          (paid_amount i db.books.payments)
  changed_invoice-IsInOrder i change current lines wht db h owned open_row within row there =
      let found = find_invoice-found organization_id i db owned in
      let same = some-injective _ _ (sym there ∙ found) in
      let ordered = in_order i db h found in
      rw same (
        draft-IsInOrder current (changed_invoice x vat caller change current lines wht current)
          (paid_amount i db.books.payments) open_row ordered
          (changed_invoice-IsTotalled change current lines wht
            (totals (paid_amount i db.books.payments) ordered) within)
          (changed_invoice-status change current current lines wht))

  pub update_invoice-Kept :
      (i : ℕ) (change : InvoiceChange) (db : Db)
      → Kept db
      → Returns Kept (λ _. Kept) (update_invoice x vat caller i change db)
  unfolding update_invoice resume
  update_invoice-Kept i change db h =
      bind-Same _ (invoice_owned-Returns db h organization_id i) λ current owned.
        bind-Same _ (ensure-Returns (is_draft current.status) only_draft_editable db h)
          λ _ open_row.
            bind-Same _ (assert_invoice_relations-ReadOnly db h organization_id _ _ _) λ _ _.
              bind-Same _ (changed_lines-ReadOnly db h x vat caller change.items) λ lines _.
                bind-Same _
                  (ensure-Returns (may_set_rate x vat caller change current) wht_not_enabled db h)
                  λ _ _.
                    bind-Same _
                      (require-Same (wht_after x vat caller change current lines)
                        (conflict wht_rate_invalid) db h)
                      λ wht e.
                        bind-Returns
                          (modify_invoice-Kept i
                            (changed_invoice x vat caller change current lines wht) db h
                            (changed_invoice-IsInOrder i change current lines wht db h owned
                              open_row
                              (wht-within (subtotal_after x vat caller lines current) _ _ e)))
                          λ _ db' h'.
                            bind-Returns (audit_invoice-Kept x caller _ i _ db' h')
                              λ _ db'' h''. invoice_owned-Kept organization_id i db'' h''
