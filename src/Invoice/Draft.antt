-- ===== src/Invoice/Draft.antt =====
-- `createInvoice`, `updateInvoice` and `deleteInvoice`. The VAT rate comes from the configuration of
-- the platform.
use sinkronis_backend.Common.{
  ℕ, Bool, false, Option, none, some, List, ◌++◌, ◌+◌, ◌==◌, ◌&&◌, ◌||◌, not, ltb, filter, is_set,
  if◌then◌else◌,
}
use sinkronis_backend.Common.Int.{pos, ◌-ℤ◌}
use sinkronis_backend.Common.Amount.{Amount}
use sinkronis_backend.Common.Text.{Text, codes}
use sinkronis_backend.Common.Decimal.{decimal}
use sinkronis_backend.Common.Table.{find, find_where, remove, count_where}
use sinkronis_backend.Database.{
  External, Db, Action, ok, err, conflict, Invoice, InvoiceItem, InvoiceTemplate, draft,
  wht_rate_invalid, wht_not_enabled, only_draft_editable, only_draft_deletable, p2003, p2025, pure,
  ensure, require, gets, transaction, ◌>>=◌, ◌>>◌,
}
use sinkronis_backend.Audit.{Stamp, create_audit_log}
use sinkronis_backend.Invoice.Amounts.{Wht, calculate_invoice_wht, is_draft}
use sinkronis_backend.Invoice.Lines.{LineInput, resolve_invoice_lines, sum_subtotals, sum_vat}
use sinkronis_backend.Invoice.Relations.{assert_invoice_relations}
use sinkronis_backend.Invoice.Store.{
  with_books, insert_invoice, modify_invoice, record_status, invoice_owned,
}

-- Who calls, and what the call makes up: `reference("INV")`, the ids, the time.
pub record Caller : Type 0 where
  pub organization_id : ℕ
  pub user_id : ℕ
  pub now : ℕ
  pub stamp : Stamp

-- `InvoiceCreateInput`
pub record InvoiceInput : Type 0 where
  pub client_id : ℕ
  pub assigned_agent_id : Option ℕ
  pub project_id : Option ℕ
  pub issue_date : Option ℕ
  pub due_date : ℕ
  pub notes : Option Text
  pub wht_applicable : Option Bool
  pub wht_rate : Option ℕ
  pub items : List LineInput

-- `InvoiceUpdateInput`; an inner `none` sets the column to NULL
pub record InvoiceChange : Type 0 where
  pub client_id : Option ℕ
  pub assigned_agent_id : Option (Option ℕ)
  pub project_id : Option (Option ℕ)
  pub issue_date : Option ℕ
  pub due_date : Option ℕ
  pub notes : Option Text
  pub wht_applicable : Option Bool
  pub wht_rate : Option ℕ
  pub items : Option (List LineInput)

-- `a ?? b`
abbrev pub or_keep : {A : Type 0} → Option A → A → A
or_keep none b = b
or_keep (some a) b = a

abbrev row_of : {A : Type 0} → Option (ℕ × A) → Option A
row_of none = none
row_of (some (_, a)) = some a

abbrev pub default_template : ℕ → Db → Option InvoiceTemplate
default_template o db =
    row_of (find_where (λ t. t.organization_id == o && t.is_default) db.books.templates)

-- `audit` of the accounting service
unfoldable pub audit_invoice : External → Caller → Text → ℕ → Text → Action (Unit {0})
audit_invoice x caller action i summary = create_audit_log x caller.stamp (record {
  organization_id = caller.organization_id;
  actor_user_id = some caller.user_id;
  action = action;
  resource = codes "INVOICE";
  resource_id = some (decimal i);
  summary = summary;
  metadata = none;
})

module _ (x : External) (vat : Amount) (caller : Caller) where
  open caller use {organization_id, user_id, now}

  unfoldable pub new_invoice :
      InvoiceInput → Text → List InvoiceItem → Wht → Option InvoiceTemplate → Invoice
  new_invoice input invoice_no lines wht template = record {
    organization_id = organization_id;
    client_id = input.client_id;
    invoice_no = invoice_no;
    issue_date = or_keep input.issue_date now;
    due_date = some input.due_date;
    status = draft;
    subtotal = sum_subtotals lines;
    tax_amount = sum_vat lines;
    total = sum_subtotals lines + sum_vat lines;
    wht_applicable = or_keep input.wht_applicable false;
    wht_rate = wht.rate;
    wht_amount = wht.amount;
    amount_payable = pos (sum_subtotals lines + sum_vat lines) -ℤ pos wht.amount;
    notes = input.notes;
    project_id = input.project_id;
    assigned_agent_id = input.assigned_agent_id;
    sent_at = none;
    paid_at = none;
    payment_reference = none;
    template_snapshot = template;
    items = lines;
  }

  unfoldable pub store_invoice : ℕ → Invoice → Action (Unit {0})
  store_invoice i row = do
    insert_invoice i row
    record_status organization_id i draft user_id (codes "Invoice created")

  abbrev pub wht_of : InvoiceInput → List InvoiceItem → Option Wht
  wht_of input lines =
      calculate_invoice_wht (sum_subtotals lines) (or_keep input.wht_applicable false)
        input.wht_rate

  unfoldable pub create_invoice : ℕ → Text → InvoiceInput → Action Invoice
  create_invoice i invoice_no input = do
    assert_invoice_relations organization_id input.client_id input.project_id
        input.assigned_agent_id
    lines ← resolve_invoice_lines x vat organization_id input.items
    template ← gets (default_template organization_id)
    wht ← require (wht_of input lines) (conflict wht_rate_invalid)
    transaction (store_invoice i (new_invoice input invoice_no lines wht template))
    audit_invoice x caller (codes "ACCOUNTING_INVOICE_CREATED") i
        (codes "Created invoice " ++ invoice_no)
    invoice_owned organization_id i

  -- The new lines, and none if the lines stay.
  unfoldable pub changed_lines : Option (List LineInput) → Action (Option (List InvoiceItem))
  changed_lines none = pure none
  changed_lines (some items) = do
    lines ← resolve_invoice_lines x vat organization_id items
    pure (some lines)

  abbrev pub subtotal_after : Option (List InvoiceItem) → Invoice → ℕ
  subtotal_after none current = current.subtotal
  subtotal_after (some lines) current = sum_subtotals lines

  abbrev pub tax_after : Option (List InvoiceItem) → Invoice → ℕ
  tax_after none current = current.tax_amount
  tax_after (some lines) current = sum_vat lines

  -- `requestedRate`; the rate of a row is in percent already
  abbrev pub requested_rate : Option ℕ → Option ℕ → Option ℕ
  requested_rate none rate = rate
  requested_rate (some rate) _ = some rate

  -- `lines ? { subtotal, taxAmount, total, items } : {}`
  abbrev pub with_lines : Option (List InvoiceItem) → Invoice → Invoice
  with_lines none row = row
  with_lines (some lines) row = record row {
    subtotal = sum_subtotals lines;
    tax_amount = sum_vat lines;
    total = sum_subtotals lines + sum_vat lines;
    items = lines;
  }

  unfoldable pub changed_invoice :
      InvoiceChange → Invoice → Option (List InvoiceItem) → Wht → Invoice → Invoice
  changed_invoice change current lines wht row =
      let total = subtotal_after lines current + tax_after lines current in
      with_lines lines (record row {
        client_id = or_keep change.client_id row.client_id;
        assigned_agent_id = or_keep change.assigned_agent_id row.assigned_agent_id;
        project_id = or_keep change.project_id row.project_id;
        issue_date = or_keep change.issue_date row.issue_date;
        due_date = elim change.due_date [ none ↦ row.due_date | some due ↦ some due ];
        notes = elim change.notes [ none ↦ row.notes | some notes ↦ some notes ];
        wht_applicable = or_keep change.wht_applicable current.wht_applicable;
        wht_rate = wht.rate;
        wht_amount = wht.amount;
        amount_payable = pos total -ℤ pos wht.amount;
      })

  -- `whtApplicable`
  abbrev applicable_after : InvoiceChange → Invoice → Bool
  applicable_after change current = or_keep change.wht_applicable current.wht_applicable

  abbrev pub may_set_rate : InvoiceChange → Invoice → Bool
  may_set_rate change current = applicable_after change current || not (is_set change.wht_rate)

  abbrev pub wht_after : InvoiceChange → Invoice → Option (List InvoiceItem) → Option Wht
  wht_after change current lines =
      calculate_invoice_wht (subtotal_after lines current) (applicable_after change current)
        (requested_rate change.wht_rate current.wht_rate)

  unfoldable pub update_invoice : ℕ → InvoiceChange → Action Invoice
  update_invoice i change = do
    current ← invoice_owned organization_id i
    ensure (is_draft current.status) only_draft_editable
    assert_invoice_relations organization_id (or_keep change.client_id current.client_id)
        (or_keep change.project_id current.project_id)
        (or_keep change.assigned_agent_id current.assigned_agent_id)
    lines ← changed_lines change.items
    ensure (may_set_rate change current) wht_not_enabled
    wht ← require (wht_after change current lines) (conflict wht_rate_invalid)
    modify_invoice i (changed_invoice change current lines wht)
    audit_invoice x caller (codes "ACCOUNTING_INVOICE_UPDATED") i
        (codes "Updated invoice " ++ current.invoice_no)
    invoice_owned organization_id i

-- `prisma.invoice.delete`: a payment restricts it, and the history goes with the invoice.
unfoldable pub erase_invoice : ℕ → Action (Unit {0})
erase_invoice i db = elim (find i db.books.invoices) [
  | none ↦ (err p2025, db)
  | some _ ↦
      if ltb 0 (count_where (λ p. p.invoice_id == i) db.books.payments) then (err p2003, db) else (
        ok tt,
        with_books
            (record db.books {
              invoices = remove i db.books.invoices;
              history = filter (λ h. not (h.invoice_id == i)) db.books.history;
            })
            db,
      )
]

abbrev pub requests_of : ℕ → Db → ℕ
requests_of i db = count_where (λ r. is_invoice i r.invoice_id) db.payment_requests
  where
    is_invoice : ℕ → Option ℕ → Bool
    is_invoice i none = false
    is_invoice i (some j) = j == i

unfoldable pub delete_invoice : External → Caller → ℕ → Action (Unit {0})
delete_invoice x caller i = do
  current ← invoice_owned caller.organization_id i
  requests ← gets (requests_of i)
  ensure (is_draft current.status && requests == 0) only_draft_deletable
  erase_invoice i
  audit_invoice x caller (codes "ACCOUNTING_INVOICE_DELETED") i
      (codes "Deleted draft invoice " ++ current.invoice_no)
