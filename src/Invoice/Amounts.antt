-- ===== src/Invoice/Amounts.antt =====
-- The amounts of an invoice: rounding, the withholding tax, what remains to be paid.
use sinkronis_backend.Common.{
  ℕ, Bool, true, false, Option, none, some, ◌+◌, ◌*◌, ◌/◌, ◌==◌, ◌||◌, ltb, if◌then◌else◌,
}
use sinkronis_backend.Common.Int.{ℤ, pos, ◌-ℤ◌, ltb_ℤ}
use sinkronis_backend.Common.Table.{Table, sum_of}
use sinkronis_backend.Database.{
  Invoice, InvoicePayment, InvoiceStatus, draft, sent, partially_paid, fully_paid, overdue,
}

-- `toDecimalPlaces(2)` of `n / scale` hundredths, with the half rounded up, for an even scale
unfoldable pub round_half_up : ℕ → ℕ → ℕ
round_half_up n scale = (n + scale / 2) / scale

-- The rate in percent, and the tax.
pub record Wht : Type 0 where
  pub rate : Option ℕ
  pub amount : ℕ

-- `calculateInvoiceWht`; `none` is the conflict
unfoldable pub calculate_invoice_wht : ℕ → Bool → Option ℕ → Option Wht
unfolding round_half_up
calculate_invoice_wht subtotal false rate = some (record { rate = none; amount = 0 })
calculate_invoice_wht subtotal true none = none
calculate_invoice_wht subtotal true (some rate) =
    if rate == 5 || rate == 10
    then some (record { rate = some rate; amount = round_half_up (subtotal * rate) 100 })
    else none

-- `invoiceReceivable`
unfoldable pub invoice_receivable : Invoice → ℤ
invoice_receivable invoice =
    if ltb_ℤ (pos 0) invoice.amount_payable
    then invoice.amount_payable
    else pos invoice.total -ℤ pos invoice.wht_amount

abbrev is_past : Option ℕ → ℕ → Bool
is_past none now = false
is_past (some due) now = ltb due now

-- `accountingInvoiceDisplayStatus`
unfoldable pub display_status : InvoiceStatus → Option ℕ → ℕ → InvoiceStatus
display_status sent due now = if is_past due now then overdue else sent
display_status partially_paid due now = if is_past due now then overdue else partially_paid
display_status status due now = status

abbrev pub is_payable : InvoiceStatus → Bool
is_payable sent = true
is_payable partially_paid = true
is_payable overdue = true
is_payable _ = false

abbrev pub is_draft : InvoiceStatus → Bool
is_draft draft = true
is_draft _ = false

abbrev pub is_fully_paid : InvoiceStatus → Bool
is_fully_paid fully_paid = true
is_fully_paid _ = false

-- The amount of a payment, if it is for the invoice.
abbrev pub share : ℕ → InvoicePayment → ℤ
share i p = if p.invoice_id == i then p.amount else pos 0

-- The sum of the payments of an invoice.
unfoldable pub paid_amount : ℕ → Table InvoicePayment → ℤ
unfolding sum_of
paid_amount i payments = sum_of (share i) payments
