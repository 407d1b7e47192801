-- ===== src/Invoice/Pay.antt =====
-- `recordInvoicePayment`: a payment against an invoice that was sent, once for each reference.
use sinkronis_backend.Common.{ℕ, Bool, Option, none, some, ◌++◌, ◌==◌, ◌&&◌, not, if◌then◌else◌}
use sinkronis_backend.Common.Int.{ℤ, pos, ◌-ℤ◌}
use sinkronis_backend.Common.Amount.{Amount, exceeds, equals}
use sinkronis_backend.Common.Text.{Text, codes, text_eq}
use sinkronis_backend.Common.Decimal.{decimal}
use sinkronis_backend.Common.Table.{find_where}
use sinkronis_backend.Common.Json.{Json, string, object, field, no_fields}
use sinkronis_backend.Database.{
  External, Action, Error, Invoice, InvoicePayment, InvoiceStatus, partially_paid, fully_paid,
  missing, conflict, p2002, payment_reference_used, not_payable, exceeds_balance, pure, raise,
  ensure, require, gets, catch, transaction, ◌>>=◌, ◌>>◌,
}
use sinkronis_backend.Audit.{AuditInput, persist_audit_log}
use sinkronis_backend.Invoice.Amounts.{
  invoice_receivable, display_status, is_payable, is_fully_paid, paid_amount,
}
use sinkronis_backend.Invoice.Store.{
  insert_payment, modify_invoice, record_status, find_invoice, invoice_owned,
}
use sinkronis_backend.Invoice.Draft.{Caller, or_keep}

-- `InvoicePaymentInput`, with the id of the new row, and the amount as it stands in the request
pub record PaymentInput : Type 0 where
  pub payment_id : ℕ
  pub reference : Text
  pub amount : Amount
  pub paid_at : Option ℕ
  pub notes : Option Text
  pub raw_amount : Json

abbrev pub has_reference : ℕ → Text → InvoicePayment → Bool
has_reference o reference p = p.organization_id == o && text_eq p.reference reference

module _ (x : External) (caller : Caller) (i : ℕ) (input : PaymentInput) where
  open caller use {organization_id, user_id, now}
  open input use {payment_id, reference, amount}

  abbrev paid_on : ℕ
  paid_on = or_keep input.paid_at now

  abbrev pub new_payment : InvoicePayment
  new_payment = record {
    organization_id = organization_id;
    invoice_id = i;
    reference = reference;
    amount = pos (x.column amount);
    paid_at = paid_on;
    notes = input.notes;
    recorded_by_id = some user_id;
  }

  abbrev pub next_status : ℤ → InvoiceStatus
  next_status balance = if equals amount balance then fully_paid else partially_paid

  abbrev pub as_paid : InvoiceStatus → Invoice → Invoice
  as_paid status row = record row {
    status = status;
    paid_at = if is_fully_paid status then some paid_on else none;
    payment_reference = if is_fully_paid status then some reference else none;
  }

  abbrev pub payment_audit : Text → InvoiceStatus → AuditInput
  payment_audit invoice_no status =
      let paid_up = is_fully_paid status in
      record {
        organization_id = organization_id;
        actor_user_id = some user_id;
        action = codes "ACCOUNTING_INVOICE_PAYMENT_RECORDED";
        resource = codes "INVOICE";
        resource_id = some (decimal i);
        summary =
            codes "Recorded "
            ++ codes (if paid_up then "final" else "partial")
            ++ codes " payment for "
            ++ invoice_no;
        metadata = some (
            object (
              field (codes "paymentReference") (string reference) (
                field (codes "amount") input.raw_amount (
                  field (codes "status")
                    (string (codes (if paid_up then "PAID" else "PARTIALLY_PAID"))) no_fields))));
      }

  abbrev payment_description : InvoiceStatus → Text
  payment_description status =
      codes (if is_fully_paid status then "Final" else "Partial")
      ++ codes " payment "
      ++ reference
      ++ codes " recorded"

  -- The writes of a new payment.
  unfoldable pub write_payment : Text → InvoiceStatus → Action (Unit {0})
  write_payment invoice_no status = do
    insert_payment payment_id new_payment
    modify_invoice i (as_paid status)
    record_status organization_id i status user_id (payment_description status)
    persist_audit_log x caller.stamp (payment_audit invoice_no status)

  unfoldable pub pay_balance : Invoice → ℤ → Action (Unit {0})
  pay_balance current balance = do
    ensure (not (exceeds amount balance)) exceeds_balance
    write_payment current.invoice_no (next_status balance)

  -- A reference that is not used yet.
  unfoldable pub pay_new : Action (Unit {0})
  pay_new = do
    current ← require (← gets (find_invoice organization_id i)) missing
    ensure (is_payable (display_status current.status current.due_date now)) not_payable
    paid ← gets (λ db. paid_amount i db.books.payments)
    pay_balance current (invoice_receivable current -ℤ paid)

  abbrev pub is_same_payment : InvoicePayment → Bool
  is_same_payment existing = existing.invoice_id == i && equals amount existing.amount

  -- A reference that is used: the same payment again writes nothing.
  unfoldable pub pay_again : InvoicePayment → Action (Unit {0})
  pay_again existing = do
    ensure (is_same_payment existing) payment_reference_used
    _ ← require (← gets (find_invoice organization_id i)) missing
    pure tt

  unfoldable pub pay_in_transaction : Action (Unit {0})
  pay_in_transaction db =
      elim (find_where (has_reference organization_id reference) db.books.payments) [
        | none ↦ pay_new db
        | some (_, existing) ↦ pay_again existing db
      ]

  abbrev reported : Error → Error
  reported p2002 = conflict payment_reference_used
  reported e = e

  abbrev pub on_error : Error → Action (Unit {0})
  on_error e = raise (reported e)

  unfoldable pub record_invoice_payment : Action Invoice
  record_invoice_payment = do
    catch (transaction pay_in_transaction) on_error
    invoice_owned organization_id i
