-- ===== src/Invoice/Runs.antt =====
-- Any sequence of calls keeps the invoices and their payments in order.
use sinkronis_backend.Common.{ℕ, Bool, List, [], ◌∷◌}
use sinkronis_backend.Common.Amount.{Amount, IsWhole}
use sinkronis_backend.Common.Text.{Text}
use sinkronis_backend.Database.{External, IsColumn, Db, after_call}
use sinkronis_backend.Invoice.Draft.{
  Caller, InvoiceInput, InvoiceChange, create_invoice, update_invoice, delete_invoice,
}
use sinkronis_backend.Invoice.Send.{send_invoice}
use sinkronis_backend.Invoice.Pay.{PaymentInput, record_invoice_payment}
use sinkronis_backend.Invoice.Settled.{IsSettled}
use sinkronis_backend.Invoice.DraftKept.{create_invoice-Kept, update_invoice-Kept}
use sinkronis_backend.Invoice.SentKept.{send_invoice-Kept, delete_invoice-Kept}
use sinkronis_backend.Invoice.PaidKept.{record_invoice_payment-Kept}

-- A request to the invoice service, with what it makes up.
pub data InvoiceCall : Type 0 where
  create : ℕ → Text → InvoiceInput → InvoiceCall
  update : ℕ → InvoiceChange → InvoiceCall
  -- whether the mail is accepted
  send : ℕ → Bool → InvoiceCall
  pay : ℕ → PaymentInput → InvoiceCall
  delete : ℕ → InvoiceCall

-- The payments among the calls have at most two decimals.
abbrev pub IsWholeCall : InvoiceCall → Type 0
IsWholeCall (pay i input) = IsWhole input.amount
IsWholeCall _ = Unit

abbrev pub AreWhole : List (Caller × InvoiceCall) → Type 0
AreWhole [] = Unit
AreWhole ((caller, call) ∷ calls) = IsWholeCall call × AreWhole calls

module _ (x : External) (vat : Amount) where
  -- The tables after a call, also after one that is refused.
  pub run_call : Caller → InvoiceCall → Db → Db
  run_call caller (create i number input) db = (create_invoice x vat caller i number input db).1
  run_call caller (update i change) db = (update_invoice x vat caller i change db).1
  run_call caller (send i accepted) db = (send_invoice x caller accepted i db).1
  run_call caller (pay i input) db = (record_invoice_payment x caller i input db).1
  run_call caller (delete i) db = (delete_invoice x caller i db).1

  pub run_calls : List (Caller × InvoiceCall) → Db → Db
  unfolding run_call
  run_calls [] db = db
  run_calls ((caller, call) ∷ calls) db = run_calls calls (run_call caller call db)

  run_call-IsSettled :
      IsColumn x
      → (caller : Caller) (call : InvoiceCall) (db : Db) → IsWholeCall call
      → IsSettled db.books
      → IsSettled (run_call caller call db).books
  unfolding run_call
  run_call-IsSettled columns caller (create i number input) db w h =
      after_call (create_invoice-Kept x vat caller i number input db h)
  run_call-IsSettled columns caller (update i change) db w h =
      after_call (update_invoice-Kept x vat caller i change db h)
  run_call-IsSettled columns caller (send i accepted) db w h =
      after_call (send_invoice-Kept x caller i accepted db h)
  run_call-IsSettled columns caller (pay i input) db w h =
      after_call (record_invoice_payment-Kept x caller i input columns w db h)
  run_call-IsSettled columns caller (delete i) db w h =
      after_call (delete_invoice-Kept x caller i db h)

  -- Any sequence of calls, refused ones included, in which the payments have at most two decimals keeps
  -- every invoice in order. A column is assumed to keep a number that needs no more decimals than it has.
  pub run_calls-IsSettled :
      IsColumn x
      → (calls : List (Caller × InvoiceCall)) (db : Db) → AreWhole calls
      → IsSettled db.books
      → IsSettled (run_calls calls db).books
  unfolding run_calls
  run_calls-IsSettled columns [] db _ h = h
  run_calls-IsSettled columns ((caller, call) ∷ calls) db (w, ws) h =
      run_calls-IsSettled columns calls (run_call caller call db) ws
        (run_call-IsSettled columns caller call db w h)
