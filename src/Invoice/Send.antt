-- ===== src/Invoice/Send.antt =====
-- `sendInvoice`. The mail goes out before the row is written; whether it is accepted is an argument.
use sinkronis_backend.Common.{ℕ, Bool, true, false, Option, none, some, ◌∷◌, ◌++◌}
use sinkronis_backend.Common.Text.{codes}
use sinkronis_backend.Common.Table.{find}
use sinkronis_backend.Database.{
  External, Action, Client, Invoice, sent, only_draft_sent, customer_email_missing, mail_failed,
  pure, raise, ensure, gets, transaction, ◌>>=◌, ◌>>◌,
}
use sinkronis_backend.Invoice.Amounts.{is_draft}
use sinkronis_backend.Invoice.Store.{modify_invoice, record_status, invoice_owned}
use sinkronis_backend.Invoice.Draft.{Caller, audit_invoice}

abbrev pub has_email : Option Client → Bool
has_email none = false
has_email (some c) = elim c.email [ some (_ ∷ _) ↦ true | _ ↦ false ]

abbrev pub as_sent : ℕ → Invoice → Invoice
as_sent now row = record row { status = sent; sent_at = some now }

-- `sendTransactionalNotificationEmail`
abbrev pub send_mail : Bool → Action (Unit {0})
send_mail true = pure tt
send_mail false = raise mail_failed

unfoldable pub mark_sent : Caller → ℕ → Action (Unit {0})
mark_sent caller i = do
  modify_invoice i (as_sent caller.now)
  record_status caller.organization_id i sent caller.user_id (codes "Invoice sent to customer")

unfoldable pub send_invoice : External → Caller → Bool → ℕ → Action Invoice
send_invoice x caller accepted i = do
  current ← invoice_owned caller.organization_id i
  ensure (is_draft current.status) only_draft_sent
  client ← gets (λ db. find current.client_id db.books.clients)
  ensure (has_email client) customer_email_missing
  send_mail accepted
  transaction (mark_sent caller i)
  audit_invoice x caller (codes "ACCOUNTING_INVOICE_SENT") i
      (codes "Sent invoice " ++ current.invoice_no)
  invoice_owned caller.organization_id i
