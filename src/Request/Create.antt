-- ===== src/Request/Create.antt =====
-- `createPaymentRequest` of src/modules/accounting/accounting.service.ts.
use sinkronis_backend.Common.{
  ℕ, Bool, true, Option, none, some, ◌++◌, ◌==◌, ◌&&◌, not, is_set, if◌then◌else◌,
}
use sinkronis_backend.Common.Int.{pos}
use sinkronis_backend.Common.Amount.{Amount, exceeds}
use sinkronis_backend.Common.Text.{Text, codes}
use sinkronis_backend.Common.Decimal.{decimal}
use sinkronis_backend.Common.Table.{find, put}
use sinkronis_backend.Database.{
  External, Db, Action, ok, err, p2002, Invoice, AccountingProject, User, BankDetails,
  PaymentRequest, pending, missing, request_exceeds_invoice, request_mismatch, pure, gets, require,
  ensure, ◌>>=◌, ◌>>◌,
}
use sinkronis_backend.Audit.{AuditInput, Stamp, create_audit_log}
use sinkronis_backend.Invoice.Amounts.{is_fully_paid}
use sinkronis_backend.Invoice.Store.{find_invoice, owned_by}
use sinkronis_backend.Invoice.Relations.{assert_client_ownership}
use sinkronis_backend.Request.Decide.{request_owned}

-- `PaymentRequestCreateInput`, with who calls and the id of the new row
pub record RequestInput : Type 0 where
  pub request_id : ℕ
  pub title : Text
  pub amount : Amount
  pub invoice_id : Option ℕ
  pub client_id : Option ℕ
  pub project_id : Option ℕ
  pub user_id : ℕ

abbrev pub find_project : ℕ → ℕ → Db → Option AccountingProject
find_project o p db = owned_by (λ row. row.organization_id) o (find p db.books.projects)

abbrev pub find_user : ℕ → ℕ → Db → Option User
find_user o u db = owned_by (λ row. row.organization_id) o (find u db.books.users)

abbrev bank_of : Option User → BankDetails
bank_of (some u) = elim u.employee [
  | some bank ↦ bank
  | none ↦ record { bank_name = none; bank_code = none; account_number = none; account_name = none }
]
bank_of none = record {
  bank_name = none;
  bank_code = none;
  account_number = none;
  account_name = none;
}

-- `!clientId || project.clientId === clientId`
abbrev pub agrees : Option ℕ → ℕ → Bool
agrees none client = true
agrees (some c) client = client == c

abbrev pub may_request : Amount → Invoice → Bool
may_request amount invoice =
    not (is_fully_paid invoice.status) && not (exceeds amount (pos invoice.total))

abbrev pub client_of_invoice : Option Invoice → Option ℕ → Option ℕ
client_of_invoice none client = client
client_of_invoice (some invoice) client = some invoice.client_id

abbrev project_of_invoice : Option Invoice → Option ℕ
project_of_invoice none = none
project_of_invoice (some invoice) = invoice.project_id

-- `project?.id ?? invoice?.projectId`
abbrev project_column : Option ℕ → Option Invoice → Option ℕ
project_column none invoice = project_of_invoice invoice
project_column (some p) invoice = some p

unfoldable pub insert_request : ℕ → PaymentRequest → Action (Unit {0})
insert_request i row db =
    if is_set (find i db.payment_requests)
    then (err p2002, db)
    else (ok tt, record db { payment_requests = put i row db.payment_requests })

module _ (x : External) (o : ℕ) (stamp : Stamp) (input : RequestInput) where
  unfoldable pub requested_invoice : Option ℕ → Action (Option Invoice)
  requested_invoice none = pure none
  requested_invoice (some j) = do
    invoice ← require (← gets (find_invoice o j)) missing
    ensure (may_request input.amount invoice) request_exceeds_invoice
    pure (some invoice)

  -- The customer that the project belongs to.
  unfoldable pub requested_client : Option ℕ → Option ℕ → Action (Option ℕ)
  requested_client none client = pure client
  requested_client (some p) client = do
    project ← require (← gets (find_project o p)) missing
    ensure (agrees client project.client_id) request_mismatch
    pure (some project.client_id)

  unfoldable pub own_client : Option ℕ → Action (Unit {0})
  own_client none = pure tt
  own_client (some c) = assert_client_ownership o c

  abbrev pub new_request : Option Invoice → Option ℕ → Option User → PaymentRequest
  new_request invoice client requester = record {
    organization_id = o;
    title = input.title;
    requester_user_id = some input.user_id;
    invoice_id = elim invoice [ none ↦ none | some _ ↦ input.invoice_id ];
    project_id = project_column input.project_id invoice;
    client_id = client;
    amount = pos (x.column input.amount);
    currency = codes "NGN";
    status = pending;
    approved_by = none;
    approved_at = none;
    declined_by = none;
    declined_at = none;
    decision_reason = none;
    bank_name = (bank_of requester).bank_name;
    bank_code = (bank_of requester).bank_code;
    account_number = (bank_of requester).account_number;
    account_name = (bank_of requester).account_name;
    disbursement_reference = none;
    disbursed_at = none;
  }

  abbrev pub request_audit : AuditInput
  request_audit = record {
    organization_id = o;
    actor_user_id = some input.user_id;
    action = codes "ACCOUNTING_PAYMENT_REQUEST_CREATED";
    resource = codes "PAYMENT_REQUEST";
    resource_id = some (decimal input.request_id);
    summary = codes "Created payment request " ++ input.title;
    metadata = none;
  }

  unfoldable pub create_payment_request : Action PaymentRequest
  create_payment_request = do
    invoice ← requested_invoice input.invoice_id
    client ← requested_client input.project_id (client_of_invoice invoice input.client_id)
    own_client client
    requester ← gets (find_user o input.user_id)
    insert_request input.request_id (new_request invoice client requester)
    create_audit_log x stamp request_audit
    request_owned o input.request_id
