-- ===== src/Tests/Requests.antt =====
-- The theorems on payment requests at concrete calls.
use sinkronis_backend.Common.{ℕ, true, ◌≡◌, refl, none, some, Option, [], ◌∷◌}
use sinkronis_backend.Common.Int.{pos}
use sinkronis_backend.Common.Amount.{whole}
use sinkronis_backend.Common.Text.{Text, codes}
use sinkronis_backend.Common.Table.{find, put}
use sinkronis_backend.Database.{
  Db, Returns, PaymentRequest, pending, ok, err, conflict, only_pending,
}
use sinkronis_backend.Integrity.Sums.{IsSound}
use sinkronis_backend.Settlement.Soundness.{SameMoney-IsSoundBy}
use sinkronis_backend.Audit.{Stamp}
use sinkronis_backend.Invoice.Store.{with_books}
use sinkronis_backend.Request.Create.{RequestInput, create_payment_request}
use sinkronis_backend.Request.Created.{IsGrounded, create_payment_request-IsGrounded}
use sinkronis_backend.Request.Decide.{approve_payment_request, decline_payment_request, as_approved}
use sinkronis_backend.Request.Decided.{approve-decides}
use sinkronis_backend.Request.Disburse.{disburse_payment_request_manually}
use sinkronis_backend.Request.Disbursed.{disburse_manually-IsSound}
use sinkronis_backend.Tests.Samples.{
  packages, packages-IsColumn, company, company-IsSound, paid_by_hand, fresh, ngn,
}

abbrev laptop : PaymentRequest
laptop = record {
  organization_id = 7;
  title = codes "Laptop";
  requester_user_id = some 2;
  invoice_id = none;
  project_id = none;
  client_id = none;
  amount = pos 25;
  currency = ngn;
  status = pending;
  approved_by = none;
  approved_at = none;
  declined_by = none;
  declined_at = none;
  decision_reason = none;
  bank_name = some (codes "Bank");
  bank_code = none;
  account_number = some (codes "0001");
  account_name = some (codes "Ada");
  disbursement_reference = none;
  disbursed_at = none;
}

abbrev company_asked : Db
company_asked = record company { payment_requests = (6, laptop) ∷ [] }

laptop_found : find 6 company_asked.payment_requests ≡ some laptop
unfolding find
laptop_found = refl

approve-decides_example :
    let db' : Db = record company_asked {
      payment_requests = put 6 (as_approved 2 50 laptop) company_asked.payment_requests;
    } in
    (approve_payment_request 7 6 2 50 company_asked ≡ (ok (as_approved 2 50 laptop), db'))
    × ((other later : ℕ)
        → approve_payment_request 7 6 other later db' ≡ (err (conflict only_pending), db'))
    × ((other later : ℕ) (reason : Option Text)
        → decline_payment_request 7 6 other later reason db' ≡ (err (conflict only_pending), db'))
approve-decides_example = approve-decides 7 6 2 50 laptop company_asked laptop_found refl refl

abbrev company_approved : Db
company_approved = record company { payment_requests = (6, as_approved 2 50 laptop) ∷ [] }

company_approved-IsSound : IsSound company_approved
company_approved-IsSound =
    SameMoney-IsSoundBy (record { wallets = refl; settlements = refl; ledger = refl })
      company-IsSound

disburse_manually_example :
    IsSound (disburse_payment_request_manually packages 7 6 1 paid_by_hand fresh company_approved).1
disburse_manually_example =
    disburse_manually-IsSound packages 7 6 1 paid_by_hand fresh company_approved
      company_approved-IsSound

abbrev repair : RequestInput
repair = record {
  request_id = 8;
  title = codes "Repair";
  amount = whole 25;
  invoice_id = none;
  client_id = some 3;
  project_id = none;
  user_id = 2;
}

abbrev company_with_client : Db
company_with_client =
    with_books
      (record company.books {
        clients =
            (3, record { organization_id = 7; email = none; is_active = true; archived_at = none })
            ∷ [];
      })
      company

abbrev no_request : Stamp
no_request = record { context = record { ip_address = none; user_agent = none }; created_at = 50 }

create_payment_request-IsGrounded_example :
    Returns
      (λ _. Unit {0})
      (λ row db'.
        IsGrounded packages 7 repair company_with_client row
        × (find 8 db'.payment_requests ≡ some row))
      (create_payment_request packages 7 no_request repair company_with_client)
create_payment_request-IsGrounded_example =
    create_payment_request-IsGrounded packages 7 no_request repair packages-IsColumn
      company_with_client
