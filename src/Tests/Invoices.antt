-- ===== src/Tests/Invoices.antt =====
-- The theorems on invoices and the audit log at concrete tables and calls.
use sinkronis_backend.Common.{true, ◌≡◌, refl, none, some, List, [], ◌∷◌}
use sinkronis_backend.Common.Text.{codes}
use sinkronis_backend.Common.Amount.{whole}
use sinkronis_backend.Common.Json.{number}
use sinkronis_backend.Common.Table.{Table, find, sum_of}
use sinkronis_backend.Database.{Db, CatalogueItem, Returns, ok}
use sinkronis_backend.Audit.{AuditInput, Stamp, create_audit_log, with_audit}
use sinkronis_backend.Audit.Linked.{start, IsLinked, appended, create_audit_log-appends}
use sinkronis_backend.Invoice.Amounts.{paid_amount, calculate_invoice_wht}
use sinkronis_backend.Invoice.Lines.{LineInput, resolve_lines}
use sinkronis_backend.Invoice.Store.{with_books}
use sinkronis_backend.Invoice.Draft.{Caller, InvoiceInput}
use sinkronis_backend.Invoice.Pay.{PaymentInput, record_invoice_payment}
use sinkronis_backend.Invoice.Settled.{IsInOrder, IsSettled}
use sinkronis_backend.Invoice.Runs.{
  InvoiceCall, create, send, pay, run_calls, AreWhole, run_calls-IsSettled,
}
use sinkronis_backend.Invoice.Replay.{record_invoice_payment-once}
use sinkronis_backend.Invoice.Rounding.{
  IsNear, AreWholeLines, resolve_lines-IsNear, WhtIsRight, calculate_invoice_wht-IsRight,
}
use sinkronis_backend.Tests.Samples.{packages, packages-IsColumn, company}

abbrev stamp : Stamp
stamp = record {
  context = record { ip_address = some (codes "::1"); user_agent = none };
  created_at = 50;
}

abbrev caller : Caller
caller = record { organization_id = 7; user_id = 2; now = 50; stamp = stamp }

abbrev catalogue : Table CatalogueItem
catalogue =
    let paper : CatalogueItem = record {
      organization_id = 7;
      name = codes "Paper";
      unit_price = 333;
      vat_applicable = true;
      is_active = true;
    } in
    (4, paper) ∷ []

abbrev lines : List LineInput
lines =
    let line : LineInput = record {
      catalogue_item_id = some 4;
      description = none;
      quantity = whole 150;
      unit_price = none;
      vat_applicable = none;
    } in
    line ∷ record line { quantity = whole 200 } ∷ []

abbrev shop : Db
shop =
    with_books
      (record company.books {
        clients =
            (
              3,
              record {
                organization_id = 7;
                email = some (codes "ada@example.com");
                is_active = true;
                archived_at = none;
              },
            )
            ∷ [];
        catalogue = catalogue;
      })
      company

abbrev new_bill : InvoiceInput
new_bill = record {
  client_id = 3;
  assigned_agent_id = none;
  project_id = none;
  issue_date = none;
  due_date = 90;
  notes = none;
  wht_applicable = some true;
  wht_rate = some 5;
  items = lines;
}

-- The subtotal is 500 + 666, the tax 38 + 50, and 58 are withheld.
abbrev settled_in_full : PaymentInput
settled_in_full = record {
  payment_id = 11;
  reference = codes "bank-1";
  amount = whole 1196;
  paid_at = none;
  notes = none;
  raw_amount = number (codes "11.96");
}

abbrev calls : List (Caller × InvoiceCall)
calls =
    (caller, create 8 (codes "INV-1") new_bill)
    ∷ (caller, send 8 true)
    ∷ (caller, pay 8 settled_in_full)
    ∷ []

shop-IsSettled : IsSettled shop.books
unfolding IsSettled IsInOrder find paid_amount sum_of
shop-IsSettled i = refl

calls-AreWhole : AreWhole calls
calls-AreWhole = (tt, (tt, (refl, tt)))

run_calls-IsSettled_example : IsSettled (run_calls packages (whole 750) calls shop).books
run_calls-IsSettled_example =
    run_calls-IsSettled packages (whole 750) packages-IsColumn calls shop calls-AreWhole
      shop-IsSettled

record_invoice_payment-once_example :
    let sent_db : Db =
      run_calls packages
        (whole 750)
        ((caller, create 8 (codes "INV-1") new_bill) ∷ (caller, send 8 true) ∷ [])
        shop in
    Returns
      (λ _. Unit {0})
      (λ row db'.
        (later : Caller) (retry : PaymentInput)
        → record_invoice_payment packages
            (record later { organization_id = 7 })
            8
            (record retry { reference = codes "bank-1"; amount = whole 1196 })
            db'
          ≡ (ok row, db'))
      (record_invoice_payment packages caller 8 settled_in_full sent_db)
record_invoice_payment-once_example =
    record_invoice_payment-once packages caller 8 settled_in_full packages-IsColumn refl (
      run_calls packages (whole 750)
        ((caller, create 8 (codes "INV-1") new_bill) ∷ (caller, send 8 true) ∷ []) shop)

lines-AreWhole : AreWholeLines lines
lines-AreWhole = ((refl, tt), ((refl, tt), tt))

resolve_lines-IsNear_example : IsNear 2 (resolve_lines packages (whole 750) catalogue lines)
resolve_lines-IsNear_example =
    resolve_lines-IsNear packages (whole 750) catalogue lines packages-IsColumn refl lines-AreWhole

calculate_invoice_wht-IsRight_example :
    WhtIsRight 1166 true (some 5) (calculate_invoice_wht 1166 true (some 5))
calculate_invoice_wht-IsRight_example = calculate_invoice_wht-IsRight 1166 true (some 5)

abbrev login : AuditInput
login = record {
  organization_id = 7;
  actor_user_id = some 2;
  action = codes "LOGIN";
  resource = codes "USER";
  resource_id = none;
  summary = codes "Signed in";
  metadata = none;
}

company-IsLinked : IsLinked packages company.audit
unfolding IsLinked find
company-IsLinked o = start

create_audit_log-appends_example :
    (create_audit_log packages stamp login company
      ≡ (ok tt, with_audit (appended packages stamp login company.audit) company))
    × IsLinked packages (appended packages stamp login company.audit)
create_audit_log-appends_example =
    create_audit_log-appends packages stamp login company company-IsLinked
