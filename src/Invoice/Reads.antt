-- ===== src/Invoice/Reads.antt =====
-- The calls of an invoice operation that only read.
use sinkronis_backend.Common.{ℕ, Bool, true, false, ◌≡◌, refl, Option, none, some, List, arith}
use sinkronis_backend.Common.Table.{find}
use sinkronis_backend.Database.{
  External, Result, missing, Db, Invoice, InvoiceItem, Returns, returns, raises, bind-Same,
  require-Same,
}
use sinkronis_backend.Common.Amount.{Amount}
use sinkronis_backend.Invoice.Lines.{LineInput, all_found, resolve_invoice_lines}
use sinkronis_backend.Invoice.Relations.{
  found, assert_client_ownership, assert_agent, assert_project_relations, assert_project,
  assert_invoice_agent, assert_invoice_relations,
}
use sinkronis_backend.Invoice.Store.{find_invoice, invoice_owned, owned_by}
use sinkronis_backend.Invoice.Draft.{Caller, changed_lines}

-- What is left of a call that returns, or raises, with the tables as they were.
abbrev pub ReadOnly : {A : Type 0} → (Db → Type 0) → Db → Result A × Db → Type 0
ReadOnly E db r = Returns E (λ _ db'. Unit {0} × (db' ≡ db)) r

module _ {E : Db → Type 0} (db : Db) (h : E db) where
  found-ReadOnly : (b : Bool) → ReadOnly E db (found b db)
  found-ReadOnly true = returns (tt, refl)
  found-ReadOnly false = raises h

  assert_agent-ReadOnly : (o : ℕ) (agent : Option ℕ) → ReadOnly E db (assert_agent o agent db)
  unfolding assert_agent
  assert_agent-ReadOnly o none = returns (tt, refl)
  assert_agent-ReadOnly o (some agent) = found-ReadOnly _

  assert_project-ReadOnly :
      (o client : ℕ) (project : Option ℕ) → ReadOnly E db (assert_project o client project db)
  unfolding assert_project
  assert_project-ReadOnly o client none = returns (tt, refl)
  assert_project-ReadOnly o client (some project) = found-ReadOnly _

  assert_invoice_agent-ReadOnly :
      (o client : ℕ) (agent : Option ℕ) → ReadOnly E db (assert_invoice_agent o client agent db)
  unfolding assert_invoice_agent assert_project_relations
  assert_invoice_agent-ReadOnly o client none = returns (tt, refl)
  assert_invoice_agent-ReadOnly o client (some agent) =
      bind-Same _ (found-ReadOnly _) λ _ _. assert_agent-ReadOnly o (some agent)

  pub assert_invoice_relations-ReadOnly :
      (o client : ℕ) (project agent : Option ℕ)
      → ReadOnly E db (assert_invoice_relations o client project agent db)
  unfolding assert_invoice_relations assert_client_ownership
  assert_invoice_relations-ReadOnly o client project agent = bind-Same _ (found-ReadOnly _) λ _ _.
      bind-Same _ (assert_project-ReadOnly o client project)
        λ _ _. assert_invoice_agent-ReadOnly o client agent

  all_found-ReadOnly : (b : Bool) (lines : List InvoiceItem) → ReadOnly E db (all_found b lines db)
  unfolding all_found
  all_found-ReadOnly true lines = returns (tt, refl)
  all_found-ReadOnly false lines = raises h

  pub resolve_invoice_lines-ReadOnly :
      (x : External) (vat : Amount) (o : ℕ) (lines : List LineInput)
      → ReadOnly E db (resolve_invoice_lines x vat o lines db)
  unfolding resolve_invoice_lines
  resolve_invoice_lines-ReadOnly x vat o lines = all_found-ReadOnly _ _

  pub changed_lines-ReadOnly :
      (x : External) (vat : Amount) (caller : Caller) (lines : Option (List LineInput))
      → ReadOnly E db (changed_lines x vat caller lines db)
  unfolding changed_lines
  changed_lines-ReadOnly x vat caller none = returns (tt, refl)
  changed_lines-ReadOnly x vat caller (some lines) =
      bind-Same _ (resolve_invoice_lines-ReadOnly x vat caller.organization_id lines)
        λ _ _. returns (tt, refl)

  pub invoice_owned-Returns :
      (o i : ℕ)
      → Returns E (λ row db'. (find_invoice o i db ≡ some row) × (db' ≡ db)) (invoice_owned o i db)
  unfolding invoice_owned
  invoice_owned-Returns o i = require-Same (find_invoice o i db) missing db h

owned_by-found :
    (o : ℕ) (found : Option Invoice) {row : Invoice}
    → owned_by (λ row. row.organization_id) o found ≡ some row
    → found ≡ some row
owned_by-found o none e = cc
owned_by-found o (some other) e = ground arith

-- An invoice of the organisation is an invoice.
pub find_invoice-found :
    (o i : ℕ) (db : Db) {row : Invoice}
    → find_invoice o i db ≡ some row
    → find i db.books.invoices ≡ some row
find_invoice-found o i db e = owned_by-found o (find i db.books.invoices) e
