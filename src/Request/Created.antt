-- ===== src/Request/Created.antt =====
-- What a payment request that was created is for.
use mathlib.Core.Option.{some-injective}
use sinkronis_backend.Common.{
  ℕ, Bool, true, false, ◌≡◌, refl, sym, ◌∙◌, Option, none, some, ◌==◌, arith, inl, inr,
  Option-cases, ◌≤◌, not, &&-true,
}
use sinkronis_backend.Common.Amount.{Amount}
use sinkronis_backend.Common.Int.{pos, ◌≤ℤ◌}
use sinkronis_backend.Common.Table.{find, find-put_self}
use sinkronis_backend.Database.{
  External, IsColumn, Db, Invoice, AccountingProject, User, PaymentRequest, pending, missing,
  request_exceeds_invoice, request_mismatch, Returns, returns, raises, bind-Returns, bind-Same,
  branch-Returns, weaken, require-Same, ensure-Returns, resume,
}
use sinkronis_backend.Audit.{Stamp, create_audit_log-Returns}
use sinkronis_backend.Invoice.Store.{find_invoice}
use sinkronis_backend.Invoice.Relations.{found, is_own_client, assert_client_ownership}
use sinkronis_backend.Request.Decide.{request_owned}
use sinkronis_backend.Request.Create.{
  RequestInput, find_user, find_project, agrees, may_request, client_of_invoice, insert_request,
  requested_invoice, requested_client, own_client, new_request, request_audit,
  create_payment_request,
}

-- The request waits for a decision and holds the amount as the column keeps it; its invoice is one of
-- the organisation's that is not paid, and not below the amount asked for nor the amount held;
-- invoice, project and customer agree, and the customer is the organisation's.
pub record IsGrounded (x : External) (o : ℕ) (input : RequestInput) (db : Db) (row : PaymentRequest)
    : Type 0 where
  pub waits : row.status ≡ pending
  pub asks : row.amount ≡ pos (x.column input.amount)
  pub of_invoice :
      (j : ℕ)
      → input.invoice_id ≡ some j
      → (invoice : Invoice) × (find_invoice o j db ≡ some invoice)
        × (may_request input.amount invoice ≡ true)
        × (row.amount ≤ℤ pos invoice.total)
        × (row.client_id ≡ some invoice.client_id)
  pub of_project :
      (p : ℕ)
      → input.project_id ≡ some p
      → (project : AccountingProject) × (find_project o p db ≡ some project)
        × (row.client_id ≡ some project.client_id)
  pub of_client :
      (c : ℕ) → row.client_id ≡ some c → is_own_client o (find c db.books.clients) ≡ true

agrees-same :
    (before : Option ℕ) (client c : ℕ)
    → agrees before client ≡ true
    → before ≡ some c
    → ◌≡◌ {A = Option ℕ} (some client) (some c)
agrees-same none client c same is = cc
agrees-same (some d) client c same is = ground arith

held_within :
    {x : External}
    → IsColumn x
    → (a : Amount) (invoice : Invoice) → may_request a invoice ≡ true
    → pos (x.column a) ≤ℤ pos invoice.total
held_within {x} columns a invoice allowed =
    same_order (x.column a) invoice.total
      (columns.within a invoice.total (not-true _ (&&-true _ _ allowed).1))
  where
    same_order : (m n : ℕ) → m ≤ n → pos m ≤ℤ pos n
    same_order m n h = omega arith

    not-true : (b : Bool) → not b ≡ true → b ≡ false
    not-true true h = cc
    not-true false h = refl

module _ (x : External) (o : ℕ) (stamp : Stamp) (input : RequestInput) where
  -- The invoice that was found, if one was asked for.
  abbrev FoundInvoice : Option ℕ → Db → Option Invoice → Type 0
  FoundInvoice asked db found =
      (j : ℕ)
      → asked ≡ some j
      → (invoice : Invoice) × (find_invoice o j db ≡ some invoice)
        × (may_request input.amount invoice ≡ true)
        × (found ≡ some invoice)

  requested_invoice-Returns :
      (asked : Option ℕ) (db : Db)
      → Returns
          (λ _. Unit {0})
          (λ found db'. FoundInvoice asked db found × (db' ≡ db))
          (requested_invoice x o stamp input asked db)
  unfolding requested_invoice resume
  requested_invoice-Returns none db = returns ((λ j e. cc), refl)
  requested_invoice-Returns (some j) db =
      bind-Same _ (require-Same (find_invoice o j db) missing db tt) λ invoice e.
        bind-Same _
          (ensure-Returns (may_request input.amount invoice) request_exceeds_invoice db tt)
          λ _ allowed. returns {db = db} ((λ k same. (invoice, cc, allowed, refl)), refl)

  -- The customer: that of the invoice stays, that of the project is taken.
  abbrev FoundClient : Option ℕ → Option ℕ → Db → Option ℕ → Type 0
  FoundClient asked before db after =
      ((c : ℕ) → before ≡ some c → after ≡ some c)
      × ((p : ℕ)
          → asked ≡ some p
          → (project : AccountingProject) × (find_project o p db ≡ some project)
            × (after ≡ some project.client_id))

  requested_client-Returns :
      (asked before : Option ℕ) (db : Db)
      → Returns
          (λ _. Unit {0})
          (λ after db'. FoundClient asked before db after × (db' ≡ db))
          (requested_client x o stamp input asked before db)
  unfolding requested_client resume
  requested_client-Returns none before db = returns (((λ c e. e), (λ p e. cc)), refl)
  requested_client-Returns (some p) before db =
      bind-Same _ (require-Same (find_project o p db) missing db tt) λ project e.
        bind-Same _ (ensure-Returns (agrees before project.client_id) request_mismatch db tt)
          λ _ same. returns {db = db} (
            (
              (λ c is. agrees-same before project.client_id c same is),
              (λ q is. (project, cc, refl)),
            ),
            refl,
          )

  own_client-Returns :
      (client : Option ℕ) (db : Db)
      → Returns
          (λ _. Unit {0})
          (λ _ db'.
            ((c : ℕ) → client ≡ some c → is_own_client o (find c db.books.clients) ≡ true)
            × (db' ≡ db))
          (own_client x o stamp input client db)
  unfolding own_client assert_client_ownership
  own_client-Returns none db = returns ((λ c e. cc), refl)
  own_client-Returns (some c) db =
      weaken (found-Returns (is_own_client o (find c db.books.clients)) db)
        (λ _ _ q. ((λ k e. rw (← some-injective _ _ e) q.0), q.1)) (λ _ _. tt)
    where
      found-Returns :
          (b : Bool) (db : Db)
          → Returns (λ _. Unit {0}) (λ _ db'. (b ≡ true) × (db' ≡ db)) (found b db)
      found-Returns true db = returns (refl, refl)
      found-Returns false db = raises tt

  insert_request-Returns :
      (i : ℕ) (row : PaymentRequest) (db : Db)
      → Returns
          (λ _. Unit {0})
          (λ _ db'. find i db'.payment_requests ≡ some row)
          (insert_request i row db)
  unfolding insert_request
  insert_request-Returns i row db = elim (Option-cases (find i db.payment_requests)) [
    | inl absent ↦ rw (insert_request, absent) (returns (find-put_self i row db.payment_requests))
    | inr (old, e) ↦ rw (insert_request, e) (raises tt)
  ]

  request_owned-Returns :
      (i : ℕ) (db : Db)
      → Returns
          (λ _. Unit {0})
          (λ row db'. (find i db.payment_requests ≡ some row) × (db' ≡ db))
          (request_owned o i db)
  unfolding request_owned resume
  request_owned-Returns i db =
      bind-Same _ (require-Same (find i db.payment_requests) missing db tt) λ row e.
        branch-Returns (row.organization_id == o) _ _ db (λ _. returns (e, refl)) (λ _. raises tt)

  client_kept :
      (found : Invoice) (client : Option ℕ) (invoice : Option Invoice)
      → invoice ≡ some found
      → client_of_invoice invoice client ≡ some found.client_id
  client_kept found client none e = cc
  client_kept found client (some invoice) e = rw (some-injective _ _ e) refl

  grounded :
      (columns : IsColumn x) (db : Db) (invoice : Option Invoice) (client : Option ℕ)
      (requester : Option User)
      → FoundInvoice input.invoice_id db invoice
      → FoundClient input.project_id (client_of_invoice invoice input.client_id) db client
      → ((c : ℕ) → client ≡ some c → is_own_client o (find c db.books.clients) ≡ true)
      → IsGrounded x o input db (new_request x o stamp input invoice client requester)
  grounded columns db invoice client requester known agreed own = record {
    waits = refl;
    asks = refl;
    of_invoice = λ j e.
        let (found, there, allowed, same) = known j e in
        (
          found,
          there,
          allowed,
          held_within columns input.amount found allowed,
          agreed.0 found.client_id (client_kept found input.client_id invoice same),
        );
    of_project = agreed.1;
    of_client = own;
  }

  -- A request that is created and returned stands in the table and is grounded in the tables before. A
  -- column is assumed not to round a number past one that it could hold.
  pub create_payment_request-IsGrounded :
      IsColumn x
      → (db : Db)
      → Returns
          (λ _. Unit {0})
          (λ row db'.
            IsGrounded x o input db row × (find input.request_id db'.payment_requests ≡ some row))
          (create_payment_request x o stamp input db)
  unfolding create_payment_request resume
  create_payment_request-IsGrounded columns db =
      bind-Same _ (requested_invoice-Returns input.invoice_id db) λ invoice known.
        bind-Same _
          (requested_client-Returns input.project_id (client_of_invoice invoice input.client_id) db)
          λ client agreed. bind-Same _ (own_client-Returns client db) λ _ own.
            let requester = find_user o input.user_id db in
            let row = new_request x o stamp input invoice client requester in
            bind-Returns (insert_request-Returns input.request_id row db) λ _ db1 there.
              bind-Returns
                (weaken
                  (create_audit_log-Returns
                    {K = λ db'. find input.request_id db'.payment_requests ≡ some row} (λ _ h _. h)
                    x stamp (request_audit x o stamp input) db1 there)
                  (λ _ _ q. q) (λ _ _. tt))
                λ _ db2 there'.
                  weaken (request_owned-Returns input.request_id db2)
                    (λ r db3 q.
                      let same = some-injective _ _ (sym q.0 ∙ there') in
                      rw (q.1, same)
                        (grounded columns db invoice client requester known agreed own, there'))
                    (λ _ _. tt)
