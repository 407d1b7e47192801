-- ===== src/Request/Decided.antt =====
-- A payment request is decided once.
use sinkronis_backend.Common.{ℕ, true, ◌≡◌, refl, Option, some, ◌==◌, arith, if◌then◌else◌}
use sinkronis_backend.Common.Text.{Text}
use sinkronis_backend.Common.Table.{find, put, find-put_self}
use sinkronis_backend.Database.{
  Db, PaymentRequest, ok, err, conflict, only_pending, resume, update_request_where,
}
use sinkronis_backend.Request.Decide.{
  is_pending, request_owned, as_approved, as_declined, decide, approve_payment_request,
  decline_payment_request,
}

-- On a request of the organisation: one that is not pending is refused and nothing is written; a
-- pending one is rewritten by the decision, which is what comes back.
decide-eq :
    (o i : ℕ) (f : PaymentRequest → PaymentRequest) (r : PaymentRequest) (db : Db)
    → find i db.payment_requests ≡ some r
    → (r.organization_id == o) ≡ true
    → ((f r).organization_id == o) ≡ true
    → decide o i f db ≡ (
        if is_pending r.status
        then (ok (f r), record db { payment_requests = put i (f r) db.payment_requests })
        else (err (conflict only_pending), db))
unfolding decide request_owned update_request_where resume
decide-eq o i f r db found owned owned' = ground (arith, find-put_self i (f r) db.payment_requests)

-- On a request of the organisation, approval of a pending request approves it and a decision after
-- that, either way, is refused and writes nothing.
pub approve-decides :
    (o i user now : ℕ) (r : PaymentRequest) (db : Db)
    → find i db.payment_requests ≡ some r
    → (r.organization_id == o) ≡ true
    → is_pending r.status ≡ true
    → let db' : Db = record db {
      payment_requests = put i (as_approved user now r) db.payment_requests;
    } in
      (approve_payment_request o i user now db ≡ (ok (as_approved user now r), db'))
      × ((other later : ℕ)
          → approve_payment_request o i other later db' ≡ (err (conflict only_pending), db'))
      × ((other later : ℕ) (reason : Option Text)
          → decline_payment_request o i other later reason db' ≡ (err (conflict only_pending), db'))
unfolding approve_payment_request decline_payment_request
approve-decides o i user now r db found owned waiting =
    let there = find-put_self i (as_approved user now r) db.payment_requests in
    (
      rw (decide-eq o i (as_approved user now) r db found owned owned, waiting) refl,
      λ other later. decide-eq o i (as_approved other later) _ _ there owned owned,
      λ other later reason. decide-eq o i (as_declined other later reason) _ _ there owned owned,
    )
