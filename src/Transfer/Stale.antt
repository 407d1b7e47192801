-- ===== src/Transfer/Stale.antt =====
-- What a non-conclusive result does to a settlement that has become terminal since it was read.
use sinkronis_backend.Common.{ℕ, true, false, ◌≡◌, refl, some, arith, is_set}
use sinkronis_backend.Common.Table.{find, find-put_self}
use sinkronis_backend.Database.{
  Db, Settlement, External, Returns, bind-Same, weaken, ok, err, conflict,
  update_settlement-Returns, resume, provider_not_eligible, transaction,
}
use sinkronis_backend.Integrity.Checks.{active_reservation}
use sinkronis_backend.Settlement.Inputs.{Fresh, assert_incident_wallet_mutation_allowed}
use sinkronis_backend.Settlement.Manual.{is_succeeded}
use sinkronis_backend.Transfer.Inputs.{TransferResult, non_conclusive}
use sinkronis_backend.Transfer.Claim.{is_terminal}
use sinkronis_backend.Transfer.Apply.{as_pending, apply_provider_transfer_result}
use sinkronis_backend.Transfer.Payout.{assert_result-Returns}
use sinkronis_backend.Transfer.Result.{finalize_body, finalize_provider_settlement_success}
use sinkronis_backend.Transfer.Once.{outcome}

apply-Pending :
    (x : External) (i : ℕ) (result : TransferResult) (fresh : Fresh) (s now_row : Settlement)
    (db : Db)
    → result.state ≡ non_conclusive
    → is_terminal s.status ≡ false
    → find i db.settlements ≡ some now_row
    → Returns
        (λ _. Unit {0})
        (λ _ db'. find i db'.settlements ≡ some (as_pending result fresh.now now_row))
        (apply_provider_transfer_result x i result fresh s db)
unfolding apply_provider_transfer_result
apply-Pending x i result fresh s now_row db pending fresh_read found =
    bind-Same _ (assert_result-Returns s result db tt) λ _ _.
      rw (fresh_read, pending)
        (weaken (update_settlement-Returns i (as_pending result fresh.now) db)
          (λ _ _ (r, _, (fr, w)). let same : r ≡ now_row = cc in rw (w, same) (find-put_self _ _ _))
          (λ _ _. tt))

finalize-refused :
    (x : External) (i : ℕ) (result : TransferResult) (fresh : Fresh) (s : Settlement) (db : Db)
    → find i db.settlements ≡ some s
    → is_succeeded s.status ≡ false
    → active_reservation s ≡ false
    → finalize_provider_settlement_success x i result fresh db
      ≡ (err (conflict provider_not_eligible), db)
unfolding finalize_provider_settlement_success finalize_body assert_incident_wallet_mutation_allowed
    transaction resume
finalize-refused x i result fresh s db found open_status idle = rw (found, open_status, idle)

-- A settlement that was read before it succeeded is reopened by a non-conclusive result that arrives
-- after: the row goes back to PROVIDER_PROCESSING, although its reservation is spent, and a later
-- report of success is refused.
pub stale_result_reopens :
    (x : External) (i : ℕ) (result later : TransferResult) (fresh fresh' : Fresh)
    (read now_row returned : Settlement) (db db' : Db)
    → result.state ≡ non_conclusive
    → is_terminal read.status ≡ false
    → find i db.settlements ≡ some now_row
    → is_succeeded now_row.status ≡ true
    → is_set now_row.reservation_released_at ≡ true
    → apply_provider_transfer_result x i result fresh read db ≡ (ok returned, db')
    → (find i db'.settlements ≡ some (as_pending result fresh.now now_row))
      × (finalize_provider_settlement_success x i later fresh' db'
          ≡ (err (conflict provider_not_eligible), db'))
stale_result_reopens x i result later fresh fresh' read now_row returned db db' pending unread found
      won released e =
    let row =
      outcome returned db' (apply-Pending x i result fresh read now_row db pending unread found)
        e in
    (
      row,
      finalize-refused x i later fresh' (as_pending result fresh.now now_row) db' row refl
          (ground arith),
    )
