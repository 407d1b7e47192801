-- ===== src/Transfer/Paid.antt =====
-- What a payout does, and that it is done once.
use sinkronis_backend.Common.{ℕ, true, ◌≡◌, refl, some, inl, inr, Bool-cases, if◌then◌else◌}
use sinkronis_backend.Common.Table.{find, put, find-put_self}
use sinkronis_backend.Database.{
  Db, Wallet, Settlement, External, Returns, returns, bind-Returns, bind-Same, weaken,
  branch-Returns, ok, transaction, rolled_back, transaction-Returns, require-Same,
  update_settlement-Returns, resume, missing, provider_not_eligible, ensure-Returns,
  create_ledger-Returns,
}
use sinkronis_backend.Wallet.Calls.{Debit}
use sinkronis_backend.Wallet.Balance.{
  Reports, consume_by, consume_wallet_reservation-Returns, financial_wallet-Returns,
}
use sinkronis_backend.Integrity.Checks.{active_reservation}
use sinkronis_backend.Settlement.Inputs.{Fresh, assert_incident_wallet_mutation_allowed}
use sinkronis_backend.Settlement.Manual.{is_succeeded}
use sinkronis_backend.Settlement.Reads.{assert_incident-Returns}
use sinkronis_backend.Transfer.Inputs.{TransferResult}
use sinkronis_backend.Transfer.Result.{
  pay_out, finalize_body, finalize_provider_settlement_success, as_succeeded, provider_debit,
}
use sinkronis_backend.Transfer.Payout.{assert_result-Returns}
use sinkronis_backend.Transfer.Obligations.{claim_obligation-IsBusiness}
use sinkronis_backend.Transfer.Once.{outcome}

-- The settlement `s` was paid out: its wallet gave up the amount, of balance and of reservation, the
-- ledger has the debit with the balances before and after, and the settlement has succeeded.
abbrev pub PaidOut : ℕ → TransferResult → Fresh → Settlement → Db → Db → Type 0
PaidOut i result fresh s db db' =
    (w : Wallet) × (d : Debit) × (find s.wallet_account_id db.wallets ≡ some w)
    × (db'.wallets ≡ put s.wallet_account_id (consume_by s.amount w) db.wallets)
    × (db'.ledger ≡ put fresh.ledger_id (provider_debit d s) db.ledger)
    × Reports d w s.amount
    × (find i db'.settlements ≡ some (as_succeeded result fresh.now s))

module _ (x : External) (i : ℕ) (result : TransferResult) (fresh : Fresh) (db : Db) where
  pay_out-PaidOut :
      (s : Settlement)
      → find i db.settlements ≡ some s
      → Returns
          (λ _. Unit {0})
          (λ r db'. (r ≡ as_succeeded result fresh.now s) × PaidOut i result fresh s db db')
          (pay_out x i result fresh s db)
  unfolding pay_out
  pay_out-PaidOut s found =
      bind-Same _
        (weaken (financial_wallet-Returns s.organization_id s.wallet_account_id s.currency db)
          (λ _ _ q. q) (λ _ _. tt))
        λ _ _.
          bind-Returns (consume_wallet_reservation-Returns x _ _ _ _ db)
            λ d db1 (w, (_, _, (fw, ww)), reports). rw ww (
              bind-Returns
                (weaken (create_ledger-Returns fresh.ledger_id (provider_debit d s) _) (λ _ _ q. q)
                  (λ _ _. tt))
                λ _ db2 (_, fl, wl). rw wl (
                  bind-Returns (claim_obligation-IsBusiness fresh.now s s.source_type _)
                    λ _ db3 same.
                      let found3 : find i db3.settlements ≡ some s = rw same.settlements found in
                      weaken (update_settlement-Returns i (as_succeeded result fresh.now) db3)
                        (λ row db4 (s', is_row, (fs, ws)).
                          let same_row : s' ≡ s = cc in
                          rw (is_row, ws, same_row)
                            (
                              refl,
                              (w, d, fw, same.wallets, same.ledger, reports, find-put_self _ _ _),
                            ))
                        (λ _ _. tt)))

  finalize_body-PaidOut :
      (s : Settlement)
      → find i db.settlements ≡ some s
      → Returns
          (λ _. Unit {0})
          (λ r db'.
            if is_succeeded s.status
            then (r ≡ s) × (db' ≡ db)
            else (active_reservation s ≡ true)
              × (r ≡ as_succeeded result fresh.now s)
              × PaidOut i result fresh s db db')
          (finalize_body x i result fresh db)
  unfolding finalize_body resume
  finalize_body-PaidOut s found =
      bind-Same _ (require-Same (find i db.settlements) missing db tt) λ r e.
        let same : r ≡ s = cc in
        rw same (
          bind-Same _ (assert_incident-Returns x s.organization_id s.wallet_account_id db tt) λ _ _.
            branch-Returns (is_succeeded s.status) _ _ db (λ done. returns (rw done (refl, refl)))
              λ todo. rw todo (
                bind-Same _ (ensure-Returns (active_reservation s) provider_not_eligible db tt)
                  λ _ active. bind-Same _ (assert_result-Returns s result db tt) λ _ _.
                    weaken (pay_out-PaidOut s found) (λ _ _ q. (active, q.0, q.1)) (λ _ _. tt)))

-- A finalisation that returns did one of two things. The settlement had succeeded already: then it
-- is returned and nothing is written. Or it held a reservation: then the wallet gives up the amount,
-- of balance and of reservation, the ledger gains the debit with the balances before and after, and
-- the settlement has succeeded.
pub finalize-pays :
    (x : External) (i : ℕ) (result : TransferResult) (fresh : Fresh) (s r : Settlement)
    (db db' : Db)
    → find i db.settlements ≡ some s
    → finalize_provider_settlement_success x i result fresh db ≡ (ok r, db')
    → if is_succeeded s.status
      then (r ≡ s) × (db' ≡ db)
      else (active_reservation s ≡ true)
        × (r ≡ as_succeeded result fresh.now s)
        × PaidOut i result fresh s db db'
unfolding finalize_provider_settlement_success
finalize-pays x i result fresh s r db db' found e =
    outcome r db'
      (transaction-Returns {F = λ _. Unit {0}} _ db tt
        (finalize_body-PaidOut x i result fresh db s found))
      e

finalized_row :
    (x : External) (i : ℕ) (result : TransferResult) (fresh : Fresh) (s r : Settlement)
    (db db' : Db)
    → find i db.settlements ≡ some s
    → finalize_provider_settlement_success x i result fresh db ≡ (ok r, db')
    → (find i db'.settlements ≡ some r) × (is_succeeded r.status ≡ true)
finalized_row x i result fresh s r db db' found e =
    let pays = finalize-pays x i result fresh s r db db' found e in
    elim (Bool-cases (is_succeeded s.status)) [
      | inl done ↦ let (same, unmoved) = rw done at pays in rw (same, unmoved) (found, done)
      | inr todo ↦ let (_, row, (_, _, _, _, _, _, there)) = rw todo at pays in rw row (there, refl)
    ]

-- Once a call that finalises a settlement has returned, a later call for it returns the same
-- settlement and writes nothing, whatever the provider reports then, a report that does not match the
-- settlement included.
pub finalize-twice :
    (x : External) (i : ℕ) (result later : TransferResult) (fresh fresh' : Fresh) (s r : Settlement)
    (db db' : Db)
    → find i db.settlements ≡ some s
    → finalize_provider_settlement_success x i result fresh db ≡ (ok r, db')
    → finalize_provider_settlement_success x i later fresh' db' ≡ (ok r, db')
unfolding finalize_provider_settlement_success finalize_body transaction rolled_back resume
    assert_incident_wallet_mutation_allowed
finalize-twice x i result later fresh fresh' s r db db' found first =
    let (there, won) = finalized_row x i result fresh s r db db' found first in
    rw (finalize_provider_settlement_success, there, won) refl
