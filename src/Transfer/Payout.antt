-- ===== src/Transfer/Payout.antt =====
-- Finalising a provider transfer keeps wallets, settlements and ledger in agreement.
use sinkronis_backend.Common.{ℕ, true, ◌≡◌, some, ◌==◌, arith, if◌then◌else◌}
use sinkronis_backend.Common.Int.{ℤ, pos, ◌+ℤ◌, ◌-ℤ◌, int_laws}
use sinkronis_backend.Common.Table.{find}
use sinkronis_backend.Database.{
  Db, Settlement, External, Returns, returns, bind-Returns, bind-Same, weaken, branch-Returns,
  ensure-Returns, transaction-Returns, require-Same, resume, create_ledger-Returns,
  update_settlement-Returns, missing, provider_not_eligible, transfer_mismatch, recipient_mismatch,
  after_call,
}
use sinkronis_backend.Wallet.Balance.{financial_wallet-Returns, consume_wallet_reservation-Returns}
use sinkronis_backend.Integrity.Checks.{held, active_reservation}
use sinkronis_backend.Integrity.Sums.{
  IsSound, at, settlement-IsSoundBy, entry-IsSoundBy, settle-IsSoundBy,
}
use sinkronis_backend.Integrity.Wallets.{neg, consume-IsSoundBy}
use sinkronis_backend.Settlement.Inputs.{Fresh}
use sinkronis_backend.Settlement.Reads.{assert_incident-Returns}
use sinkronis_backend.Settlement.Manual.{is_succeeded}
use sinkronis_backend.Settlement.Soundness.{SameMoney-IsSoundBy}
use sinkronis_backend.Transfer.Inputs.{TransferResult, assert_result}
use sinkronis_backend.Transfer.Result.{
  provider_debit, as_succeeded, pay_out, finalize_body, finalize_provider_settlement_success,
}
use sinkronis_backend.Transfer.Obligations.{claim_obligation-IsBusiness}

held_paid_out :
    (j : ℕ) (s : Settlement) (r : TransferResult) (now : ℕ)
    → active_reservation s ≡ true
    → pos 0 +ℤ at s.wallet_account_id (neg s.amount) j +ℤ held j s -ℤ held j (as_succeeded r now s)
      ≡ pos 0
held_paid_out j s r now h =
    let all_held : held j s ≡ at s.wallet_account_id s.amount j = ground arith in
    rw all_held (grind int_laws)

debit_entered :
    (k j : ℕ) (a : ℤ) → pos 0 +ℤ at k (neg a) j -ℤ (if k == j then neg a else pos 0) ≡ pos 0
debit_entered k j a = grind int_laws

pub assert_result-Returns :
    {P : Db → Type 0} (s : Settlement) (r : TransferResult) (db : Db)
    → P db
    → Returns P (λ _ db'. Unit {0} × (db' ≡ db)) (assert_result s r db)
unfolding assert_result
assert_result-Returns s r db h =
    bind-Same _ (ensure-Returns _ transfer_mismatch db h)
      λ _ _. weaken (ensure-Returns _ recipient_mismatch db h) (λ _ _ q. (tt, q.1)) (λ _ p. p)

module _ (x : External) (i : ℕ) (result : TransferResult) (fresh : Fresh) (db : Db) where
  pay_out-IsSound :
      (s : Settlement)
      → active_reservation s ≡ true
      → find i db.settlements ≡ some s
      → IsSound db
      → Returns (λ _. Unit {0}) (λ _. IsSound) (pay_out x i result fresh s db)
  unfolding pay_out
  pay_out-IsSound s active found sound =
      bind-Same _
        (weaken (financial_wallet-Returns s.organization_id s.wallet_account_id s.currency db)
          (λ _ _ q. q) (λ _ _. tt))
        λ _ _.
          bind-Returns (consume_wallet_reservation-Returns x _ _ _ _ db)
            λ d db1 (w, (_, _, (fw, ww)), _). rw ww (
              bind-Returns
                (weaken (create_ledger-Returns fresh.ledger_id (provider_debit d s) _) (λ _ _ q. q)
                  (λ _ _. tt))
                λ _ db2 (_, fl, wl). rw wl (
                  bind-Returns (claim_obligation-IsBusiness fresh.now s s.source_type _)
                    λ _ db3 same.
                      let found3 : find i db3.settlements ≡ some s = rw same.settlements found in
                      weaken (update_settlement-Returns i (as_succeeded result fresh.now) db3)
                        (λ _ _ (s', _, (fs, ws)).
                          let same_row : s' ≡ s = cc in
                          rw (ws, same_row)
                            (settle-IsSoundBy _ (λ j. held_paid_out j s result fresh.now active)
                              (λ j. debit_entered s.wallet_account_id j s.amount)
                              (settlement-IsSoundBy db3 i s (as_succeeded result fresh.now s)
                                (SameMoney-IsSoundBy same (
                                  entry-IsSoundBy _ fresh.ledger_id (provider_debit d s)
                                    (consume-IsSoundBy db s.wallet_account_id s.amount w sound fw)
                                    fl))
                                found3)))
                        (λ _ _. tt)))

  finalize_body-IsSound :
      IsSound db → Returns (λ _. Unit {0}) (λ _. IsSound) (finalize_body x i result fresh db)
  unfolding finalize_body resume
  finalize_body-IsSound sound =
      bind-Same _ (require-Same (find i db.settlements) missing db tt) λ s found.
        bind-Same _ (assert_incident-Returns x s.organization_id s.wallet_account_id db tt) λ _ _.
          branch-Returns (is_succeeded s.status) _ _ db (λ _. returns sound)
            λ _.
              bind-Same _ (ensure-Returns (active_reservation s) provider_not_eligible db tt)
                λ _ active.
                  bind-Same _ (assert_result-Returns s result db tt)
                    λ _ _. pay_out-IsSound s active found sound

-- Paying out a settlement that the provider reports successful, or refusing to, keeps wallets,
-- settlements and ledger in agreement.
pub finalize_provider_settlement_success-IsSound :
    (x : External) (i : ℕ) (result : TransferResult) (fresh : Fresh) (db : Db)
    → IsSound db
    → IsSound (finalize_provider_settlement_success x i result fresh db).1
unfolding finalize_provider_settlement_success
finalize_provider_settlement_success-IsSound x i result fresh db sound =
    after_call (transaction-Returns _ db sound (finalize_body-IsSound x i result fresh db sound))
