-- ===== src/Transfer/Soundness.antt =====
-- Applying what the provider reports keeps wallets, settlements and ledger in agreement.
use sinkronis_backend.Common.{ℕ, Bool, false, ◌≡◌, refl, some, ◌&&◌, not, arith, is_set, ◌++◌}
use sinkronis_backend.Common.Int.{ℤ, pos, ◌+ℤ◌, ◌-ℤ◌, ◌≤ℤ◌, int_laws}
use sinkronis_backend.Common.Text.{codes}
use sinkronis_backend.Common.Table.{find}
use sinkronis_backend.Database.{
  Db, Settlement, External, IsSign, SourceType, accounting_payment_request, payroll_payslip,
  other_source, Returns, returns, raises, bind-Returns, bind-Same, weaken, branch-Returns,
  transaction-Returns, update_settlement, update_settlement-Returns, settlement_or_throw,
  require-Same, p2025, after_call, of_after,
}
use sinkronis_backend.Integrity.Checks.{held, is_active}
use sinkronis_backend.Integrity.Sums.{IsSound, settlement-IsSoundBy, settle-IsSoundBy}
use sinkronis_backend.Settlement.Inputs.{Fresh}
use sinkronis_backend.Settlement.Soundness.{SameMoney-IsSoundBy}
use sinkronis_backend.Settlement.Undo.{
  release_settlement_reservation-IsSound, reverse_succeeded_settlement-IsSound,
}
use sinkronis_backend.Transfer.Inputs.{
  TransferResult, TransferState, non_conclusive, success, failure, reversal,
}
use sinkronis_backend.Transfer.Claim.{is_terminal}
use sinkronis_backend.Transfer.Apply.{
  reopen_obligation, as_verified, as_pending, as_reversal_seen, agrees, is_reversal_of_success,
  reverse_provider_settlement, apply_state, apply_provider_transfer_result,
}
use sinkronis_backend.Transfer.Obligations.{
  IsBusiness, update_request_where-IsBusiness, update_payslip_where-IsBusiness,
  update_payroll_aggregate-IsBusiness, SameMoney-refl, SameMoney-trans,
}
use sinkronis_backend.Transfer.Payout.{
  assert_result-Returns, finalize_provider_settlement_success-IsSound,
}

reopen_obligation-IsBusiness :
    (now : ℕ) (s : Settlement) (t : SourceType) → IsBusiness (reopen_obligation now s t)
unfolding reopen_obligation
reopen_obligation-IsBusiness now s accounting_payment_request db =
    bind-Returns (update_request_where-IsBusiness _ _ _ db) λ _ _ same. returns same
reopen_obligation-IsBusiness now s payroll_payslip db =
    bind-Returns (update_payslip_where-IsBusiness _ _ _ db) λ _ db' same.
      weaken (update_payroll_aggregate-IsBusiness now s.source_id false db')
        (λ _ _ r. SameMoney-trans same r) (λ _ _. tt)
reopen_obligation-IsBusiness now s (other_source _) db = returns (SameMoney-refl db)

same_held : (a b : ℤ) → b ≡ a → pos 0 +ℤ a -ℤ b ≡ pos 0
same_held a b e = rw e (omega int_laws)

-- An update that leaves what the settlement holds.
pub update_settlement-IsSound :
    (i : ℕ) (f : Settlement → Settlement) (db : Db)
    → ((j : ℕ) (s : Settlement) → find i db.settlements ≡ some s → held j (f s) ≡ held j s)
    → IsSound db
    → Returns IsSound (λ _. IsSound) (update_settlement i f db)
update_settlement-IsSound i f db keeps sound =
    weaken (update_settlement-Returns i f db)
      (λ _ _ (s, _, (fs, w)). rw w (
        settle-IsSoundBy _ (λ j. same_held (held j s) (held j (f s)) (keeps j s fs)) (λ j. refl)
          (settlement-IsSoundBy db i s (f s) sound fs)))
      (λ _ w. rw w sound)

-- A reservation that has been made and not released belongs to an active settlement: the scanner has
-- no ORPHANED_RESERVATION to report, of any status.
abbrev pub is_orphaned : Settlement → Bool
is_orphaned s =
    is_set s.reserved_at && (not (is_set s.reservation_released_at) && not (is_active s.status))

held_pending :
    (j : ℕ) (s : Settlement) (r : TransferResult) (now : ℕ)
    → is_orphaned s ≡ false
    → held j (as_pending r now s) ≡ held j s
held_pending j s r now h = ground arith

module _ (x : External) (i : ℕ) (result : TransferResult) (fresh : Fresh) where
  reverse_provider_settlement-IsSound :
      (s : Settlement) (db : Db)
      → ((r : Settlement) → find i db.settlements ≡ some r → pos 0 ≤ℤ r.amount)
      → IsSound db
      → Returns IsSound (λ _. IsSound) (reverse_provider_settlement x i result fresh s db)
  unfolding reverse_provider_settlement settlement_or_throw
  reverse_provider_settlement-IsSound s db positive sound =
      bind-Same _ (assert_result-Returns s result db sound) λ _ _.
        bind-Returns
          (of_after _ (
            reverse_succeeded_settlement-IsSound x s.organization_id i
              (codes "paystack-reversal-" ++ result.reference) fresh db positive sound))
          λ _ db1 sound1.
            bind-Returns
              (transaction-Returns {Q = λ _. IsSound} _ db1 sound1 (
                bind-Returns (reopen_obligation-IsBusiness fresh.now s s.source_type db1)
                  λ _ db2 same.
                    weaken
                      (update_settlement-IsSound i (as_reversal_seen result fresh.now) db2
                        (λ j r e. refl) (SameMoney-IsSoundBy same sound1))
                      (λ _ _ q. q) (λ _ _. tt)))
              λ _ db3 sound3.
                weaken (require-Same (find i db3.settlements) p2025 db3 sound3)
                  (λ _ _ (_, w). rw w sound3) (λ _ p. p)

  apply_state-IsSound :
      (s : Settlement) (t : TransferState) (db : Db)
      → IsSign x
      → ((r : Settlement)
          → find i db.settlements ≡ some r
          → (pos 0 ≤ℤ r.amount) × (is_orphaned r ≡ false))
      → IsSound db
      → Returns IsSound (λ _. IsSound) (apply_state x i result fresh s t db)
  apply_state-IsSound s success db sign ok_rows sound =
      of_after _ (finalize_provider_settlement_success-IsSound x i result fresh db sound)
  apply_state-IsSound s failure db sign ok_rows sound =
      bind-Returns
        (of_after _
          (release_settlement_reservation-IsSound x s.organization_id i _ fresh.now db sign sound))
        λ _ db1 sound1.
          update_settlement-IsSound i (as_verified result fresh.now) db1 (λ j r e. refl) sound1
  apply_state-IsSound s reversal db sign ok_rows sound =
      reverse_provider_settlement-IsSound s db (λ r e. (ok_rows r e).0) sound
  apply_state-IsSound s non_conclusive db sign ok_rows sound =
      update_settlement-IsSound i (as_pending result fresh.now) db
        (λ j r e. held_pending j r result fresh.now (ok_rows r e).1) sound

-- Whatever the provider reports, and whatever the tables have become since the settlement was read,
-- applying it keeps wallets, settlements and ledger in agreement, if the settlement's amount is not
-- negative and its reservation, once made and not released, belongs to an active status.
pub apply_provider_transfer_result-IsSound :
    (x : External) (i : ℕ) (result : TransferResult) (fresh : Fresh) (s : Settlement) (db : Db)
    → IsSign x
    → ((r : Settlement)
        → find i db.settlements ≡ some r
        → (pos 0 ≤ℤ r.amount) × (is_orphaned r ≡ false))
    → IsSound db
    → IsSound (apply_provider_transfer_result x i result fresh s db).1
unfolding apply_provider_transfer_result
apply_provider_transfer_result-IsSound x i result fresh s db sign ok_rows sound = after_call (
    bind-Same _ (assert_result-Returns s result db sound) λ _ _.
      branch-Returns (is_terminal s.status && agrees s result.state) _ _ db (λ _. returns sound)
        λ _.
          branch-Returns (is_terminal s.status && not (is_reversal_of_success s result.state)) _ _
            db (λ _. raises sound)
            (λ _. apply_state-IsSound x i result fresh s result.state db sign ok_rows sound))
