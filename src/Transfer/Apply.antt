-- ===== src/Transfer/Apply.antt =====
-- `applyProviderTransferResult` and `reverseProviderSettlement` of src/core/provider-settlement.ts. The
-- settlement that they take is a row read earlier; the tables may have moved on since.
use sinkronis_backend.Common.{
  ℕ, Bool, true, false, none, some, ◌==◌, ◌&&◌, not, if◌then◌else◌, ◌++◌,
}
use sinkronis_backend.Common.Text.{codes}
use sinkronis_backend.Database.{
  Action, External, Settlement, SourceType, accounting_payment_request, payroll_payslip,
  other_source, approved, slip_reversed, provider_processing, incompatible_terminal, conflict, pure,
  raise, transaction, update_settlement, update_request_where, update_payslip_where,
  settlement_or_throw, ◌>>◌,
}
use sinkronis_backend.Settlement.Inputs.{Fresh}
use sinkronis_backend.Settlement.Manual.{is_succeeded}
use sinkronis_backend.Settlement.Release.{is_failed, release_settlement_reservation}
use sinkronis_backend.Settlement.Reverse.{is_reversed, reverse_succeeded_settlement}
use sinkronis_backend.Transfer.Inputs.{
  TransferState, TransferResult, non_conclusive, success, failure, reversal, assert_result, or_kept,
}
use sinkronis_backend.Transfer.Claim.{is_terminal}
use sinkronis_backend.Transfer.Result.{
  is_paid, is_slip_paid, update_payroll_aggregate, finalize_provider_settlement_success,
}

-- The obligation is open again after a reversal.
unfoldable pub reopen_obligation : ℕ → Settlement → SourceType → Action (Unit {0})
reopen_obligation now s accounting_payment_request = do
  update_request_where s.source_id (λ r. r.organization_id == s.organization_id && is_paid r.status)
      (λ r. record r { status = approved; disbursement_reference = none; disbursed_at = none })
  pure tt
reopen_obligation now s payroll_payslip = do
  update_payslip_where s.source_id
      (λ p. p.organization_id == s.organization_id && is_slip_paid p.payment_status)
      (λ p. record p { payment_status = slip_reversed })
  update_payroll_aggregate now s.source_id false
reopen_obligation now s (other_source _) = pure tt

abbrev pub as_verified : TransferResult → ℕ → Settlement → Settlement
as_verified r now s = record s {
  provider_status = some r.provider_status;
  transfer_code = or_kept r.transfer_code s.transfer_code;
  last_verified_at = some now;
}

abbrev pub as_pending : TransferResult → ℕ → Settlement → Settlement
as_pending r now s = record s {
  status = provider_processing;
  provider_status = some r.provider_status;
  transfer_code = or_kept r.transfer_code s.transfer_code;
  last_verified_at = some now;
}

abbrev pub as_reversal_seen : TransferResult → ℕ → Settlement → Settlement
as_reversal_seen r now s = record s {
  provider_status = some r.provider_status;
  last_verified_at = some now;
}

-- A terminal settlement agrees with what the provider reports.
abbrev pub agrees : Settlement → TransferState → Bool
agrees s success = is_succeeded s.status
agrees s failure = is_failed s.status
agrees s reversal = is_reversed s.status
agrees s non_conclusive = true

abbrev pub is_reversal_of_success : Settlement → TransferState → Bool
is_reversal_of_success s reversal = is_succeeded s.status
is_reversal_of_success s _ = false

module _ (x : External) (i : ℕ) (result : TransferResult) (fresh : Fresh) where
  unfoldable pub reverse_provider_settlement : Settlement → Action Settlement
  reverse_provider_settlement s = do
    assert_result s result
    reverse_succeeded_settlement x s.organization_id i
        (codes "paystack-reversal-" ++ result.reference) fresh
    transaction (
        reopen_obligation fresh.now s s.source_type
        >> update_settlement i (as_reversal_seen result fresh.now))
    settlement_or_throw i

  abbrev pub apply_state : Settlement → TransferState → Action Settlement
  apply_state s success = finalize_provider_settlement_success x i result fresh
  apply_state s failure =
      release_settlement_reservation x s.organization_id i
        (codes "Paystack transfer " ++ result.provider_status) fresh.now
      >> update_settlement i (as_verified result fresh.now)
  apply_state s reversal = reverse_provider_settlement s
  apply_state s non_conclusive = update_settlement i (as_pending result fresh.now)

  unfoldable pub apply_provider_transfer_result : Settlement → Action Settlement
  apply_provider_transfer_result s = do
    assert_result s result
    if is_terminal s.status && agrees s result.state
        then pure s
        else (if is_terminal s.status && not (is_reversal_of_success s result.state)
            then raise (conflict incompatible_terminal)
            else apply_state s result.state)
