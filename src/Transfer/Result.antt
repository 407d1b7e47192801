-- ===== src/Transfer/Result.antt =====
-- `finalizeProviderSettlementSuccess`, `applyProviderTransferResult` and `reverseProviderSettlement` of
-- src/core/provider-settlement.ts.
use sinkronis_backend.Common.{ℕ, Bool, true, false, none, some, ◌==◌, ◌&&◌, not, if◌then◌else◌}
use sinkronis_backend.Common.Table.{find, count_where}
use sinkronis_backend.Database.{
  Action, External, Settlement, Payslip, RequestStatus, PaymentStatus, PayrollRun, RunStatus,
  SourceType, WalletTransaction, accounting_payment_request, payroll_payslip, other_source,
  approved, paid, slip_paid, disbursing, disbursed, cancelled, debit, provider_of, succeeded,
  accounting_not_eligible, payroll_not_eligible, provider_not_eligible, missing, pure, gets,
  require, ensure, transaction, update_settlement, create_ledger, update_request_where,
  update_payslip_where, update_run_where, update_run, ◌>>=◌, ◌>>◌,
}
use sinkronis_backend.Wallet.Calls.{Debit, consume_wallet_reservation, financial_wallet}
use sinkronis_backend.Integrity.Checks.{active_reservation}
use sinkronis_backend.Settlement.Inputs.{Fresh, assert_incident_wallet_mutation_allowed}
use sinkronis_backend.Settlement.Manual.{is_succeeded}
use sinkronis_backend.Transfer.Inputs.{TransferResult, assert_result, or_kept}

abbrev pub is_approved : RequestStatus → Bool
is_approved approved = true
is_approved _ = false

abbrev pub is_paid : RequestStatus → Bool
is_paid paid = true
is_paid _ = false

abbrev pub is_slip_paid : PaymentStatus → Bool
is_slip_paid slip_paid = true
is_slip_paid _ = false

abbrev is_cancelled : RunStatus → Bool
is_cancelled cancelled = true
is_cancelled _ = false

abbrev pub as_disbursing : PayrollRun → PayrollRun
as_disbursing r = record r { run_status = disbursing; disbursed_at = none }

abbrev pub as_disbursed : ℕ → PayrollRun → PayrollRun
as_disbursed now r = record r { run_status = disbursed; disbursed_at = some now }

abbrev pub is_unpaid_slip_of : Payslip → Payslip → Bool
is_unpaid_slip_of slip p =
    p.payroll_run_id == slip.payroll_run_id
    && (p.organization_id == slip.organization_id && not (is_slip_paid p.payment_status))

-- `updatePayrollAggregate`, for the payslip that was found
unfoldable pub aggregate_of : ℕ → Bool → Payslip → Action (Unit {0})
aggregate_of now successful slip =
    if not successful
    then (update_run_where slip.payroll_run_id
          (λ r. r.organization_id == slip.organization_id && not (is_cancelled r.run_status))
          as_disbursing
        >> pure tt)
    else (gets (λ db. count_where (is_unpaid_slip_of slip) db.payslips) >>= λ remaining.
        update_run slip.payroll_run_id (if remaining == 0 then as_disbursed now else as_disbursing))

unfoldable pub update_payroll_aggregate : ℕ → ℕ → Bool → Action (Unit {0})
update_payroll_aggregate now payslip_id successful db = elim (find payslip_id db.payslips) [
  | none ↦ pure tt db
  | some slip ↦ aggregate_of now successful slip db
]

-- The obligation that the settlement pays is marked paid, once.
unfoldable pub claim_obligation : ℕ → Settlement → SourceType → Action (Unit {0})
claim_obligation now s accounting_payment_request = do
  claimed ←
      update_request_where s.source_id
        (λ r. r.organization_id == s.organization_id && is_approved r.status)
        (λ r. record r {
          status = paid;
          disbursement_reference = some s.internal_reference;
          disbursed_at = some now;
        })
  ensure (claimed == 1) accounting_not_eligible
claim_obligation now s payroll_payslip = do
  claimed ←
      update_payslip_where s.source_id
        (λ p. p.organization_id == s.organization_id && not (is_slip_paid p.payment_status))
        (λ p. record p { payment_status = slip_paid })
  ensure (claimed == 1) payroll_not_eligible
  update_payroll_aggregate now s.source_id true
claim_obligation now s (other_source _) = pure tt

abbrev pub provider_debit : Debit → Settlement → WalletTransaction
provider_debit d s = record {
  organization_id = s.organization_id;
  wallet_account_id = s.wallet_account_id;
  ledger_type = provider_of s.source_type;
  direction = debit;
  amount = s.amount;
  balance_before = d.balance_before;
  balance_after = d.balance_after;
  reference = s.internal_reference;
  transfer_reference = s.transfer_reference;
  source_type = some s.source_type;
  source_id = some s.source_id;
  reversed_transaction = none;
}

abbrev pub as_succeeded : TransferResult → ℕ → Settlement → Settlement
as_succeeded r now s = record s {
  status = succeeded;
  provider_status = some r.provider_status;
  transfer_code = or_kept r.transfer_code s.transfer_code;
  last_verified_at = some now;
  reservation_released_at = some now;
  settled_at = some now;
  failure_reason = none;
}

module _ (x : External) (i : ℕ) (result : TransferResult) (fresh : Fresh) where
  -- The debit, the obligation and the settlement, in one transaction.
  unfoldable pub pay_out : Settlement → Action Settlement
  pay_out s = do
    financial_wallet s.organization_id s.wallet_account_id s.currency
    d ← consume_wallet_reservation x s.organization_id s.wallet_account_id s.amount s.currency
    create_ledger fresh.ledger_id (provider_debit d s)
    claim_obligation fresh.now s s.source_type
    update_settlement i (as_succeeded result fresh.now)

  unfoldable pub finalize_body : Action Settlement
  finalize_body = do
    s ← require (← gets (λ db. find i db.settlements)) missing
    assert_incident_wallet_mutation_allowed x s.organization_id s.wallet_account_id
    if is_succeeded s.status
        then pure s
        else (ensure (active_reservation s) provider_not_eligible
            >> (assert_result s result >> pay_out s))

  unfoldable pub finalize_provider_settlement_success : Action Settlement
  finalize_provider_settlement_success = transaction finalize_body
