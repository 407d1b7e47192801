-- ===== src/Tests/Transfers.antt =====
-- The provider transfer theorems at concrete calls.
use sinkronis_backend.Common.{◌≡◌, refl, none, some, [], ◌∷◌, arith, false, true, if◌then◌else◌}
use sinkronis_backend.Common.Int.{pos, ◌≤ℤ◌, ◌+ℤ◌, ◌-ℤ◌}
use sinkronis_backend.Common.Text.{codes, text_eq, upper, trim, trim_start}
use sinkronis_backend.Common.Table.{find, put, any_other}
use sinkronis_backend.Database.{
  Db, Settlement, ok, err, conflict, provider_not_eligible, resume, transaction,
  update_settlement_where, update_wallet_where, update_settlement, settlement_or_throw,
  create_ledger, settlements_conflict, ledger_conflict, rolled_back, WalletTransaction,
}
use sinkronis_backend.Wallet.Calls.{
  reserve_wallet_balance, positive_amount, financial_wallet, owned_wallet,
  assert_financial_currency, normalize_financial_currency, change_wallet, spendable_balance,
  consume_wallet_reservation,
}
use sinkronis_backend.Integrity.Checks.{active_reservation}
use sinkronis_backend.Integrity.Sums.{IsSound}
use sinkronis_backend.Settlement.Inputs.{assert_incident_wallet_mutation_allowed, owned_settlement}
use sinkronis_backend.Settlement.Manual.{is_succeeded, is_prepared}
use sinkronis_backend.Transfer.Inputs.{assert_result, success, non_conclusive, failure}
use sinkronis_backend.Transfer.Claim.{
  Claimed, unclaimed, as_reserved, as_processing, claim_initiation, reserve_prepared, claim_body,
  reserve_and_claim_provider_settlement,
}
use sinkronis_backend.Transfer.Claims.{reserve_and_claim-IsSound}
use sinkronis_backend.Transfer.Payout.{finalize_provider_settlement_success-IsSound}
use sinkronis_backend.Transfer.Result.{
  pay_out, finalize_body, finalize_provider_settlement_success, as_succeeded, provider_debit,
  claim_obligation,
}
use sinkronis_backend.Transfer.Apply.{apply_provider_transfer_result, as_pending}
use sinkronis_backend.Transfer.Lease.{
  release_provider_settlement_reconciliation, leased, claim_provider_settlement_reconciliation,
}
use sinkronis_backend.Transfer.Once.{initiated_once}
use sinkronis_backend.Transfer.Paid.{finalize-pays, finalize-twice, PaidOut}
use sinkronis_backend.Transfer.Exclusion.{lease-excludes, lease-survives}
use sinkronis_backend.Transfer.Stale.{stale_result_reopens}
use sinkronis_backend.Transfer.Soundness.{apply_provider_transfer_result-IsSound, is_orphaned}
use sinkronis_backend.Tests.Samples.{
  packages, packages-IsSign, company, company-IsSound, main_wallet, open_row, prepared_row,
  succeeded_row, fresh, reported,
}

second_is_unreleased :
    (s : Settlement)
    → find 2 company.settlements ≡ some s
    → is_prepared s.status ≡ true
    → s.reservation_released_at ≡ none
unfolding find
second_is_unreleased s e p = let second : s ≡ prepared_row = cc in rw second refl

reserve_and_claim_example :
    IsSound (reserve_and_claim_provider_settlement packages 7 2 50 company).1
reserve_and_claim_example =
    reserve_and_claim-IsSound packages 7 2 50 company second_is_unreleased company-IsSound

finalize_provider_settlement_success_example :
    IsSound (finalize_provider_settlement_success packages 1 (reported success) fresh company).1
finalize_provider_settlement_success_example =
    finalize_provider_settlement_success-IsSound packages 1 (reported success) fresh company
      company-IsSound

first_row :
    (s : Settlement)
    → find 1 company.settlements ≡ some s
    → (pos 0 ≤ℤ s.amount) × (is_orphaned s ≡ false)
unfolding find
first_row s e = let first : s ≡ open_row = cc in rw first (omega arith, refl)

apply_provider_transfer_result_example :
    IsSound (apply_provider_transfer_result packages 1 (reported failure) fresh open_row company).1
apply_provider_transfer_result_example =
    apply_provider_transfer_result-IsSound packages 1 (reported failure) fresh open_row company
      packages-IsSign first_row company-IsSound

abbrev processing_row : Settlement
processing_row = as_processing 50 (as_reserved 50 prepared_row)

abbrev handed_over : Claimed
handed_over = record { settlement = processing_row; should_initiate = true }

abbrev company_claimed : Db
company_claimed = record company {
  wallets = (1, record main_wallet { reserved_balance = pos 40 }) ∷ [];
  settlements = (1, open_row) ∷ (2, processing_row) ∷ (3, succeeded_row) ∷ [];
}

first_claim :
    reserve_and_claim_provider_settlement packages 7 2 50 company
    ≡ (ok handed_over, company_claimed)
unfolding reserve_and_claim_provider_settlement transaction claim_body resume owned_settlement find
    assert_incident_wallet_mutation_allowed reserve_prepared update_settlement_where any_other
    settlements_conflict text_eq reserve_wallet_balance positive_amount financial_wallet
    owned_wallet assert_financial_currency normalize_financial_currency ◌+ℤ◌ ◌-ℤ◌ put trim
    trim_start upper rolled_back settlement_or_throw update_wallet_where claim_initiation
    change_wallet spendable_balance
first_claim = refl

second_claim :
    reserve_and_claim_provider_settlement packages 7 2 60 company_claimed
    ≡ (ok (unclaimed processing_row), company_claimed)
unfolding reserve_and_claim_provider_settlement transaction claim_body resume owned_settlement find
    assert_incident_wallet_mutation_allowed claim_initiation
second_claim = refl

initiated_once_example :
    ((unclaimed processing_row).should_initiate ≡ false) × (company_claimed ≡ company_claimed)
initiated_once_example =
    initiated_once packages 7 2 50 60 company company_claimed company_claimed handed_over
      (unclaimed processing_row) first_claim refl second_claim

abbrev paid_row : Settlement
paid_row = as_succeeded (reported success) 50 open_row

abbrev paid_debit : WalletTransaction
paid_debit = provider_debit (record { balance_before = pos 100; balance_after = pos 70 }) open_row

abbrev company_paid : Db
company_paid = record company {
  wallets = (1, record main_wallet { balance = pos 70; reserved_balance = pos 0 }) ∷ [];
  settlements = (1, paid_row) ∷ (2, prepared_row) ∷ (3, succeeded_row) ∷ [];
  ledger = put 9 paid_debit company.ledger;
}

first_payment :
    finalize_provider_settlement_success packages 1 (reported success) fresh company
    ≡ (ok paid_row, company_paid)
unfolding finalize_provider_settlement_success finalize_body pay_out transaction resume find
    assert_incident_wallet_mutation_allowed assert_result update_settlement any_other
    settlements_conflict text_eq consume_wallet_reservation positive_amount financial_wallet
    owned_wallet assert_financial_currency normalize_financial_currency ◌+ℤ◌ ◌-ℤ◌ put trim
    trim_start upper rolled_back update_wallet_where change_wallet update_settlement_where
    create_ledger claim_obligation ledger_conflict
first_payment = refl

first_found : find 1 company.settlements ≡ some open_row
unfolding find
first_found = refl

finalize-pays_example :
    if is_succeeded open_row.status
    then (paid_row ≡ open_row) × (company_paid ≡ company)
    else (active_reservation open_row ≡ true)
      × (paid_row ≡ as_succeeded (reported success) 50 open_row)
      × PaidOut 1 (reported success) fresh open_row company company_paid
finalize-pays_example =
    finalize-pays packages 1 (reported success) fresh open_row paid_row company company_paid
      first_found first_payment

finalize-twice_example :
    finalize_provider_settlement_success packages 1 (reported failure) fresh company_paid
    ≡ (ok paid_row, company_paid)
finalize-twice_example =
    finalize-twice packages 1 (reported success) (reported failure) fresh fresh open_row paid_row
      company company_paid first_found first_payment

-- The settlement that a worker has leased at time 50, for ten time units.
abbrev paystack_row : Settlement
paystack_row = record processing_row { provider_name = some (codes "PAYSTACK") }

abbrev company_waiting : Db
company_waiting = record company { settlements = (2, paystack_row) ∷ [] }

abbrev company_leased : Db
company_leased = record company { settlements = (2, leased 10 50 77 paystack_row) ∷ [] }

first_lease :
    claim_provider_settlement_reconciliation 10 2 50 77 company_waiting
    ≡ (ok (some (77, 60)), company_leased)
unfolding claim_provider_settlement_reconciliation update_settlement_where find text_eq put resume
    any_other settlements_conflict
first_lease = refl

lease-excludes_example :
    claim_provider_settlement_reconciliation 10 2 59 78 company_leased ≡ (ok none, company_leased)
lease-excludes_example =
    lease-excludes 10 2 50 77 59 78 77 60 company_waiting company_leased first_lease (omega arith)

lease-survives_example :
    let after = release_provider_settlement_reconciliation 2 78 none company_leased in
    (after ≡ (ok 0, company_leased))
    × (claim_provider_settlement_reconciliation 10 2 59 79 after.1 ≡ (ok none, company_leased))
lease-survives_example =
    lease-survives 10 2 50 77 78 59 79 77 60 none company_waiting company_leased first_lease
      (λ e. omega (arith, e)) (omega arith)

-- A worker that read the settlement before it was paid out hears that it is still pending.
abbrev company_reopened : Db
company_reopened = record company_paid {
  settlements =
      (1, as_pending (reported non_conclusive) 50 paid_row)
      ∷ (2, prepared_row)
      ∷ (3, succeeded_row)
      ∷ [];
}

stale_result :
    apply_provider_transfer_result packages 1 (reported non_conclusive) fresh open_row company_paid
    ≡ (ok (as_pending (reported non_conclusive) 50 paid_row), company_reopened)
unfolding apply_provider_transfer_result assert_result resume update_settlement
    update_settlement_where find put text_eq any_other settlements_conflict
stale_result = refl

paid_found : find 1 company_paid.settlements ≡ some paid_row
unfolding find
paid_found = refl

stale_result_reopens_example :
    (find 1 company_reopened.settlements ≡ some (as_pending (reported non_conclusive) 50 paid_row))
    × (finalize_provider_settlement_success packages 1 (reported success) fresh company_reopened
        ≡ (err (conflict provider_not_eligible), company_reopened))
stale_result_reopens_example =
    stale_result_reopens packages 1 (reported non_conclusive) (reported success) fresh fresh
      open_row paid_row (as_pending (reported non_conclusive) 50 paid_row) company_paid
      company_reopened refl refl paid_found refl refl stale_result
