-- ===== src/Tests/Takeovers.antt =====
-- A manual settlement that takes over a prepared one, at a concrete call.
use sinkronis_backend.Common.{ℕ, ◌≡◌, refl, some, [], ◌∷◌, false}
use sinkronis_backend.Common.Int.{pos, ◌+ℤ◌, ◌-ℤ◌}
use sinkronis_backend.Common.Text.{text_eq, upper, trim, trim_start}
use sinkronis_backend.Common.Table.{find, put, find_where, scan, any_other}
use sinkronis_backend.Database.{
  Db, Settlement, Action, pure, returns, ok, resume, transaction, rolled_back, catch, handled,
  update_wallet_where, update_settlement, create_ledger, settlements_conflict, ledger_conflict,
}
use sinkronis_backend.Wallet.Calls.{
  Debit, assert_financial_currency, normalize_financial_currency, owned_wallet, financial_wallet,
  change_wallet, positive_amount, spendable_balance, reserve_wallet_balance,
  consume_wallet_reservation,
}
use sinkronis_backend.Settlement.Inputs.{is_source, assert_incident_wallet_mutation_allowed}
use sinkronis_backend.Settlement.Manual.{
  Completed, as_manual, as_completed, manual_debit, finish_manually, settle_manually,
  manual_existing, manual_body, complete_manual_settlement,
}
use sinkronis_backend.Settlement.Takeover.{TakesOver, manual-TakesOver}
use sinkronis_backend.Tests.Samples.{
  packages, company, main_wallet, open_row, prepared_row, succeeded_row, bill, paid_by_hand, fresh,
}

abbrev no_more_work : Settlement → ℕ → Action ℕ
no_more_work s i = pure i

-- The obligation was prepared at 10 and is paid at 12.
abbrev taken_over : Settlement
taken_over = as_completed paid_by_hand fresh (as_manual paid_by_hand fresh prepared_row)

abbrev returned : Completed ℕ
returned = record { settlement = taken_over; result = some 9; idempotent_replay = false }

abbrev the_debit : Debit
the_debit = record { balance_before = pos 100; balance_after = pos 88 }

abbrev company_after : Db
company_after = record company {
  wallets = (1, record main_wallet { balance = pos 88 }) ∷ [];
  settlements = (1, open_row) ∷ (2, taken_over) ∷ (3, succeeded_row) ∷ [];
  ledger =
      put 9
        (manual_debit (bill 2 12) paid_by_hand the_debit
          (as_manual paid_by_hand fresh prepared_row))
        company.ledger;
}

the_call :
    complete_manual_settlement packages (bill 2 12) paid_by_hand fresh no_more_work company
    ≡ (ok returned, company_after)
unfolding complete_manual_settlement assert_incident_wallet_mutation_allowed catch handled
    transaction rolled_back manual_body manual_existing settle_manually finish_manually find_where
    scan find put any_other resume text_eq upper trim trim_start assert_financial_currency
    normalize_financial_currency owned_wallet financial_wallet change_wallet positive_amount
    spendable_balance reserve_wallet_balance consume_wallet_reservation update_wallet_where
    update_settlement create_ledger settlements_conflict ledger_conflict ◌+ℤ◌ ◌-ℤ◌
the_call = refl

prepared_found : find_where (is_source (bill 2 12)) company.settlements ≡ some (2, prepared_row)
unfolding find_where scan find text_eq
prepared_found = refl

manual-TakesOver_example : TakesOver (bill 2 12) fresh prepared_row returned company_after
manual-TakesOver_example =
    manual-TakesOver packages (bill 2 12) paid_by_hand fresh no_more_work
      (λ s i db. returns (record { wallets = refl; settlements = refl; ledger = refl })) 2
      prepared_row returned company company_after prepared_found refl the_call
