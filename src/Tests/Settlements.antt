-- ===== src/Tests/Settlements.antt =====
-- The settlement theorems at concrete calls.
use sinkronis_backend.Common.{ℕ, ◌≡◌, ◌↔◌, refl, some, arith, false}
use sinkronis_backend.Common.Int.{pos, ◌≤ℤ◌}
use sinkronis_backend.Common.Text.{codes}
use sinkronis_backend.Common.Table.{find}
use sinkronis_backend.Database.{Settlement, Action, pure, returns}
use sinkronis_backend.Integrity.Checks.{
  wallet_balance_mismatch, unledgered_wallet_value, wallet_reserved_balance_mismatch,
  reservation_mismatch,
}
use sinkronis_backend.Integrity.Sums.{IsSound}
use sinkronis_backend.Integrity.Described.{SumsTo, Holds, Enters}
use sinkronis_backend.Integrity.Findings.{no_findings_iff}
use sinkronis_backend.Settlement.Manual.{complete_manual_settlement}
use sinkronis_backend.Settlement.Release.{release_settlement_reservation}
use sinkronis_backend.Settlement.Reverse.{reverse_succeeded_settlement}
use sinkronis_backend.Settlement.Soundness.{complete_manual_settlement-IsSound}
use sinkronis_backend.Settlement.Undo.{
  release_settlement_reservation-IsSound, reverse_succeeded_settlement-IsSound,
}
use sinkronis_backend.Tests.Samples.{
  packages, packages-IsSign, company, company-IsSound, main_wallet, succeeded_row, bill,
  paid_by_hand, fresh,
}

no_findings_iff_example :
    ((wallet_balance_mismatch 1 main_wallet company ≡ false)
      × (unledgered_wallet_value 1 main_wallet company ≡ false)
      × (wallet_reserved_balance_mismatch 1 main_wallet company ≡ false)
      × (reservation_mismatch main_wallet ≡ false))
    ↔ (SumsTo (Holds 1) company.settlements main_wallet.reserved_balance
        × SumsTo (Enters 1) company.ledger main_wallet.balance
        × (main_wallet.reserved_balance ≤ℤ main_wallet.balance))
no_findings_iff_example = no_findings_iff 1 main_wallet company

-- A caller that writes nothing of its own.
abbrev no_more_work : Settlement → ℕ → Action ℕ
no_more_work s i = pure i

complete_manual_settlement_example :
    IsSound
      (complete_manual_settlement packages (bill 4 70) paid_by_hand fresh no_more_work company).1
complete_manual_settlement_example =
    complete_manual_settlement-IsSound packages (bill 4 70) paid_by_hand fresh no_more_work company
      (λ s i db. returns (record { wallets = refl; settlements = refl; ledger = refl }))
      company-IsSound

release_settlement_reservation_example :
    IsSound (release_settlement_reservation packages 7 1 (codes "rejected") 60 company).1
release_settlement_reservation_example =
    release_settlement_reservation-IsSound packages 7 1 (codes "rejected") 60 company
      packages-IsSign company-IsSound

amount_of_third : (s : Settlement) → find 3 company.settlements ≡ some s → pos 0 ≤ℤ s.amount
unfolding find
amount_of_third s e = let third : s ≡ succeeded_row = cc in rw third (omega arith)

reverse_succeeded_settlement_example :
    IsSound (reverse_succeeded_settlement packages 7 3 (codes "back") fresh company).1
reverse_succeeded_settlement_example =
    reverse_succeeded_settlement-IsSound packages 7 3 (codes "back") fresh company amount_of_third
      company-IsSound
