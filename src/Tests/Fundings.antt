-- ===== src/Tests/Fundings.antt =====
-- The theorems on the funding of wallets at concrete calls.
use sinkronis_backend.Common.{true, ◌≡◌, refl, none, some, [], ◌∷◌, arith}
use sinkronis_backend.Common.Int.{pos, ◌≤ℤ◌}
use sinkronis_backend.Common.Text.{codes}
use sinkronis_backend.Common.Amount.{whole}
use sinkronis_backend.Common.Json.{number}
use sinkronis_backend.Common.Table.{find}
use sinkronis_backend.Database.{Db, WalletFunding, initialized, Returns, ok}
use sinkronis_backend.Audit.{Stamp}
use sinkronis_backend.Integrity.Sums.{IsSound}
use sinkronis_backend.Settlement.Inputs.{Fresh}
use sinkronis_backend.Settlement.Soundness.{SameMoney-IsSoundBy}
use sinkronis_backend.Funding.Manual.{FundingInput, fund_wallet_manually}
use sinkronis_backend.Funding.Paystack.{
  Verification, credit_entry, finalize_verified_paystack_funding,
}
use sinkronis_backend.Funding.Soundness.{fund_wallet_manually-IsSound}
use sinkronis_backend.Funding.Paid.{finalize_funding-IsSound}
use sinkronis_backend.Funding.Once.{finalize_funding-once}
use sinkronis_backend.Tests.Samples.{packages, company, company-IsSound, fresh, ngn}

abbrev stamp : Stamp
stamp = record { context = record { ip_address = none; user_agent = none }; created_at = 50 }

abbrev transfer_in : FundingInput
transfer_in = record {
  organization_id = 7;
  wallet_account_id = 1;
  amount = whole 40;
  external_reference = codes "bank-in-1";
  raw_amount = number (codes "0.4");
  user_id = 2;
  stamp = stamp;
}

fund_wallet_manually-IsSound_example :
    IsSound (fund_wallet_manually packages transfer_in fresh company).1
fund_wallet_manually-IsSound_example =
    fund_wallet_manually-IsSound packages transfer_in fresh company company-IsSound

abbrev payment : WalletFunding
payment = record {
  organization_id = 7;
  wallet_account_id = 1;
  reference = codes "psk-1";
  amount = pos 25;
  currency = ngn;
  status = initialized;
  provider_reference = none;
  failure_reason = none;
  verified_at = none;
  created_by_id = some 2;
}

abbrev company_paying : Db
company_paying = record company { fundings = (4, payment) ∷ [] }

abbrev verified : Verification
verified = record {
  status = codes "success";
  reference = codes "psk-1";
  amount = pos 25;
  currency = ngn;
  paid_at = none;
  payment_domain = some (codes "WALLET_FUNDING");
  funding_attempt_id = some 4;
  organization_id = some 7;
  wallet_account_id = some 1;
}

company_paying-IsSound : IsSound company_paying
company_paying-IsSound =
    SameMoney-IsSoundBy (record { wallets = refl; settlements = refl; ledger = refl })
      company-IsSound

payment_positive : (a : WalletFunding) → find 4 company_paying.fundings ≡ some a → pos 0 ≤ℤ a.amount
unfolding find
payment_positive a e = ground arith

finalize_funding-IsSound_example :
    IsSound (finalize_verified_paystack_funding packages 4 verified fresh stamp company_paying).1
finalize_funding-IsSound_example =
    finalize_funding-IsSound packages 4 verified fresh stamp company_paying payment_positive
      company_paying-IsSound

finalize_funding-once_example :
    Returns
      (λ _. Unit {0})
      (λ report db'.
        (later : Verification) (again : Fresh) (at : Stamp)
        → finalize_verified_paystack_funding packages 4 later again at db' ≡ (
          ok (record {
            funding = report.funding;
            entry = credit_entry 4 report.funding db';
            idempotent_replay = true;
          }),
          db',
        ))
      (finalize_verified_paystack_funding packages 4 verified fresh stamp company_paying)
finalize_funding-once_example = finalize_funding-once packages 4 verified fresh stamp company_paying
