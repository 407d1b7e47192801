-- ===== src/Database/FundingRows.antt =====
-- The table of the Paystack payments into wallets.
use sinkronis_backend.Common.{ℕ, Option}
use sinkronis_backend.Common.Int.{ℤ}
use sinkronis_backend.Common.Text.{Text}

pub data FundingStatus : Type 0 where
  funding_pending initializing initialized funding_unknown funding_processing : FundingStatus
  completed funding_failed : FundingStatus

pub record WalletFunding : Type 0 where
  pub organization_id : ℕ
  pub wallet_account_id : ℕ
  pub reference : Text
  pub amount : ℤ
  pub currency : Text
  pub status : FundingStatus
  pub provider_reference : Option Text
  pub failure_reason : Option Text
  pub verified_at : Option ℕ
  pub created_by_id : Option ℕ
