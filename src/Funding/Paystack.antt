-- ===== src/Funding/Paystack.antt =====
-- `finalizeVerifiedPaystackFunding` and `verifyPaystackWalletFunding`: a verified Paystack payment
-- credits its wallet once.
use sinkronis_backend.Common.{
  ℕ, Bool, true, false, Option, none, some, ◌++◌, ◌==◌, ◌&&◌, map, if◌then◌else◌,
}
use sinkronis_backend.Common.Int.{ℤ, eqb_ℤ}
use sinkronis_backend.Common.Text.{Text, codes, text_eq, upper}
use sinkronis_backend.Common.Decimal.{decimal}
use sinkronis_backend.Common.Table.{Table, find, find_where, put}
use sinkronis_backend.Database.{
  External, Db, Action, ok, err, Wallet, WalletFunding, FundingStatus, funding_pending,
  initializing, initialized, funding_unknown, funding_processing, completed, WalletTransaction,
  credit, other_type, other_source, ledger_type_eq, missing, p2025, provider_error,
  funding_mismatch, funding_in_progress, same_id, same_text, same_source, pure, raise, gets,
  require, ensure, transaction, update_wallet, create_ledger, ◌>>=◌, ◌>>◌,
}
use sinkronis_backend.Audit.{AuditInput, Stamp, persist_audit_log}
use sinkronis_backend.Wallet.Calls.{owned_wallet, assert_financial_currency}
use sinkronis_backend.Settlement.Inputs.{Fresh, assert_incident_wallet_mutation_allowed}
use sinkronis_backend.Funding.Manual.{increment}

-- `PaystackVerifyData`: the fields of the metadata as far as they are text of the type asked for
pub record Verification : Type 0 where
  pub status : Text
  pub reference : Text
  -- in hundredths, the minor unit
  pub amount : ℤ
  pub currency : Text
  pub paid_at : Option ℕ
  pub payment_domain : Option Text
  pub funding_attempt_id : Option ℕ
  pub organization_id : Option ℕ
  pub wallet_account_id : Option ℕ

pub record FundingReport : Type 0 where
  pub funding : WalletFunding
  pub entry : Option WalletTransaction
  pub idempotent_replay : Bool

abbrev pub is_completed : FundingStatus → Bool
is_completed completed = true
is_completed _ = false

-- `["PENDING", "INITIALIZING", "INITIALIZED", "UNKNOWN"].includes(status)`
abbrev pub is_open : FundingStatus → Bool
is_open funding_pending = true
is_open initializing = true
is_open initialized = true
is_open funding_unknown = true
is_open _ = false

abbrev pub with_fundings : Table WalletFunding → Db → Db
with_fundings t db = record db { fundings = t }

unfoldable pub update_funding_where :
    ℕ → (WalletFunding → Bool) → (WalletFunding → WalletFunding) → Action ℕ
update_funding_where i p f db = elim (find i db.fundings) [
  | none ↦ (ok 0, db)
  | some a ↦ if p a then (ok 1, with_fundings (put i (f a) db.fundings) db) else (ok 0, db)
]

unfoldable pub update_funding : ℕ → (WalletFunding → WalletFunding) → Action WalletFunding
update_funding i f db = elim (find i db.fundings) [
  | none ↦ (err p2025, db)
  | some a ↦ (ok (f a), with_fundings (put i (f a) db.fundings) db)
]

unfoldable pub matches_funding : ℕ → WalletFunding → Verification → Bool
matches_funding i a v =
    text_eq v.status (codes "success")
    && (text_eq v.reference a.reference
        && (eqb_ℤ v.amount a.amount
            && (text_eq (map upper v.currency) (map upper a.currency)
                && (same_text v.payment_domain (some (codes "WALLET_FUNDING"))
                    && (same_id v.funding_attempt_id (some i)
                        && (same_id v.organization_id (some a.organization_id)
                            && same_id v.wallet_account_id (some a.wallet_account_id)))))))

abbrev pub as_claimed : WalletFunding → WalletFunding
as_claimed a = record a { status = funding_processing }

abbrev paid_on : ℕ → Option ℕ → ℕ
paid_on now none = now
paid_on now (some at) = at

abbrev pub as_completed : Verification → ℕ → WalletFunding → WalletFunding
as_completed v now a = record a {
  status = completed;
  verified_at = some (paid_on now v.paid_at);
  provider_reference = some v.reference;
  failure_reason = none;
}

abbrev entry_of : Option (ℕ × WalletTransaction) → Option WalletTransaction
entry_of none = none
entry_of (some (_, row)) = some row

abbrev is_credit_of : ℕ → WalletFunding → WalletTransaction → Bool
is_credit_of i a row =
    row.wallet_account_id == a.wallet_account_id
    && (same_source row.source_type (some (other_source (codes "PAYSTACK_FUNDING")))
        && (same_id row.source_id (some i)
            && ledger_type_eq row.ledger_type (other_type (codes "WALLET_FUNDING"))))

-- The ledger entry of a completed funding.
abbrev pub credit_entry : ℕ → WalletFunding → Db → Option WalletTransaction
credit_entry i a db = entry_of (find_where (is_credit_of i a) db.ledger)

module _ (x : External) (i : ℕ) (v : Verification) (fresh : Fresh) (stamp : Stamp) where
  abbrev pub funding_credit : WalletFunding → ℤ → ℤ → WalletTransaction
  funding_credit a before after = record {
    organization_id = a.organization_id;
    wallet_account_id = a.wallet_account_id;
    ledger_type = other_type (codes "WALLET_FUNDING");
    direction = credit;
    amount = a.amount;
    balance_before = before;
    balance_after = after;
    reference = fresh.reference;
    transfer_reference = some a.reference;
    source_type = some (other_source (codes "PAYSTACK_FUNDING"));
    source_id = some i;
    reversed_transaction = none;
  }

  abbrev pub completion_audit : WalletFunding → AuditInput
  completion_audit a = record {
    organization_id = a.organization_id;
    actor_user_id = a.created_by_id;
    action = codes "ACCOUNTING_WALLET_FUNDING_COMPLETED";
    resource = codes "WALLET_FUNDING";
    resource_id = some (decimal i);
    summary = codes "Verified Paystack wallet funding " ++ a.reference;
    metadata = none;
  }

  unfoldable pub replay_completed : WalletFunding → Action FundingReport
  replay_completed a = do
    existing ← gets (credit_entry i a)
    pure (record { funding = a; entry = existing; idempotent_replay = true })

  unfoldable pub pay_in : WalletFunding → Wallet → Action FundingReport
  pay_in a wallet = do
    updated ← update_wallet a.wallet_account_id (increment a.amount)
    _ ← create_ledger fresh.ledger_id (funding_credit a wallet.balance updated.balance)
    finished ← update_funding i (as_completed v fresh.now)
    persist_audit_log x stamp (completion_audit finished)
    pure (record {
      funding = finished;
      entry = some (funding_credit a wallet.balance updated.balance);
      idempotent_replay = false;
    })

  unfoldable pub complete_funding : WalletFunding → Action FundingReport
  complete_funding a = do
    ensure (matches_funding i a v) funding_mismatch
    claimed ← update_funding_where i (λ b. is_open b.status) as_claimed
    ensure (claimed == 1) funding_in_progress
    wallet ← owned_wallet a.organization_id a.wallet_account_id
    assert_incident_wallet_mutation_allowed x a.organization_id a.wallet_account_id
    _ ← assert_financial_currency a.currency wallet.currency
    pay_in a wallet

  unfoldable pub finalize_body : Action FundingReport
  finalize_body = do
    a ← require (← gets (λ db. find i db.fundings)) missing
    if is_completed a.status then replay_completed a else complete_funding a

  unfoldable pub finalize_verified_paystack_funding : Action FundingReport
  finalize_verified_paystack_funding = transaction finalize_body

abbrev has_funding_reference : ℕ → Text → WalletFunding → Bool
has_funding_reference o reference a = text_eq a.reference reference && a.organization_id == o

-- The verification that a completed funding needs no provider for.
abbrev own_verification : WalletFunding → Verification
own_verification a = record {
  status = codes "success";
  reference = a.reference;
  amount = a.amount;
  currency = a.currency;
  paid_at = none;
  payment_domain = none;
  funding_attempt_id = none;
  organization_id = none;
  wallet_account_id = none;
}

-- The answer of `verifyPaystackTransaction`; none is its error.
module _ (x : External) (answer : Option Verification) (fresh : Fresh) (stamp : Stamp) where
  abbrev pub verify_found : Option (ℕ × WalletFunding) → Action FundingReport
  verify_found none = raise missing
  verify_found (some (i, a)) =
      if is_completed a.status
      then finalize_verified_paystack_funding x i (own_verification a) fresh stamp
      else verify_answered i answer
    where
      verify_answered : ℕ → Option Verification → Action FundingReport
      verify_answered i none = raise (provider_error none true)
      verify_answered i (some v) = finalize_verified_paystack_funding x i v fresh stamp

  unfoldable pub verify_paystack_wallet_funding : ℕ → Text → Action FundingReport
  verify_paystack_wallet_funding o reference = do
    attempt ← gets (λ db. find_where (has_funding_reference o reference) db.fundings)
    verify_found attempt
