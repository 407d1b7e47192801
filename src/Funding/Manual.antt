-- ===== src/Funding/Manual.antt =====
-- `fundWalletManually`: a credit of a wallet, once for each external reference. The source id of the
-- entry, which is its transfer reference again, is left out.
use sinkronis_backend.Common.{ℕ, Bool, true, false, Option, none, some, ◌==◌, ◌&&◌, if◌then◌else◌}
use sinkronis_backend.Common.Int.{ℤ, pos, ◌+ℤ◌}
use sinkronis_backend.Common.Amount.{Amount, equals}
use sinkronis_backend.Common.Text.{Text, codes}
use sinkronis_backend.Common.Decimal.{decimal}
use sinkronis_backend.Common.Json.{Json, string, object, field, no_fields}
use sinkronis_backend.Common.Table.{find_where}
use sinkronis_backend.Database.{
  External, Action, Error, Wallet, WalletTransaction, Direction, credit, other_type, ledger_type_eq,
  other_source, conflict, p2002, funding_reference_used, pure, raise, gets, catch, transaction,
  update_wallet, create_ledger, same_text, ◌>>=◌, ◌>>◌,
}
use sinkronis_backend.Audit.{AuditInput, Stamp, persist_audit_log}
use sinkronis_backend.Wallet.Calls.{owned_wallet}
use sinkronis_backend.Settlement.Inputs.{Fresh, assert_incident_wallet_mutation_allowed}

-- `ManualWalletFundingInput`, with who calls, and the amount as it stands in the request
pub record FundingInput : Type 0 where
  pub organization_id : ℕ
  pub wallet_account_id : ℕ
  pub amount : Amount
  pub external_reference : Text
  pub raw_amount : Json
  pub user_id : ℕ
  pub stamp : Stamp

-- What a funding returns: the ledger entry, and whether it was there before.
pub record Funded : Type 0 where
  pub entry : WalletTransaction
  pub idempotent_replay : Bool

abbrev is_credit : Direction → Bool
is_credit credit = true
is_credit _ = false

abbrev pub increment : ℤ → Wallet → Wallet
increment amount w = record w { balance = w.balance +ℤ amount }

module _ (x : External) (input : FundingInput) (fresh : Fresh) where
  open input use {organization_id, wallet_account_id, amount, external_reference}

  -- What the columns keep of the amount. The balance, which is not negative, gains the same.
  abbrev pub kept : ℤ
  kept = pos (x.column amount)

  abbrev pub has_external_reference : WalletTransaction → Bool
  has_external_reference row =
      row.organization_id == organization_id
      && same_text row.transfer_reference (some external_reference)

  abbrev pub is_same_funding : WalletTransaction → Bool
  is_same_funding row =
      row.wallet_account_id == wallet_account_id
      && (equals amount row.amount
          && (ledger_type_eq row.ledger_type (other_type (codes "MANUAL_FUNDING"))
              && is_credit row.direction))

  abbrev pub manual_credit : ℤ → ℤ → WalletTransaction
  manual_credit before after = record {
    organization_id = organization_id;
    wallet_account_id = wallet_account_id;
    ledger_type = other_type (codes "MANUAL_FUNDING");
    direction = credit;
    amount = kept;
    balance_before = before;
    balance_after = after;
    reference = fresh.reference;
    transfer_reference = some external_reference;
    source_type = some (other_source (codes "MANUAL_FUNDING"));
    source_id = none;
    reversed_transaction = none;
  }

  abbrev pub funding_audit : AuditInput
  funding_audit = record {
    organization_id = organization_id;
    actor_user_id = some input.user_id;
    action = codes "ACCOUNTING_WALLET_FUNDED";
    resource = codes "WALLET_TRANSACTION";
    resource_id = some (decimal fresh.ledger_id);
    summary = codes "Manually funded Accounting wallet";
    metadata = some (
        object (
          field (codes "amount") input.raw_amount
            (field (codes "reference") (string fresh.reference) no_fields)));
  }

  -- The same funding again, or a conflict.
  unfoldable pub replay_funding : WalletTransaction → Action Funded
  replay_funding existing =
      if is_same_funding existing
      then pure (record { entry = existing; idempotent_replay = true })
      else raise (conflict funding_reference_used)

  unfoldable pub credit_wallet : Wallet → Action Funded
  credit_wallet wallet = do
    updated ← update_wallet wallet_account_id (increment kept)
    _ ← create_ledger fresh.ledger_id (manual_credit wallet.balance updated.balance)
    persist_audit_log x input.stamp funding_audit
    pure
        (record { entry = manual_credit wallet.balance updated.balance; idempotent_replay = false })

  unfoldable pub fund_or_replay : Wallet → Option (ℕ × WalletTransaction) → Action Funded
  fund_or_replay wallet none = credit_wallet wallet
  fund_or_replay wallet (some (_, existing)) = replay_funding existing

  unfoldable pub fund_in_transaction : Action Funded
  fund_in_transaction = do
    wallet ← owned_wallet organization_id wallet_account_id
    assert_incident_wallet_mutation_allowed x organization_id wallet_account_id
    existing ← gets (λ db. find_where has_external_reference db.ledger)
    fund_or_replay wallet existing

  unfoldable pub replay_or_refuse : Option (ℕ × WalletTransaction) → Action Funded
  replay_or_refuse none = raise (conflict funding_reference_used)
  replay_or_refuse (some (_, existing)) = replay_funding existing

  -- Another call has used the reference in the meantime.
  unfoldable pub after_funding_error : Error → Action Funded
  after_funding_error p2002 = do
    existing ← gets (λ db. find_where has_external_reference db.ledger)
    replay_or_refuse existing
  after_funding_error e = raise e

  unfoldable pub fund_wallet_manually : Action Funded
  fund_wallet_manually = catch (transaction fund_in_transaction) after_funding_error
