-- ===== src/Settlement/Reverse.antt =====
-- `reverseSucceededSettlement` of src/core/financial-settlement.ts, without its test hook.
use sinkronis_backend.Common.{ℕ, Bool, true, false, Option, none, some, ◌==◌, ◌&&◌, if◌then◌else◌}
use sinkronis_backend.Common.Int.{◌+ℤ◌}
use sinkronis_backend.Common.Text.{Text}
use sinkronis_backend.Common.Table.{find, find_where}
use sinkronis_backend.Database.{
  Action, Error, External, Wallet, Settlement, Status, WalletTransaction, Direction, SourceType,
  source_eq, reversed, debit, credit, reversal_of, conflict, p2002, not_successful,
  debit_entry_missing, reversal_identity_used, pure, raise, gets, require, ensure, transaction,
  catch, update_settlement, update_wallet, create_ledger, ◌>>=◌, ◌>>◌,
}
use sinkronis_backend.Wallet.Calls.{financial_wallet}
use sinkronis_backend.Settlement.Inputs.{
  Fresh, assert_incident_wallet_mutation_allowed, owned_settlement,
}
use sinkronis_backend.Settlement.Manual.{is_succeeded, same_reference}

abbrev pub is_reversed : Status → Bool
is_reversed reversed = true
is_reversed _ = false

abbrev is_debit : Direction → Bool
is_debit debit = true
is_debit _ = false

abbrev is_from : Option SourceType → Option ℕ → Settlement → Bool
is_from (some t) (some i) s = source_eq t s.source_type && i == s.source_id
is_from _ _ s = false

-- The debit that the settlement made.
abbrev pub is_debit_of : ℕ → Settlement → WalletTransaction → Bool
is_debit_of organization_id s r =
    r.organization_id == organization_id
    && (r.wallet_account_id == s.wallet_account_id
        && (is_from r.source_type r.source_id s && is_debit r.direction))

abbrev pub restore_by : Settlement → Wallet → Wallet
restore_by s w = record w { balance = w.balance +ℤ s.amount }

abbrev pub reversal_credit : ℕ → Settlement → Text → ℕ → Wallet → Wallet → WalletTransaction
reversal_credit organization_id s reference original before after = record {
  organization_id = organization_id;
  wallet_account_id = s.wallet_account_id;
  ledger_type = reversal_of s.source_type;
  direction = credit;
  amount = s.amount;
  balance_before = before.balance;
  balance_after = after.balance;
  reference = reference;
  transfer_reference = some reference;
  source_type = some s.source_type;
  source_id = some s.source_id;
  reversed_transaction = some original;
}

abbrev pub as_reversed : Text → ℕ → ℕ → Settlement → Settlement
as_reversed reference now ledger s = record s {
  status = reversed;
  reversed_at = some now;
  reversal_reference = some reference;
  reversal_ledger_id = some ledger;
}

module _ (x : External) (organization_id i : ℕ) (reference : Text) (fresh : Fresh) where
  unfoldable pub restore_wallet : Settlement → Action Settlement
  restore_wallet s = do
    (original, _) ←
        require (← gets (λ db. find_where (is_debit_of organization_id s) db.ledger))
          (conflict debit_entry_missing)
    wallet ← financial_wallet organization_id s.wallet_account_id s.currency
    restored ← update_wallet s.wallet_account_id (restore_by s)
    ledger ←
        create_ledger fresh.ledger_id
          (reversal_credit organization_id s reference original wallet restored)
    update_settlement i (as_reversed reference fresh.now ledger)

  unfoldable pub reverse_body : Action Settlement
  reverse_body = do
    s ← owned_settlement organization_id i
    assert_incident_wallet_mutation_allowed x organization_id s.wallet_account_id
    if is_reversed s.status && same_reference s.reversal_reference reference
        then pure s
        else (ensure (is_succeeded s.status) not_successful >> restore_wallet s)

  abbrev pub is_same_reversal : Settlement → Bool
  is_same_reversal s =
      s.organization_id == organization_id
      && (is_reversed s.status && same_reference s.reversal_reference reference)

  abbrev pub existing_reversal : Option Settlement → Action Settlement
  existing_reversal none = raise (conflict reversal_identity_used)
  existing_reversal (some s) =
      if is_same_reversal s then pure s else raise (conflict reversal_identity_used)

  -- After a unique constraint has been hit: the reversal that is there, if it is this one.
  abbrev pub after_conflict : Error → Action Settlement
  after_conflict p2002 = λ db. existing_reversal (find i db.settlements) db
  after_conflict e = raise e

  unfoldable pub reverse_succeeded_settlement : Action Settlement
  reverse_succeeded_settlement = catch (transaction reverse_body) after_conflict
