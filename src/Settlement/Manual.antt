-- ===== src/Settlement/Manual.antt =====
-- `completeManualSettlement` and `prepareProviderSettlement` of src/core/financial-settlement.ts.
use sinkronis_backend.Common.{ℕ, Bool, true, false, Option, none, some, ◌&&◌, not, if◌then◌else◌}
use sinkronis_backend.Common.Text.{Text, text_eq, codes}
use sinkronis_backend.Common.Table.{find_where}
use sinkronis_backend.Database.{
  Action, External, Settlement, WalletTransaction, Method, Status, manual, provider, prepared,
  reserved, succeeded, debit, manual_of, already_settled, settlement_identity_used, p2002, p2025,
  Error, pure, raise, gets, transaction, catch, create_settlement, update_settlement, create_ledger,
  ◌>>=◌, ◌>>◌, ensure, require,
}
use sinkronis_backend.Wallet.Calls.{
  Debit, assert_financial_currency, reserve_wallet_balance, consume_wallet_reservation,
  owned_wallet,
}
use sinkronis_backend.Settlement.Inputs.{
  Source, ManualInput, Fresh, is_source, assert_incident_wallet_mutation_allowed, p2002_as,
  no_lease,
}

abbrev pub is_manual : Method → Bool
is_manual manual = true
is_manual provider = false

abbrev pub is_succeeded : Status → Bool
is_succeeded succeeded = true
is_succeeded _ = false

abbrev pub is_prepared : Status → Bool
is_prepared prepared = true
is_prepared _ = false

abbrev pub same_reference : Option Text → Text → Bool
same_reference (some s) t = text_eq s t
same_reference none t = false

abbrev pub is_replay : ManualInput → Settlement → Bool
is_replay input s =
    is_manual s.method
    && (same_reference s.external_reference input.external_reference && is_succeeded s.status)

-- `manualData`, over the row that it updates
abbrev pub as_manual : ManualInput → Fresh → Settlement → Settlement
as_manual input fresh s = record s {
  method = manual;
  status = reserved;
  idempotency_key = input.idempotency_key;
  external_reference = some input.external_reference;
  reserved_at = some fresh.now;
  provider_name = none;
  recipient_reference = none;
  transfer_reference = none;
}

-- A row with the columns that every `create` of this file gives.
abbrev pub new_settlement : Source → Text → Text → Method → Status → Text → Settlement
new_settlement source currency key method status reference = record {
  organization_id = source.organization_id;
  wallet_account_id = source.wallet_account_id;
  source_type = source.source_type;
  source_id = source.source_id;
  method = method;
  status = status;
  amount = source.amount;
  currency = currency;
  internal_reference = reference;
  idempotency_key = key;
  provider_name = none;
  recipient_reference = none;
  transfer_reference = none;
  transfer_code = none;
  provider_status = none;
  initiation_claimed_at = none;
  initiation_attempted_at = none;
  last_verified_at = none;
  external_reference = none;
  failure_reason = none;
  reserved_at = none;
  reservation_released_at = none;
  provider_processing_at = none;
  settled_at = none;
  reversed_at = none;
  reversal_reference = none;
  reversal_ledger_id = none;
  lease = no_lease;
}

abbrev pub as_completed : ManualInput → Fresh → Settlement → Settlement
as_completed input fresh s = record s {
  status = succeeded;
  reservation_released_at = some fresh.now;
  settled_at = some input.settled_at;
}

-- What comes back: the settlement, what `finalize` returned, and `idempotentReplay`.
pub record Completed (T : Type 0) : Type 0 where
  pub settlement : Settlement
  pub result : Option T
  pub idempotent_replay : Bool

abbrev pub manual_debit : Source → ManualInput → Debit → Settlement → WalletTransaction
manual_debit source input d s = record {
  organization_id = source.organization_id;
  wallet_account_id = source.wallet_account_id;
  ledger_type = manual_of source.source_type;
  direction = debit;
  amount = source.amount;
  balance_before = d.balance_before;
  balance_after = d.balance_after;
  reference = s.internal_reference;
  transfer_reference = some input.external_reference;
  source_type = some source.source_type;
  source_id = some source.source_id;
  reversed_transaction = none;
}

module _ (source : Source) (input : ManualInput) (fresh : Fresh) where
  abbrev pub manual_row : Text → Settlement
  manual_row currency =
      as_manual input fresh
        (new_settlement source currency input.idempotency_key manual reserved fresh.reference)

  -- `existing ? update : create`
  abbrev pub write_manual : Option (ℕ × Settlement) → Text → Action (ℕ × Settlement)
  write_manual (some (i, s)) currency = do
    row ← update_settlement i (as_manual input fresh)
    pure (i, row)
  write_manual none currency = do
    row ← create_settlement fresh.settlement_id (manual_row currency)
    pure (fresh.settlement_id, row)

module _ (x : External) {T : Type 0} (source : Source) (input : ManualInput) (fresh : Fresh) where
  -- From the debit to the end of the transaction, for the settlement `i`.
  unfoldable pub finish_manually :
      (Settlement → ℕ → Action T) → Text → ℕ × Settlement → Action (Completed T)
  finish_manually finalize currency (i, settlement) = do
    d ←
        consume_wallet_reservation x source.organization_id source.wallet_account_id source.amount
          currency
    ledger ← create_ledger fresh.ledger_id (manual_debit source input d settlement)
    completed ← update_settlement i (as_completed input fresh)
    result ← finalize completed ledger
    pure (record { settlement = completed; result = some result; idempotent_replay = false })

  unfoldable pub settle_manually :
      (Settlement → ℕ → Action T) → Option (ℕ × Settlement) → Action (Completed T)
  settle_manually finalize existing = do
    currency ← assert_financial_currency source.currency source.currency
    reserve_wallet_balance x source.organization_id source.wallet_account_id source.amount currency
    written ← write_manual source input fresh existing currency
    finish_manually finalize currency written

  -- What the transaction does with the settlement that it found, if any.
  unfoldable pub manual_existing :
      (Settlement → ℕ → Action T) → Option (ℕ × Settlement) → Action (Completed T)
  manual_existing finalize none = settle_manually finalize none
  manual_existing finalize (some (i, s)) =
      if is_replay input s
      then pure (record { settlement = s; result = none; idempotent_replay = true })
      else (ensure (not (is_manual s.method) && is_prepared s.status) already_settled
          >> (assert_financial_currency source.currency s.currency
              >> settle_manually finalize (some (i, s))))

  unfoldable pub manual_body : (Settlement → ℕ → Action T) → Action (Completed T)
  manual_body finalize db =
      manual_existing finalize (find_where (is_source source) db.settlements) db

  unfoldable pub complete_manual_settlement : (Settlement → ℕ → Action T) → Action (Completed T)
  complete_manual_settlement finalize =
      assert_incident_wallet_mutation_allowed x source.organization_id source.wallet_account_id
      >> catch (transaction (manual_body finalize)) (p2002_as settlement_identity_used)

-- `prepareProviderSettlement`: find it, or create it; a lost race for the unique source finds it too.
module _ (source : Source) (idempotency_key : Text) (fresh : Fresh) where
  abbrev provider_row : Text → Settlement
  provider_row currency =
      let row = new_settlement source currency idempotency_key provider prepared fresh.reference in
      record row { provider_name = some (codes "PAYSTACK") }

  unfoldable pub prepare_body : Action (ℕ × Settlement)
  prepare_body = do
    existing ← gets (λ db. find_where (is_source source) db.settlements)
    elim existing [
      | some found ↦ pure found
      | none ↦ do
        wallet ← owned_wallet source.organization_id source.wallet_account_id
        currency ← assert_financial_currency source.currency wallet.currency
        row ← create_settlement fresh.settlement_id (provider_row currency)
        pure (fresh.settlement_id, row)
    ]

  abbrev find_after_race : Error → Action (ℕ × Settlement)
  find_after_race p2002 = do
    require (← gets (λ db. find_where (is_source source) db.settlements)) p2025
  find_after_race e = raise e

  unfoldable pub prepare_provider_settlement : Action (ℕ × Settlement)
  unfolding prepare_body
  prepare_provider_settlement = catch prepare_body find_after_race
