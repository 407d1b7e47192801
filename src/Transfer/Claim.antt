-- ===== src/Transfer/Claim.antt =====
-- `reserveAndClaimProviderSettlement` of src/core/provider-settlement.ts.
use sinkronis_backend.Common.{
  ℕ, Bool, true, false, some, ◌==◌, ◌&&◌, ◌||◌, not, if◌then◌else◌, is_set,
}
use sinkronis_backend.Database.{
  Action, External, Settlement, Status, reserved, provider_processing, pure, transaction,
  update_settlement_where, settlement_or_throw, ◌>>=◌, ◌>>◌,
}
use sinkronis_backend.Wallet.Calls.{reserve_wallet_balance}
use sinkronis_backend.Settlement.Inputs.{assert_incident_wallet_mutation_allowed, owned_settlement}
use sinkronis_backend.Settlement.Manual.{is_succeeded, is_prepared}
use sinkronis_backend.Settlement.Release.{is_failed}
use sinkronis_backend.Settlement.Reverse.{is_reversed}

abbrev pub is_terminal : Status → Bool
is_terminal s = is_succeeded s || (is_reversed s || is_failed s)

abbrev pub is_reserved : Status → Bool
is_reserved reserved = true
is_reserved _ = false

abbrev pub as_reserved : ℕ → Settlement → Settlement
as_reserved now s = record s {
  status = reserved;
  reserved_at = some now;
  transfer_reference = some s.internal_reference;
}

abbrev pub as_processing : ℕ → Settlement → Settlement
as_processing now s = record s {
  status = provider_processing;
  initiation_claimed_at = some now;
  provider_processing_at = some now;
  transfer_reference = some s.internal_reference;
}

-- What comes back: the settlement, and `shouldInitiate`.
pub record Claimed : Type 0 where
  pub settlement : Settlement
  pub should_initiate : Bool

abbrev pub unclaimed : Settlement → Claimed
unclaimed s = record { settlement = s; should_initiate = false }

module _ (x : External) (organization_id i now : ℕ) where
  -- The second half: claim the initiation of a reserved settlement, once.
  unfoldable pub claim_initiation : Settlement → Action Claimed
  claim_initiation s =
      if not (is_reserved s.status) || is_set s.initiation_claimed_at
      then pure (unclaimed s)
      else (update_settlement_where i
            (λ r.
              r.organization_id == organization_id
              && (is_reserved r.status && not (is_set r.initiation_claimed_at)))
            (as_processing now)
          >>= λ claimed. settlement_or_throw i >>= λ after.
              pure (record { settlement = after; should_initiate = claimed == 1 }))

  -- The first half: reserve the wallet for a prepared settlement, once.
  unfoldable pub reserve_prepared : Settlement → Action Claimed
  reserve_prepared s = do
    prepared_claim ←
        update_settlement_where i
          (λ r. r.organization_id == organization_id && is_prepared r.status) (as_reserved now)
    if not (prepared_claim == 1)
        then pure (unclaimed s)
        else (reserve_wallet_balance x organization_id s.wallet_account_id s.amount s.currency
            >> (settlement_or_throw i >>= claim_initiation))

  unfoldable pub claim_body : Action Claimed
  claim_body = do
    s ← owned_settlement organization_id i
    assert_incident_wallet_mutation_allowed x organization_id s.wallet_account_id
    if is_terminal s.status
        then pure (unclaimed s)
        else (if is_prepared s.status then reserve_prepared s else claim_initiation s)

  unfoldable pub reserve_and_claim_provider_settlement : Action Claimed
  reserve_and_claim_provider_settlement = transaction claim_body
