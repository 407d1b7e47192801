-- ===== src/Settlement/Release.antt =====
-- `releaseSettlementReservation` of src/core/financial-settlement.ts.
use sinkronis_backend.Common.{
  ℕ, zero, suc, Bool, true, false, some, [], ◌∷◌, ◌&&◌, if◌then◌else◌, is_set,
}
use sinkronis_backend.Common.Text.{Text}
use sinkronis_backend.Database.{
  Action, External, Settlement, Status, failed, no_releasable_reservation, pure, ensure,
  transaction, update_settlement, ◌>>=◌, ◌>>◌,
}
use sinkronis_backend.Wallet.Calls.{release_wallet_reservation}
use sinkronis_backend.Integrity.Checks.{active_reservation}
use sinkronis_backend.Settlement.Inputs.{assert_incident_wallet_mutation_allowed, owned_settlement}

abbrev pub is_failed : Status → Bool
is_failed failed = true
is_failed _ = false

-- `text.slice(0, n)`
unfoldable pub slice : ℕ → Text → Text
slice zero s = []
slice (suc n) [] = []
slice (suc n) (c ∷ s) = c ∷ slice n s

abbrev pub as_failed : Text → ℕ → Settlement → Settlement
as_failed reason now s = record s {
  status = failed;
  failure_reason = some (slice 2000 reason);
  reservation_released_at = some now;
}

unfoldable pub release_body : External → ℕ → ℕ → Text → ℕ → Action Settlement
release_body x organization_id i reason now = do
  s ← owned_settlement organization_id i
  assert_incident_wallet_mutation_allowed x organization_id s.wallet_account_id
  if is_failed s.status && is_set s.reservation_released_at
      then pure s
      else (ensure (active_reservation s) no_releasable_reservation
          >> (release_wallet_reservation x organization_id s.wallet_account_id s.amount s.currency
              >> update_settlement i (as_failed reason now)))

unfoldable pub release_settlement_reservation : External → ℕ → ℕ → Text → ℕ → Action Settlement
release_settlement_reservation x organization_id i reason now =
    transaction (release_body x organization_id i reason now)
