-- ===== src/Transfer/Reconcile.antt =====
-- `verifyAndReconcileProviderSettlement` of src/core/provider-settlement.ts.
use sinkronis_backend.Common.{
  ℕ, Bool, false, Option, none, some, ◌==◌, ◌&&◌, ◌||◌, not, leb, is_set, if◌then◌else◌,
}
use sinkronis_backend.Common.Text.{Text}
use sinkronis_backend.Common.Table.{find}
use sinkronis_backend.Database.{
  Action, Error, Result, ok, err, External, Settlement, unknown, provider_error, missing, conflict,
  already_reconciling, initiation_claimed, pure, raise, gets, require, ensure, update_settlement,
  update_settlement_where, ◌>>=◌, ◌>>◌,
}
use sinkronis_backend.Settlement.Inputs.{Fresh}
use sinkronis_backend.Transfer.Inputs.{TransferResult}
use sinkronis_backend.Transfer.Apply.{apply_provider_transfer_result}
use sinkronis_backend.Transfer.Lease.{
  is_paystack, holds_token, claim_provider_settlement_reconciliation,
}
use sinkronis_backend.Transfer.Provider.{
  Answers, throw_if, assert_tenant_provider_mode, finally, give_back,
}

-- The provider does not know the transfer.
abbrev pub is_not_found : Error → Bool
is_not_found (provider_error (some code) _) = code == 404
is_not_found _ = false

abbrev pub is_ambiguous : Error → Bool
is_ambiguous (provider_error _ ambiguous) = ambiguous
is_ambiguous _ = false

abbrev pub as_unknown : Text → ℕ → Settlement → Settlement
as_unknown reason now s = record s {
  status = unknown;
  failure_reason = some reason;
  last_verified_at = some now;
}

abbrev pub as_attempted : ℕ → Settlement → Settlement
as_attempted now s = record s { initiation_attempted_at = some now }

abbrev pub is_not_attempted : ℕ → Settlement → Bool
is_not_attempted token s =
    holds_token s.lease.claim_token token && not (is_set s.initiation_attempted_at)

abbrev pub is_held_until_after : ℕ → ℕ → Settlement → Bool
is_held_until_after token now s = holds_token s.lease.claim_token token && after s.lease.expires_at
  where
    after : Option ℕ → Bool
    after none = false
    after (some t) = not (leb t now)

-- No call for the transfer has been made, by the durable markers.
abbrev pub is_uninitiated : Settlement → Bool
is_uninitiated s = not (is_set s.initiation_attempted_at) && is_set s.recipient_reference

-- `applyProviderTransferResult` is returned without `await`: the lease may be given back before or
-- after it has run, which `released_first` says, and its errors do not come to the `catch` clause.
module _ (x : External) (answers : Answers) (i token : ℕ) (fresh : Fresh)
    (released_first : Bool) where
  unfoldable pub apply_verified : Settlement → TransferResult → Action Settlement
  apply_verified s result =
      if released_first
      then (give_back i token none >> apply_provider_transfer_result x i result fresh s)
      else finally (apply_provider_transfer_result x i result fresh s) (give_back i token none)

  unfoldable pub start_transfer : Settlement → Result TransferResult → Action Settlement
  start_transfer s (ok result) = apply_provider_transfer_result x i result fresh s
  start_transfer s (err e) = raise e

  -- The one call of the provider that starts the transfer of a settlement found without one.
  unfoldable pub initiate_missing : Settlement → Action Settlement
  initiate_missing s = do
    throw_if answers.blocked
    claimed ← update_settlement_where i (is_not_attempted token) (as_attempted fresh.now)
    ensure (claimed == 1) initiation_claimed
    start_transfer s answers.initiate

  unfoldable pub after_verify_error : Settlement → Error → Action Settlement
  after_verify_error s e =
      if is_not_found e && is_uninitiated s
      then finally (initiate_missing s) (give_back i token none)
      else if is_ambiguous e || is_not_found e
      then finally (update_settlement i (as_unknown (answers.message e) fresh.now))
          (give_back i token none)
      else finally (raise e) (give_back i token (some (answers.message e)))

  unfoldable pub reconcile_answer : Settlement → Result TransferResult → Action Settlement
  reconcile_answer s (ok result) = apply_verified s result
  reconcile_answer s (err e) = after_verify_error s e

  unfoldable pub reconcile_claimed : Option (ℕ × ℕ) → Action Settlement
  reconcile_claimed none = raise (conflict already_reconciling)
  reconcile_claimed (some _) = do
    s ← require (← gets (λ db. find i db.settlements)) missing
    if not (
          is_held_until_after token fresh.now s
          && (is_paystack s.provider_name && is_set s.transfer_reference))
        then raise missing
        else (assert_tenant_provider_mode answers s.organization_id
            >> reconcile_answer s answers.verify)

  -- With a token that the caller supplies the settlement is claimed already; otherwise it is claimed
  -- here, under `token`.
  unfoldable pub verify_and_reconcile_provider_settlement : ℕ → Bool → Action Settlement
  verify_and_reconcile_provider_settlement lease_ms supplied = do
    lease ←
        if supplied
        then pure (some (token, fresh.now))
        else claim_provider_settlement_reconciliation lease_ms i fresh.now token
    reconcile_claimed lease
