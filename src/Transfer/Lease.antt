-- ===== src/Transfer/Lease.antt =====
-- The reconciliation lease: `claimProviderSettlementReconciliation` and
-- `releaseProviderSettlementReconciliation` of src/core/provider-settlement.ts.
use sinkronis_backend.Common.{
  ℕ, Bool, true, false, Option, none, some, ◌+◌, ◌==◌, ◌&&◌, leb, if◌then◌else◌,
}
use sinkronis_backend.Common.Text.{Text, text_eq, codes}
use sinkronis_backend.Settlement.Release.{slice}
use sinkronis_backend.Database.{
  Action, Settlement, Status, Method, manual, provider, provider_processing, unknown,
  update_settlement_where, pure, ◌>>=◌,
}

-- `recoverableStatuses`
abbrev pub is_recoverable : Status → Bool
is_recoverable provider_processing = true
is_recoverable unknown = true
is_recoverable _ = false

abbrev is_provider : Method → Bool
is_provider provider = true
is_provider manual = false

abbrev pub is_paystack : Option Text → Bool
is_paystack (some p) = text_eq p (codes "PAYSTACK")
is_paystack none = false

-- `null`, or not after `now`
abbrev pub has_expired : Option ℕ → ℕ → Bool
has_expired none now = true
has_expired (some t) now = leb t now

abbrev pub holds_token : Option ℕ → ℕ → Bool
holds_token (some t) token = t == token
holds_token none token = false

abbrev pub is_claimable : ℕ → Settlement → Bool
is_claimable now s =
    is_paystack s.provider_name
    && (is_provider s.method && (is_recoverable s.status && has_expired s.lease.expires_at now))

abbrev pub leased : ℕ → ℕ → ℕ → Settlement → Settlement
leased lease_ms now token s = record s {
  lease = record {
    claim_token = some token;
    claimed_at = some now;
    expires_at = some (now + lease_ms);
    attempts = s.lease.attempts + 1;
    last_error = none;
  };
}

-- `lease_ms` is `env.FINANCIAL_RECONCILIATION_LEASE_MS`; the result is the claim's token and its end.
unfoldable pub claim_provider_settlement_reconciliation : ℕ → ℕ → ℕ → ℕ → Action (Option (ℕ × ℕ))
claim_provider_settlement_reconciliation lease_ms i now token = do
  claimed ← update_settlement_where i (is_claimable now) (leased lease_ms now token)
  pure (if claimed == 1 then some (token, now + lease_ms) else none)

-- The text of the error, cut to its column.
abbrev cut : Option Text → Option Text
cut none = none
cut (some t) = some (slice 2000 t)

unfoldable pub release_provider_settlement_reconciliation : ℕ → ℕ → Option Text → Action ℕ
release_provider_settlement_reconciliation i token error =
    update_settlement_where i (λ s. holds_token s.lease.claim_token token)
      (λ s. record s {
        lease = record {
          claim_token = none;
          claimed_at = none;
          expires_at = none;
          attempts = s.lease.attempts;
          last_error = cut error;
        };
      })
