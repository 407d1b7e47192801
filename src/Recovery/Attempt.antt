-- ===== src/Recovery/Attempt.antt =====
-- The leases on payment attempts of src/core/inbound-payment-recovery.ts. The two models, of
-- subscriptions and of wallet funding, differ in the statuses that can be recovered; each is a table of
-- its own.
use sinkronis_backend.Common.{
  ℕ, Bool, true, false, Option, none, some, ◌+◌, ◌-◌, ◌*◌, ◌^◌, min, ◌&&◌, not, is_set,
  if◌then◌else◌,
}
use sinkronis_backend.Common.Text.{Text, text_eq, codes}
use sinkronis_backend.Common.Table.{Table, find, put}
use sinkronis_backend.Settlement.Release.{slice}
use sinkronis_backend.Transfer.Lease.{has_expired, holds_token}

-- The statuses that the two claims name, and the others.
pub data AttemptStatus : Type 0 where
  pending initializing initialized unknown processing settled : AttemptStatus

pub record Attempt : Type 0 where
  pub provider : Text
  pub status : AttemptStatus
  pub dead_lettered_at : Option ℕ
  pub next_at : Option ℕ
  pub claim_token : Option ℕ
  pub claimed_at : Option ℕ
  pub lease_expires_at : Option ℕ
  pub attempts : ℕ
  pub last_error : Option Text

-- `Math.min(6 * 60 * 60_000, 60_000 * (2 ** Math.max(0, attempt - 1)))`
unfoldable pub inbound_recovery_delay_ms : ℕ → ℕ
inbound_recovery_delay_ms attempt = min 21600000 (60000 * 2 ^ (attempt - 1))

abbrev pub is_subscription_open : AttemptStatus → Bool
is_subscription_open initializing = true
is_subscription_open initialized = true
is_subscription_open unknown = true
is_subscription_open _ = false

abbrev pub is_funding_open : AttemptStatus → Bool
is_funding_open settled = false
is_funding_open _ = true

-- Neither guard of the claim refuses the row.
abbrev pub is_recoverable_at : (AttemptStatus → Bool) → ℕ → Attempt → Bool
is_recoverable_at is_open now a =
    text_eq a.provider (codes "PAYSTACK")
    && (is_open a.status
        && (not (is_set a.dead_lettered_at)
            && (has_expired a.next_at now && has_expired a.lease_expires_at now)))

abbrev pub as_recovering : ℕ → ℕ → ℕ → Attempt → Attempt
as_recovering lease_ms now token a = record a {
  claim_token = some token;
  claimed_at = some now;
  lease_expires_at = some (now + lease_ms);
  attempts = a.attempts + 1;
  last_error = none;
}

-- The row is locked, tested and written in one transaction; the result is the token and the end of
-- the lease, and the table.
abbrev pub claim_row :
    (AttemptStatus → Bool)
    → ℕ
    → ℕ
    → ℕ
    → ℕ
    → Option Attempt
    → Table Attempt
    → Option (ℕ × ℕ) × Table Attempt
claim_row is_open lease_ms i now token none t = (none, t)
claim_row is_open lease_ms i now token (some a) t =
    if is_recoverable_at is_open now a
    then (some (token, now + lease_ms), put i (as_recovering lease_ms now token a) t)
    else (none, t)

module _ (lease_ms i now token : ℕ) (t : Table Attempt) where
  unfoldable pub claim_subscription_payment_recovery : Option (ℕ × ℕ) × Table Attempt
  claim_subscription_payment_recovery =
      claim_row is_subscription_open lease_ms i now token (find i t) t

  unfoldable pub claim_wallet_funding_recovery : Option (ℕ × ℕ) × Table Attempt
  claim_wallet_funding_recovery = claim_row is_funding_open lease_ms i now token (find i t) t

abbrev cut_error : Option Text → Option Text
cut_error none = none
cut_error (some e) = some (slice 2000 e)

abbrev pub as_released : Option Text → Option ℕ → Option ℕ → Attempt → Attempt
as_released error next dead a = record a {
  claim_token = none;
  claimed_at = none;
  lease_expires_at = none;
  last_error = cut_error error;
  next_at = next;
  dead_lettered_at = dead;
}

-- The two releases are the same but for the model.
unfoldable pub release_recovery :
    ℕ → ℕ → Option Text → Option ℕ → Option ℕ → Table Attempt → Table Attempt
release_recovery i token error next dead t = elim (find i t) [
  | none ↦ t
  | some a ↦ if holds_token a.claim_token token then put i (as_released error next dead a) t else t
]
