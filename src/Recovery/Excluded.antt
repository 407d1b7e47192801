-- ===== src/Recovery/Excluded.antt =====
-- The lease on a payment attempt excludes a second worker, and a dead letter stays one.
use sinkronis_backend.Common.{ℕ, true, false, ◌≡◌, refl, Option, none, some, ◌+◌, ◌<◌, arith}
use sinkronis_backend.Common.Text.{Text}
use sinkronis_backend.Common.Table.{Table, find, put, find-put_self}
use sinkronis_backend.Transfer.Lease.{holds_token}
use sinkronis_backend.Recovery.Attempt.{
  Attempt, is_recoverable_at, as_recovering, as_released, claim_wallet_funding_recovery,
  release_recovery, is_funding_open,
}

busy_row :
    (lease_ms now later token : ℕ) (a : Attempt)
    → later < now + lease_ms
    → is_recoverable_at is_funding_open later (as_recovering lease_ms now token a) ≡ false
busy_row lease_ms now later token a before = ground arith

release-eq :
    (i token dead : ℕ) (error : Option Text) (a : Attempt) (t : Table Attempt)
    → find i t ≡ some a
    → a.claim_token ≡ some token
    → release_recovery i token error none (some dead) t
      ≡ put i (as_released error none (some dead) a) t
unfolding release_recovery
release-eq i token dead error a t found mine =
    let same : holds_token a.claim_token token ≡ true = rw mine (ground arith) in ground arith

dead_row :
    (later dead : ℕ) (error : Option Text) (a : Attempt)
    → is_recoverable_at is_funding_open later (as_released error none (some dead) a) ≡ false
dead_row later dead error a = ground arith

-- A claim of a wallet funding attempt that succeeds shuts out every other claim of it until its lease
-- ends: the other finds nothing to claim and writes nothing. Once the worker has released the attempt
-- as a dead letter, no claim at any time succeeds.
pub funding_claim-excludes :
    (lease_ms i now token later other dead : ℕ) (error : Option Text) (a : Attempt)
    (t : Table Attempt)
    → find i t ≡ some a
    → is_recoverable_at is_funding_open now a ≡ true
    → let t' : Table Attempt = put i (as_recovering lease_ms now token a) t in
      (claim_wallet_funding_recovery lease_ms i now token t ≡ (some (token, now + lease_ms), t'))
      × (later < now + lease_ms
          → claim_wallet_funding_recovery lease_ms i later other t' ≡ (none, t'))
      × (claim_wallet_funding_recovery lease_ms i later other
            (release_recovery i token error none (some dead) t')
          ≡ (none, release_recovery i token error none (some dead) t'))
unfolding claim_wallet_funding_recovery
funding_claim-excludes lease_ms i now token later other dead error a t found due =
    let held = find-put_self i (as_recovering lease_ms now token a) t in
    (
      rw (found, due) refl,
      λ before. rw (held, busy_row lease_ms now later token a before) refl,
      let row = as_recovering lease_ms now token a in
          rw
            (
              release-eq i token dead error row (put i row t) held refl,
              find-put_self i (as_released error none (some dead) row) (put i row t),
              dead_row later dead error row,
            )
            refl,
    )
