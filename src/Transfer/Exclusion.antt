-- ===== src/Transfer/Exclusion.antt =====
-- The reconciliation lease excludes a second worker until it ends.
use sinkronis_backend.Common.{
  ℕ, ◌≢◌, false, ◌≡◌, refl, Option, none, some, ◌+◌, ◌<◌, arith, inl, inr,
}
use sinkronis_backend.Common.Text.{Text}
use sinkronis_backend.Common.Table.{find, put, find-put_self}
use sinkronis_backend.Database.{
  Db, Settlement, Returns, returns, bind-Returns, weaken, ok, update_settlement_where,
  update_settlement_where-Returns, resume,
}
use sinkronis_backend.Transfer.Lease.{
  leased, has_expired, holds_token, claim_provider_settlement_reconciliation,
  release_provider_settlement_reconciliation,
}
use sinkronis_backend.Transfer.Once.{outcome}

-- The settlement `i` is leased to `token`, and the lease ends at `t`.
abbrev pub LeasedUntil : ℕ → ℕ → ℕ → Db → Type 0
LeasedUntil i token t db =
    (s : Settlement) × (find i db.settlements ≡ some s)
    × (s.lease.claim_token ≡ some token)
    × (s.lease.expires_at ≡ some t)

claimed_end :
    (lease_ms i now token : ℕ) (s : Settlement) (db : Db) (t u : ℕ)
    → ◌≡◌ {A = Option (ℕ × ℕ)} (some (token, now + lease_ms)) (some (t, u))
    → (u ≡ now + lease_ms)
      × LeasedUntil i token u
          (record db { settlements = put i (leased lease_ms now token s) db.settlements })
claimed_end lease_ms i now token s db t u e =
    let ends : u ≡ now + lease_ms = cc in
    rw ends (refl, (leased lease_ms now token s, find-put_self _ _ _, refl, refl))

claim-LeasedUntil :
    (lease_ms i now token : ℕ) (db : Db)
    → Returns
        (λ _. Unit {0})
        (λ c db'.
          (t : ℕ) (u : ℕ) → c ≡ some (t, u) → (u ≡ now + lease_ms) × LeasedUntil i token u db')
        (claim_provider_settlement_reconciliation lease_ms i now token db)
unfolding claim_provider_settlement_reconciliation
claim-LeasedUntil lease_ms i now token db =
    bind-Returns
      (weaken (update_settlement_where-Returns i _ (leased lease_ms now token) db) (λ _ _ q. q)
        (λ _ _. tt))
      λ n db' q. elim q [
        | inl (zero_rows, w) ↦ rw zero_rows (returns (λ t u e. cc))
        | inr (s, one_row, _, (_, w)) ↦
            rw (one_row, w) (returns (claimed_end lease_ms i now token s db))
      ]

claim-excluded :
    (lease_ms i later token holder t : ℕ) (db : Db)
    → LeasedUntil i holder t db
    → later < t
    → claim_provider_settlement_reconciliation lease_ms i later token db ≡ (ok none, db)
unfolding claim_provider_settlement_reconciliation update_settlement_where resume
claim-excluded lease_ms i later token holder t db (s, found, _, ends) before =
    let busy : has_expired s.lease.expires_at later ≡ false = rw ends (ground arith) in ground arith

-- While a worker holds the reconciliation lease of a settlement, no other claim succeeds: it reports
-- that there is nothing to claim, and writes nothing. The lease ends `lease_ms` after the claim.
pub lease-excludes :
    (lease_ms i now token later other t u : ℕ) (db db' : Db)
    → claim_provider_settlement_reconciliation lease_ms i now token db ≡ (ok (some (t, u)), db')
    → later < now + lease_ms
    → claim_provider_settlement_reconciliation lease_ms i later other db' ≡ (ok none, db')
lease-excludes lease_ms i now token later other t u db db' e before =
    let (ends, held) =
      outcome (some (t, u)) db' (claim-LeasedUntil lease_ms i now token db) e t u refl in
    claim-excluded lease_ms i later other token u db' held (rw ends before)

release-foreign :
    (i holder other t : ℕ) (error : Option Text) (db : Db)
    → LeasedUntil i holder t db
    → holder ≢ other
    → release_provider_settlement_reconciliation i other error db ≡ (ok 0, db)
unfolding release_provider_settlement_reconciliation update_settlement_where
release-foreign i holder other t error db (s, found, held, _) apart =
    let foreign : holds_token s.lease.claim_token other ≡ false = rw held (ground arith) in
    ground arith

-- Once a worker has claimed a settlement, a release by a worker with another token, as after a lease
-- that ran out, changes nothing: it writes nothing, and up to the end of the new lease a claim by
-- whomever is still refused and writes nothing.
pub lease-survives :
    (lease_ms i now token other later third t u : ℕ) (error : Option Text) (db db' : Db)
    → claim_provider_settlement_reconciliation lease_ms i now token db ≡ (ok (some (t, u)), db')
    → token ≢ other
    → later < now + lease_ms
    → let after = release_provider_settlement_reconciliation i other error db' in
      (after ≡ (ok 0, db'))
      × (claim_provider_settlement_reconciliation lease_ms i later third after.1 ≡ (ok none, db'))
lease-survives lease_ms i now token other later third t u error db db' e apart before =
    let (_, held) =
      outcome (some (t, u)) db' (claim-LeasedUntil lease_ms i now token db) e t u refl in
    let unchanged = release-foreign i token other u error db' held apart in
    (unchanged, rw unchanged (lease-excludes lease_ms i now token later third t u db db' e before))
