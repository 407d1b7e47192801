-- ===== src/Transfer/Claims.antt =====
-- Claiming a settlement for the provider keeps wallets, settlements and ledger in agreement, and at
-- most one caller is told to initiate.
use sinkronis_backend.Common.{
  ℕ, true, ◌≡◌, refl, none, some, ◌||◌, not, arith, is_set, inl, inr, &&-true,
}
use sinkronis_backend.Common.Int.{pos, ◌+ℤ◌, ◌-ℤ◌, int_laws}
use sinkronis_backend.Common.Table.{find}
use sinkronis_backend.Database.{
  Db, Settlement, External, Returns, returns, bind-Returns, bind-Same, weaken, branch-Returns,
  transaction-Returns, require-Same, update_settlement_where-Returns, settlement_or_throw, p2025,
  after_call,
}
use sinkronis_backend.Wallet.Balance.{reserve_wallet_balance-Returns}
use sinkronis_backend.Integrity.Checks.{held}
use sinkronis_backend.Integrity.Sums.{IsSound, at, settlement-IsSoundBy, settle-IsSoundBy}
use sinkronis_backend.Integrity.Wallets.{reserve-IsSoundBy}
use sinkronis_backend.Settlement.Manual.{is_prepared}
use sinkronis_backend.Settlement.Reads.{assert_incident-Returns, owned_settlement-Returns}
use sinkronis_backend.Transfer.Claim.{
  is_terminal, is_reserved, as_reserved, as_processing, claim_initiation, reserve_prepared,
  claim_body, reserve_and_claim_provider_settlement,
}

-- Handing a reserved settlement to the provider moves no money.
held_processing :
    (j : ℕ) (s : Settlement) (now : ℕ)
    → is_reserved s.status ≡ true
    → pos 0 +ℤ held j s -ℤ held j (as_processing now s) ≡ pos 0
held_processing j s now h =
    let same : held j (as_processing now s) ≡ held j s = ground arith in rw same (omega int_laws)

held_reserved :
    (j : ℕ) (s : Settlement) (now : ℕ)
    → is_prepared s.status ≡ true
    → s.reservation_released_at ≡ none
    → pos 0 +ℤ held j s -ℤ held j (as_reserved now s) +ℤ at s.wallet_account_id s.amount j ≡ pos 0
held_reserved j s now h released =
    let before : held j s ≡ pos 0 = ground arith in
    let after : held j (as_reserved now s) ≡ at s.wallet_account_id s.amount j = ground arith in
    rw (before, after) (omega int_laws)

nothing_reserved : (k j : ℕ) → pos 0 +ℤ at k (pos 0) j ≡ pos 0
nothing_reserved k j = grind int_laws

pub settlement_or_throw-Returns :
    (i : ℕ) (db : Db)
    → Returns
        (λ _. Unit {0})
        (λ s db'. (find i db.settlements ≡ some s) × (db' ≡ db))
        (settlement_or_throw i db)
unfolding settlement_or_throw
settlement_or_throw-Returns i db = require-Same (find i db.settlements) p2025 db tt

module _ (x : External) (o i now : ℕ) where
  claim_initiation-IsSound :
      (s : Settlement) (db : Db)
      → IsSound db
      → Returns (λ _. Unit {0}) (λ _. IsSound) (claim_initiation x o i now s db)
  unfolding claim_initiation
  claim_initiation-IsSound s db sound =
      branch-Returns (not (is_reserved s.status) || is_set s.initiation_claimed_at) _ _ db
        (λ _. returns sound)
        λ _.
          bind-Returns {Q = λ _ db'. IsSound db'}
            (weaken (update_settlement_where-Returns i _ (as_processing now) db)
              (λ n db' q. elim q [
                | inl (_, w) ↦ rw w sound
                | inr (r, _, t, (fr, w)) ↦ rw w (
                    settle-IsSoundBy _
                      (λ j. held_processing j r now (&&-true _ _ (&&-true _ _ t).1).0) (λ j. refl)
                      (settlement-IsSoundBy db i r (as_processing now r) sound fr))
              ])
              (λ _ _. tt))
            λ n db' sound'.
              bind-Same _ (settlement_or_throw-Returns i db') λ after _. returns sound'

  reserve_prepared-IsSound :
      (s : Settlement) (db : Db)
      → find i db.settlements ≡ some s
      → s.reservation_released_at ≡ none
      → IsSound db
      → Returns (λ _. Unit {0}) (λ _. IsSound) (reserve_prepared x o i now s db)
  unfolding reserve_prepared
  reserve_prepared-IsSound s db found released sound =
      bind-Returns
        (weaken (update_settlement_where-Returns i _ (as_reserved now) db) (λ _ _ q. q) (λ _ _. tt))
        λ n db' q. elim q [
          | inl (zero_rows, w) ↦ rw (zero_rows, w) (returns sound)
          | inr (r, one_row, t, (fr, w)) ↦
              let same : r ≡ s = cc in
              rw (one_row, w, same)
                (bind-Returns (reserve_wallet_balance-Returns x _ _ _ _ _)
                  λ _ db2 (v, (_, spendable, (fv, wv))). rw wv (
                    bind-Same _ (settlement_or_throw-Returns i _) λ after _.
                      claim_initiation-IsSound after _ (
                        settle-IsSoundBy _
                          (λ j. held_reserved j s now (&&-true _ _ (rw same at t)).1 released)
                          (nothing_reserved s.wallet_account_id)
                          (reserve-IsSoundBy _ s.wallet_account_id s.amount v
                            (settlement-IsSoundBy db i s (as_reserved now s) sound found) spendable
                            fv))))
        ]

  claim_body-IsSound :
      (db : Db)
      → ((s : Settlement)
          → find i db.settlements ≡ some s
          → is_prepared s.status ≡ true
          → s.reservation_released_at ≡ none)
      → IsSound db
      → Returns (λ _. Unit {0}) (λ _. IsSound) (claim_body x o i now db)
  unfolding claim_body
  claim_body-IsSound db released sound = bind-Same _ (owned_settlement-Returns o i db tt) λ s found.
      bind-Same _ (assert_incident-Returns x o s.wallet_account_id db tt) λ _ _.
        branch-Returns (is_terminal s.status) _ _ db (λ _. returns sound)
          λ _.
            branch-Returns (is_prepared s.status) _ _ db
              (λ p. reserve_prepared-IsSound s db found (released s found p) sound)
              (λ _. claim_initiation-IsSound s db sound)

-- Reserving the wallet for a prepared settlement and claiming its initiation, or failing to, keeps
-- wallets, settlements and ledger in agreement, if no prepared settlement says that its reservation
-- has been released.
pub reserve_and_claim-IsSound :
    (x : External) (o i now : ℕ) (db : Db)
    → ((s : Settlement)
        → find i db.settlements ≡ some s
        → is_prepared s.status ≡ true
        → s.reservation_released_at ≡ none)
    → IsSound db
    → IsSound (reserve_and_claim_provider_settlement x o i now db).1
unfolding reserve_and_claim_provider_settlement
reserve_and_claim-IsSound x o i now db released sound =
    after_call (transaction-Returns _ db sound (claim_body-IsSound x o i now db released sound))
