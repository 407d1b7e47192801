-- ===== src/Integrity/Findings.antt =====
-- The balance findings of src/core/financial-integrity-scanner.ts against the invariant.
use sinkronis_backend.Common.{ℕ, Bool, true, false, ◌≡◌, ◌↔◌, not, arith}
use mathlib.Core.Path.{subst}
use sinkronis_backend.Common.Int.{ℤ, ◌≤ℤ◌, eqb_ℤ, eqb_ℤ_iff, leb_ℤ, leb_ℤ→le}
use sinkronis_backend.Database.{Db, Wallet}
use sinkronis_backend.Integrity.Checks.{
  active_sum, expected_balance, wallet_balance_mismatch, unledgered_wallet_value,
  wallet_reserved_balance_mismatch, reservation_mismatch,
}
use sinkronis_backend.Integrity.Described.{
  SumsTo, Holds, Enters, active_sum_iff, expected_balance_iff,
}

le→leb_ℤ : (a b : ℤ) → a ≤ℤ b → leb_ℤ a b ≡ true
le→leb_ℤ a b h = ground arith

leb_ℤ-self : (a : ℤ) → leb_ℤ a a ≡ true
leb_ℤ-self a = ground arith

not-false : (b : Bool) → not b ≡ false → b ≡ true
not-false true h = cc
not-false false h = cc

not-true : (b : Bool) → b ≡ true → not b ≡ false
not-true b h = rw h

-- The scanner raises none of its four critical balance findings on a wallet exactly when its reserved
-- balance is the sum of what the settlements hold of it, and no more than its balance, and its balance
-- is the sum of what the ledger rows add to it. A settlement holds its amount while its status is
-- RESERVED, PROVIDER_PROCESSING or UNKNOWN and it has been reserved and not released; a ledger row adds
-- its amount if it is CREDIT or INFLOW, takes it if it is DEBIT or OUTFLOW, and else counts nothing.
pub no_findings_iff :
    (k : ℕ) (w : Wallet) (db : Db)
    → ((wallet_balance_mismatch k w db ≡ false)
        × (unledgered_wallet_value k w db ≡ false)
        × (wallet_reserved_balance_mismatch k w db ≡ false)
        × (reservation_mismatch w ≡ false))
      ↔ (SumsTo (Holds k) db.settlements w.reserved_balance
          × SumsTo (Enters k) db.ledger w.balance
          × (w.reserved_balance ≤ℤ w.balance))
unfolding wallet_balance_mismatch unledgered_wallet_value wallet_reserved_balance_mismatch
    reservation_mismatch
no_findings_iff k w db = (
  λ h. (
    (active_sum_iff k db w.reserved_balance).1 ((eqb_ℤ_iff _ _).0 (not-false _ h.2)),
    (expected_balance_iff k db w.balance).1 ((eqb_ℤ_iff _ _).0 (not-false _ h.0)),
    leb_ℤ→le w.reserved_balance w.balance (not-false _ h.3),
  ),
  λ (held, entered, within).
      let held_sum = (active_sum_iff k db w.reserved_balance).0 held in
      let entered_sum = (expected_balance_iff k db w.balance).0 entered in
      (
        not-true (eqb_ℤ w.balance (expected_balance k db)) ((eqb_ℤ_iff _ _).1 entered_sum),
        not-true (leb_ℤ w.balance (expected_balance k db))
            (subst (λ e. leb_ℤ w.balance e ≡ true) entered_sum (leb_ℤ-self w.balance)),
        not-true (eqb_ℤ w.reserved_balance (active_sum k db)) ((eqb_ℤ_iff _ _).1 held_sum),
        not-true (leb_ℤ w.reserved_balance w.balance)
            (le→leb_ℤ w.reserved_balance w.balance within),
      ),
)
