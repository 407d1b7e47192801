-- ===== src/Transfer/Once.antt =====
-- What a settlement call does is done once: a second initiation claim and a second payout are refused
-- or replayed.
use sinkronis_backend.Common.{
  ℕ, true, false, ◌≡◌, refl, some, ◌==◌, ◌||◌, not, arith, is_set, inl, inr,
}
use sinkronis_backend.Common.Table.{find, find-put_self}
use sinkronis_backend.Database.{
  Db, Result, Settlement, External, Returns, returns, raises, bind-Returns, bind-Same, weaken,
  branch-Returns, ok, transaction-Returns, update_settlement_where-Returns,
}
use sinkronis_backend.Wallet.Balance.{reserve_wallet_balance-Returns}
use sinkronis_backend.Settlement.Manual.{is_prepared}
use sinkronis_backend.Settlement.Reads.{assert_incident-Returns, owned_settlement-Returns}
use sinkronis_backend.Transfer.Claim.{
  Claimed, is_terminal, is_reserved, as_reserved, as_processing, claim_initiation, reserve_prepared,
  claim_body, reserve_and_claim_provider_settlement,
}
use sinkronis_backend.Transfer.Claims.{settlement_or_throw-Returns}

-- The value and the tables of a call that returned.
pub outcome :
    {A : Type 0} {E : Db → Type 0} {Q : A → Db → Type 0} {r : Result A × Db} (a : A) (db : Db)
    → Returns E Q r
    → r ≡ (ok a, db)
    → Q a db
outcome {Q = Q} a db (returns {a = b} {db = d} q) e =
    let same_value : b ≡ a = cc in let same_db : d ≡ db = cc in rw (← same_value, ← same_db) q
outcome a db (raises h) e = cc

-- The caller that is told to initiate finds the settlement handed over.
abbrev HandedOver : ℕ → Claimed → Db → Type 0
HandedOver i c db =
    c.should_initiate ≡ true
    → (find i db.settlements ≡ some c.settlement)
      × (is_reserved c.settlement.status ≡ false)
      × (is_prepared c.settlement.status ≡ false)

module _ (x : External) (o i now : ℕ) where
  claim_initiation-HandedOver :
      (s : Settlement) (db : Db)
      → Returns (λ _. Unit {0}) (HandedOver i) (claim_initiation x o i now s db)
  unfolding claim_initiation
  claim_initiation-HandedOver s db =
      branch-Returns (not (is_reserved s.status) || is_set s.initiation_claimed_at) _ _ db
        (λ _. returns (λ h. cc))
        λ _.
          bind-Returns
            (weaken (update_settlement_where-Returns i _ (as_processing now) db) (λ _ _ q. q)
              (λ _ _. tt))
            λ n db' q. bind-Same _ (settlement_or_throw-Returns i db') λ after found.
              returns (λ first. elim q [
                | inl (zero_rows, _) ↦ absurd (ground arith)
                | inr (r, _, _, (fr, w)) ↦
                    let row : find i db'.settlements ≡ some (as_processing now r) =
                      rw w (find-put_self _ _ _) in
                    let same : after ≡ as_processing now r = cc in (found, rw same, rw same)
              ])

  reserve_prepared-HandedOver :
      (s : Settlement) (db : Db)
      → Returns (λ _. Unit {0}) (HandedOver i) (reserve_prepared x o i now s db)
  unfolding reserve_prepared
  reserve_prepared-HandedOver s db =
      bind-Returns
        (weaken (update_settlement_where-Returns i _ (as_reserved now) db) (λ _ _ q. q) (λ _ _. tt))
        λ n db' q.
          branch-Returns (not (n == 1)) _ _ db' (λ _. returns (λ h. cc))
            λ _. bind-Returns (reserve_wallet_balance-Returns x _ _ _ _ db') λ _ db2 _.
              bind-Same _ (settlement_or_throw-Returns i db2)
                λ after _. claim_initiation-HandedOver after db2

  claim_body-HandedOver :
      (db : Db) → Returns (λ _. Unit {0}) (HandedOver i) (claim_body x o i now db)
  unfolding claim_body
  claim_body-HandedOver db = bind-Same _ (owned_settlement-Returns o i db tt) λ s _.
      bind-Same _ (assert_incident-Returns x o s.wallet_account_id db tt) λ _ _.
        branch-Returns (is_terminal s.status) _ _ db (λ _. returns (λ h. cc))
          λ _.
            branch-Returns (is_prepared s.status) _ _ db (λ _. reserve_prepared-HandedOver s db)
              (λ _. claim_initiation-HandedOver s db)

  -- A caller that finds the settlement handed over is not told to initiate, and writes nothing.
  abbrev Declined : Db → Claimed → Db → Type 0
  Declined db c db' = (c.should_initiate ≡ false) × (db' ≡ db)

  claim_body-Declined :
      (s : Settlement) (db : Db)
      → find i db.settlements ≡ some s
      → is_reserved s.status ≡ false
      → is_prepared s.status ≡ false
      → Returns (λ _. Unit {0}) (Declined db) (claim_body x o i now db)
  unfolding claim_body claim_initiation
  claim_body-Declined s db found reserved prepared =
      bind-Same _ (owned_settlement-Returns o i db tt) λ r e.
        let same : r ≡ s = cc in
        bind-Same _ (assert_incident-Returns x o r.wallet_account_id db tt) λ _ _.
          branch-Returns (is_terminal r.status) _ _ db (λ _. returns (refl, refl))
            λ _. rw (same, prepared, reserved) (returns (refl, refl))

-- Once a caller has been told to initiate a settlement, no later caller is, at any time: a later call
-- that returns says so and leaves the tables alone.
pub initiated_once :
    (x : External) (o i now later : ℕ) (db db' db'' : Db) (c c' : Claimed)
    → reserve_and_claim_provider_settlement x o i now db ≡ (ok c, db')
    → c.should_initiate ≡ true
    → reserve_and_claim_provider_settlement x o i later db' ≡ (ok c', db'')
    → (c'.should_initiate ≡ false) × (db'' ≡ db')
unfolding reserve_and_claim_provider_settlement
initiated_once x o i now later db db' db'' c c' first told second =
    let (found, reserved, prepared) =
      outcome c db'
        (transaction-Returns {F = λ _. Unit {0}} _ db tt (claim_body-HandedOver x o i now db)) first
        told in
    outcome c' db''
      (transaction-Returns {F = λ _. Unit {0}} _ db' tt
        (claim_body-Declined x o i later c.settlement db' found reserved prepared))
      second
