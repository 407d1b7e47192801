-- ===== src/Settlement/Soundness.antt =====
-- `completeManualSettlement` keeps the wallets in agreement with the settlements and the ledger.
use sinkronis_backend.Common.{
  ℕ, true, false, ◌≡◌, refl, Option, none, some, ◌==◌, ◌&&◌, not, arith, if◌then◌else◌, &&-true,
}
use sinkronis_backend.Common.Int.{ℤ, pos, ◌+ℤ◌, ◌-ℤ◌, int_laws}
use sinkronis_backend.Common.Text.{Text}
use sinkronis_backend.Common.Table.{find, put, find-put_self, find_where, find_where-found}
use sinkronis_backend.Database.{
  Db, Wallet, Settlement, Action, External, Returns, returns, bind-Returns, bind-Same, weaken,
  branch-Returns, transaction-Returns, catch-Returns, ensure-Returns, resume,
  update_settlement-Returns, after_call, settlement_identity_used, create_settlement-Returns,
  create_ledger-Returns,
}
use sinkronis_backend.Wallet.Calls.{Debit}
use sinkronis_backend.Settlement.Inputs.{Source, ManualInput, Fresh, is_source}
use sinkronis_backend.Settlement.Reads.{assert_incident-Returns, p2002_as-Returns}
use sinkronis_backend.Settlement.Manual.{
  manual_debit, as_completed, as_manual, manual_row, is_manual, is_prepared, is_replay,
  write_manual, finish_manually, settle_manually, manual_existing, manual_body,
  complete_manual_settlement,
}
use sinkronis_backend.Wallet.Balance.{
  consume_by, reserve_wallet_balance-Returns, consume_wallet_reservation-Returns,
  assert_financial_currency-Returns,
}
use sinkronis_backend.Integrity.Checks.{held, active_reservation, active_sum, expected_balance}
use sinkronis_backend.Integrity.Wallets.{neg, reserve-IsSoundBy, consume-IsSoundBy}
use sinkronis_backend.Integrity.Sums.{
  IsSound, IsSoundBy, nothing, at, settlement-IsSoundBy, new_settlement-IsSoundBy, entry-IsSoundBy,
  settle-IsSoundBy,
}

-- The tables that the invariant reads are the same.
pub record SameMoney (db db' : Db) : Type 0 where
  pub wallets : db'.wallets ≡ db.wallets
  pub settlements : db'.settlements ≡ db.settlements
  pub ledger : db'.ledger ≡ db.ledger

pub SameMoney-IsSoundBy :
    {dr dl : ℕ → ℤ} {db db' : Db} → SameMoney db db' → IsSoundBy dr dl db → IsSoundBy dr dl db'
unfolding active_sum expected_balance
SameMoney-IsSoundBy same sound j v e =
    let b = sound j v (rw (← same.wallets) e) in
    record {
      reserved_is_held = rw same.settlements b.reserved_is_held;
      within_balance = b.within_balance;
      ledgered = rw same.ledger b.ledgered;
    }

-- What the caller's `finalize` must do: leave wallets, settlements and ledger alone.
abbrev pub IsBusinessOnly : {T : Type 0} → (Settlement → ℕ → Action T) → Type 0
IsBusinessOnly finalize =
    (s : Settlement) (i : ℕ) (db : Db)
    → Returns (λ _. Unit {0}) (λ _ db'. SameMoney db db') (finalize s i db)

-- A completed settlement holds nothing.
held_nothing : (j : ℕ) (s : Settlement) → active_reservation s ≡ false → held j s ≡ pos 0
held_nothing j s h = ground arith

-- A completed settlement holds nothing, so the debit's slack is the settlement's.
held_settled :
    (k j : ℕ) (a : ℤ) (s s' : Settlement) (input : ManualInput) (fresh : Fresh)
    → s' ≡ s
    → at k a j -ℤ held j s +ℤ at k (neg a) j +ℤ held j s' -ℤ held j (as_completed input fresh s')
      ≡ pos 0
held_settled k j a s s' input fresh e = rw e (grind int_laws)

entered_settled :
    (k j : ℕ) (a : ℤ) → pos 0 +ℤ at k (neg a) j -ℤ (if k == j then neg a else pos 0) ≡ pos 0
entered_settled k j a = grind int_laws

module _ (x : External) {T : Type 0} (source : Source) (input : ManualInput) (fresh : Fresh)
    (finalize : Settlement → ℕ → Action T) (business : IsBusinessOnly finalize) where
  closing :
      (d : Debit) (w : Wallet) (s s' : Settlement) (db : Db) (i : ℕ)
      → IsSoundBy (λ j. at source.wallet_account_id source.amount j -ℤ held j s) nothing db
      → find i db.settlements ≡ some s
      → find source.wallet_account_id db.wallets ≡ some w
      → find fresh.ledger_id db.ledger ≡ none
      → find i db.settlements ≡ some s'
      → IsSound (record db {
        wallets = put source.wallet_account_id (consume_by source.amount w) db.wallets;
        settlements = put i (as_completed input fresh s') db.settlements;
        ledger = put fresh.ledger_id (manual_debit source input d s) db.ledger;
      })
  closing d w s s' db i sound e fw fl fs =
      let k = source.wallet_account_id in
      settle-IsSoundBy _ (λ j. held_settled k j source.amount s s' input fresh (cc))
        (λ j. entered_settled k j source.amount)
        (settlement-IsSoundBy _ i s' (as_completed input fresh s')
          (entry-IsSoundBy _ fresh.ledger_id (manual_debit source input d s)
            (consume-IsSoundBy db k source.amount w sound fw) fl)
          fs)

  finish-IsSound :
      (currency : Text) (i : ℕ) (s : Settlement) (db : Db)
      → IsSoundBy (λ j. at source.wallet_account_id source.amount j -ℤ held j s) nothing db
      → find i db.settlements ≡ some s
      → Returns
          (λ _. Unit {0})
          (λ _. IsSound)
          (finish_manually x source input fresh finalize currency (i, s) db)
  unfolding finish_manually
  finish-IsSound currency i s db sound e =
      bind-Returns (consume_wallet_reservation-Returns x _ _ _ _ db)
        λ d db1 (w, (_, _, (fw, wr)), _). rw wr (
          bind-Returns (weaken (create_ledger-Returns _ _ _) (λ _ _ q. q) (λ _ _. tt))
            λ _ db2 (_, fl, wl). rw wl (
              bind-Returns (weaken (update_settlement-Returns i _ _) (λ _ _ q. q) (λ _ _. tt))
                λ row db3 (s', _, (fs, ws)). rw ws (
                  bind-Returns (business row _ _) λ _ _ same.
                    returns (SameMoney-IsSoundBy same (closing d w s s' db i sound e fw fl fs)))))

  held_created :
      (j : ℕ) (row : Settlement)
      → pos 0 +ℤ at source.wallet_account_id source.amount j -ℤ held j row
        ≡ at source.wallet_account_id source.amount j -ℤ held j row
  held_created j row = omega int_laws

  entered_reserved : (j : ℕ) → pos 0 +ℤ at source.wallet_account_id (pos 0) j ≡ pos 0
  entered_reserved j = grind int_laws

  held_prepared :
      (j : ℕ) (s : Settlement)
      → is_prepared s.status ≡ true
      → pos 0
          +ℤ at source.wallet_account_id source.amount j
          +ℤ held j s
          -ℤ held j (as_manual input fresh s)
        ≡ at source.wallet_account_id source.amount j -ℤ held j (as_manual input fresh s)
  held_prepared j s h =
      let none_held : held j s ≡ pos 0 = ground arith in rw none_held (omega int_laws)

  -- The reservation and the row that holds it, written together.
  write_manual-IsSoundBy :
      (existing : Option (ℕ × Settlement)) (currency : Text) (db : Db)
      → ((i : ℕ) (s : Settlement)
          → existing ≡ some (i, s)
          → (find i db.settlements ≡ some s) × (is_prepared s.status ≡ true))
      → IsSoundBy
          (λ j. pos 0 +ℤ at source.wallet_account_id source.amount j)
          (λ j. pos 0 +ℤ at source.wallet_account_id (pos 0) j)
          db
      → Returns
          (λ _. Unit {0})
          (λ (i, s) db'.
            IsSoundBy (λ j. at source.wallet_account_id source.amount j -ℤ held j s) nothing db'
            × (find i db'.settlements ≡ some s))
          (write_manual source input fresh existing currency db)
  write_manual-IsSoundBy none currency db known sound =
      bind-Returns (weaken (create_settlement-Returns _ _ db) (λ _ _ q. q) (λ _ _. tt))
        λ row db' (same, absent, w).
          rw (same, w)
            (returns (
              settle-IsSoundBy _ (λ j. held_created j (manual_row source input fresh currency))
                  entered_reserved (new_settlement-IsSoundBy db _ _ sound absent),
              find-put_self _ _ _,
            ))
  write_manual-IsSoundBy (some (i, s)) currency db known sound =
      let (found, prep) = known i s refl in
      bind-Returns (weaken (update_settlement-Returns i _ db) (λ _ _ q. q) (λ _ _. tt))
        λ row db' (s', same, (fs, w)).
          let e : s' ≡ s = cc in
          rw (same, w, e)
            (returns (
              settle-IsSoundBy _ (λ j. held_prepared j s prep) entered_reserved
                  (settlement-IsSoundBy db i s (as_manual input fresh s) sound found),
              find-put_self _ _ _,
            ))

  settle_manually-IsSound :
      (existing : Option (ℕ × Settlement)) (db : Db)
      → ((i : ℕ) (s : Settlement)
          → existing ≡ some (i, s)
          → (find i db.settlements ≡ some s) × (is_prepared s.status ≡ true))
      → IsSound db
      → Returns
          (λ _. Unit {0})
          (λ _. IsSound)
          (settle_manually x source input fresh finalize existing db)
  unfolding settle_manually
  settle_manually-IsSound existing db known sound =
      bind-Same _
        (weaken (assert_financial_currency-Returns source.currency source.currency db) (λ _ _ q. q)
          (λ _ _. tt))
        λ currency _.
          bind-Returns (reserve_wallet_balance-Returns x _ _ _ _ db) λ _ db1 (w, (_, t, (fw, wr))).
            rw wr (
              bind-Returns
                (write_manual-IsSoundBy existing currency _ known
                  (reserve-IsSoundBy db source.wallet_account_id source.amount w sound t fw))
                λ (i, s) db2 (sound', e). finish-IsSound currency i s db2 sound' e)

  known_prepared :
      (i : ℕ) (s : Settlement) (i' : ℕ) (s' : Settlement) (db : Db)
      → find_where (is_source source) db.settlements ≡ some (i, s)
      → is_prepared s.status ≡ true
      → ◌≡◌ {A = Option (ℕ × Settlement)} (some (i, s)) (some (i', s'))
      → (find i' db.settlements ≡ some s') × (is_prepared s'.status ≡ true)
  known_prepared i s i' s' db e prep f =
      let found = find_where-found (is_source source) db.settlements e in
      let same_id : i ≡ i' = cc in let same : s ≡ s' = cc in rw (← same_id, ← same) (found.0, prep)

  manual_body-IsSound :
      (db : Db)
      → IsSound db
      → Returns (λ _. Unit {0}) (λ _. IsSound) (manual_body x source input fresh finalize db)
  unfolding manual_body resume manual_existing
  manual_body-IsSound db sound = go (find_where (is_source source) db.settlements) refl
    where
      go :
          (o : Option (ℕ × Settlement))
          → find_where (is_source source) db.settlements ≡ o
          → Returns
              (λ _. Unit {0})
              (λ _. IsSound)
              (manual_existing x source input fresh finalize o db)
      go none e = settle_manually-IsSound none db (λ i s f. cc) sound
      go (some (i, s)) e =
          branch-Returns (is_replay input s) _ _ db (λ _. returns sound)
            (λ _.
              bind-Same _
                (ensure-Returns (not (is_manual s.method) && is_prepared s.status) _ db tt)
                λ _ allowed.
                  bind-Same _
                    (weaken (assert_financial_currency-Returns source.currency s.currency db)
                      (λ _ _ q. q) (λ _ _. tt))
                    λ _ _.
                      settle_manually-IsSound (some (i, s)) db
                        (λ i' s' f. known_prepared i s i' s' db e (&&-true _ _ allowed).1 f) sound)

-- Whatever a manual settlement does, and however it ends, wallets, settlements and ledger agree.
pub complete_manual_settlement-IsSound :
    (x : External) {T : Type 0} (source : Source) (input : ManualInput) (fresh : Fresh)
    (finalize : Settlement → ℕ → Action T) (db : Db)
    → IsBusinessOnly finalize
    → IsSound db
    → IsSound (complete_manual_settlement x source input fresh finalize db).1
unfolding complete_manual_settlement
complete_manual_settlement-IsSound x source input fresh finalize db business sound = after_call (
    bind-Same _ (assert_incident-Returns x _ _ db sound) λ _ _.
      catch-Returns _ _ db
        (transaction-Returns _ db sound
          (manual_body-IsSound x source input fresh finalize business db sound))
        λ e db' s. p2002_as-Returns settlement_identity_used e db' s)
