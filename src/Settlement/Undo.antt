-- ===== src/Settlement/Undo.antt =====
-- Releasing a reservation and reversing a settlement keep wallets, settlements and ledger in
-- agreement.
use sinkronis_backend.Common.{
  ℕ, true, ◌≡◌, refl, Option, none, some, ◌==◌, ◌&&◌, if◌then◌else◌, is_set, arith,
}
use sinkronis_backend.Common.Int.{ℤ, pos, ◌+ℤ◌, ◌-ℤ◌, ◌≤ℤ◌, int_laws}
use sinkronis_backend.Common.Text.{Text}
use sinkronis_backend.Common.Table.{find, find_where}
use sinkronis_backend.Database.{
  Db, Settlement, Error, External, IsSign, Returns, returns, raises, bind-Returns, bind-Same,
  weaken, branch-Returns, transaction-Returns, catch-Returns, ensure-Returns, require-Same, resume,
  conflict, missing, p2002, p2003, p2025, mail_failed, provider_error, update_settlement-Returns,
  update_wallet-Returns, create_ledger-Returns, after_call, no_releasable_reservation,
  not_successful, debit_entry_missing,
}
use sinkronis_backend.Wallet.Balance.{release_wallet_reservation-Returns, financial_wallet-Returns}
use sinkronis_backend.Integrity.Checks.{held, active_reservation}
use sinkronis_backend.Integrity.Sums.{
  IsSound, at, wallet-IsSoundBy, settlement-IsSoundBy, entry-IsSoundBy, settle-IsSoundBy,
}
use sinkronis_backend.Integrity.Wallets.{neg, release-IsSoundBy}
use sinkronis_backend.Settlement.Inputs.{Fresh}
use sinkronis_backend.Settlement.Reads.{assert_incident-Returns, owned_settlement-Returns}
use sinkronis_backend.Settlement.Manual.{is_succeeded, same_reference}
use sinkronis_backend.Settlement.Release.{
  is_failed, as_failed, release_body, release_settlement_reservation,
}
use sinkronis_backend.Settlement.Reverse.{
  is_reversed, is_debit_of, restore_by, reversal_credit, as_reversed, restore_wallet, reverse_body,
  is_same_reversal, existing_reversal, after_conflict, reverse_succeeded_settlement,
}

held_released :
    (j : ℕ) (s : Settlement) (reason : Text) (now : ℕ)
    → active_reservation s ≡ true
    → pos 0
        +ℤ at s.wallet_account_id (neg s.amount) j
        +ℤ held j s
        -ℤ held j (as_failed reason now s)
      ≡ pos 0
held_released j s reason now h =
    let all_held : held j s ≡ at s.wallet_account_id s.amount j = ground arith in
    rw all_held (grind int_laws)

nothing_entered : (k j : ℕ) → pos 0 +ℤ at k (pos 0) j ≡ pos 0
nothing_entered k j = grind int_laws

release_body-IsSound :
    (x : External) (o i : ℕ) (reason : Text) (now : ℕ) (db : Db)
    → IsSign x
    → IsSound db
    → Returns (λ _. Unit {0}) (λ _. IsSound) (release_body x o i reason now db)
unfolding release_body
release_body-IsSound x o i reason now db sign sound =
    bind-Same _ (owned_settlement-Returns o i db tt) λ s found.
      bind-Same _ (assert_incident-Returns x o s.wallet_account_id db tt) λ _ _.
        branch-Returns (is_failed s.status && is_set s.reservation_released_at) _ _ db
          (λ _. returns sound)
          λ _.
            bind-Same _ (ensure-Returns (active_reservation s) no_releasable_reservation db tt)
              λ _ active.
                bind-Returns (release_wallet_reservation-Returns x _ _ _ _ db)
                  λ _ db1 (w, (positive, _, (fw, wr))). rw wr (
                    weaken (update_settlement-Returns i (as_failed reason now) _)
                      (λ _ _ (s', _, (fs, ws)).
                        let same : s' ≡ s = cc in
                        rw (ws, same)
                          (settle-IsSoundBy _ (λ j. held_released j s reason now active)
                            (nothing_entered s.wallet_account_id)
                            (settlement-IsSoundBy _ i s (as_failed reason now s)
                              (release-IsSoundBy db s.wallet_account_id s.amount w sound
                                (sign.sound s.amount positive) fw)
                              found)))
                      (λ _ _. tt))

-- Releasing a reservation, or failing to, keeps wallets, settlements and ledger in agreement.
pub release_settlement_reservation-IsSound :
    (x : External) (o i : ℕ) (reason : Text) (now : ℕ) (db : Db)
    → IsSign x
    → IsSound db
    → IsSound (release_settlement_reservation x o i reason now db).1
unfolding release_settlement_reservation
release_settlement_reservation-IsSound x o i reason now db sign sound =
    after_call
      (transaction-Returns _ db sound (release_body-IsSound x o i reason now db sign sound))

held_reversed :
    (j : ℕ) (s : Settlement) (reference : Text) (now ledger : ℕ)
    → is_succeeded s.status ≡ true
    → pos 0
        +ℤ at s.wallet_account_id (pos 0) j
        +ℤ held j s
        -ℤ held j (as_reversed reference now ledger s)
      ≡ pos 0
held_reversed j s reference now ledger h =
    let none_held : held j s ≡ pos 0 = ground arith in rw none_held (grind int_laws)

credit_entered : (k j : ℕ) (a : ℤ) → pos 0 +ℤ at k a j -ℤ (if k == j then a else pos 0) ≡ pos 0
credit_entered k j a = grind int_laws

add-le : (a b r : ℤ) → pos 0 ≤ℤ a → r ≤ℤ b → r ≤ℤ b +ℤ a
add-le a b r p h = omega int_laws

module _ (x : External) (o i : ℕ) (reference : Text) (fresh : Fresh) (db : Db) where
  restore_wallet-IsSound :
      (s : Settlement)
      → is_succeeded s.status ≡ true
      → find i db.settlements ≡ some s
      → pos 0 ≤ℤ s.amount
      → IsSound db
      → Returns (λ _. Unit {0}) (λ _. IsSound) (restore_wallet x o i reference fresh s db)
  unfolding restore_wallet resume
  restore_wallet-IsSound s won found positive sound =
      bind-Same _
        (require-Same (find_where (is_debit_of o s) db.ledger) (conflict debit_entry_missing) db tt)
        λ (original, _) _.
          bind-Same _
            (weaken (financial_wallet-Returns o s.wallet_account_id s.currency db) (λ _ _ q. q)
              (λ _ _. tt))
            λ before _.
              bind-Returns
                (weaken (update_wallet-Returns s.wallet_account_id (restore_by s) db) (λ _ _ q. q)
                  (λ _ _. tt))
                λ after db1 (w, _, fw, ww). rw ww (
                  bind-Returns
                    (weaken
                      (create_ledger-Returns fresh.ledger_id
                        (reversal_credit o s reference original before after) _)
                      (λ _ _ q. q) (λ _ _. tt))
                    λ ledger db2 (_, fl, wl). rw wl (
                      weaken
                        (update_settlement-Returns i (as_reversed reference fresh.now ledger) _)
                        (λ _ _ (s', _, (fs, ws)).
                          let same : s' ≡ s = cc in
                          rw (ws, same)
                            (settle-IsSoundBy _
                              (λ j. held_reversed j s reference fresh.now ledger won)
                              (λ j. credit_entered s.wallet_account_id j s.amount)
                              (settlement-IsSoundBy _ i s (as_reversed reference fresh.now ledger s)
                                (entry-IsSoundBy _ fresh.ledger_id
                                  (reversal_credit o s reference original before after)
                                  (wallet-IsSoundBy db s.wallet_account_id w (restore_by s w)
                                    (pos 0) s.amount sound fw (omega int_laws) refl
                                    (add-le s.amount w.balance w.reserved_balance positive))
                                  fl)
                                found)))
                        (λ _ _. tt)))

  reverse_body-IsSound :
      ((s : Settlement) → find i db.settlements ≡ some s → pos 0 ≤ℤ s.amount)
      → IsSound db
      → Returns (λ _. Unit {0}) (λ _. IsSound) (reverse_body x o i reference fresh db)
  unfolding reverse_body
  reverse_body-IsSound positive sound = bind-Same _ (owned_settlement-Returns o i db tt) λ s found.
      bind-Same _ (assert_incident-Returns x o s.wallet_account_id db tt) λ _ _.
        branch-Returns (is_reversed s.status && same_reference s.reversal_reference reference) _ _
          db (λ _. returns sound)
          λ _.
            bind-Same _ (ensure-Returns (is_succeeded s.status) not_successful db tt)
              λ _ won. restore_wallet-IsSound s won found (positive s found) sound

  existing_reversal-IsSound :
      (s : Option Settlement) (db' : Db)
      → IsSound db'
      → Returns IsSound (λ _. IsSound) (existing_reversal x o i reference fresh s db')
  existing_reversal-IsSound none db' sound = raises sound
  existing_reversal-IsSound (some s) db' sound =
      branch-Returns (is_same_reversal x o i reference fresh s) _ _ db' (λ _. returns sound)
        (λ _. raises sound)

  after_conflict-IsSound :
      (e : Error) (db' : Db)
      → IsSound db'
      → Returns IsSound (λ _. IsSound) (after_conflict x o i reference fresh e db')
  after_conflict-IsSound p2002 db' sound = existing_reversal-IsSound _ db' sound
  after_conflict-IsSound (conflict _) db' sound = raises sound
  after_conflict-IsSound missing db' sound = raises sound
  after_conflict-IsSound p2025 db' sound = raises sound
  after_conflict-IsSound p2003 db' sound = raises sound
  after_conflict-IsSound mail_failed db' sound = raises sound
  after_conflict-IsSound (provider_error _ _) db' sound = raises sound

-- Reversing a settlement whose amount is not negative keeps wallets, settlements and ledger in
-- agreement, however the call ends.
pub reverse_succeeded_settlement-IsSound :
    (x : External) (o i : ℕ) (reference : Text) (fresh : Fresh) (db : Db)
    → ((s : Settlement) → find i db.settlements ≡ some s → pos 0 ≤ℤ s.amount)
    → IsSound db
    → IsSound (reverse_succeeded_settlement x o i reference fresh db).1
unfolding reverse_succeeded_settlement
reverse_succeeded_settlement-IsSound x o i reference fresh db positive sound = after_call (
    catch-Returns _ _ db
      (transaction-Returns _ db sound
        (reverse_body-IsSound x o i reference fresh db positive sound))
      (after_conflict-IsSound x o i reference fresh db))
