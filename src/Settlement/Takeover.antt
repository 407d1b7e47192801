-- ===== src/Settlement/Takeover.antt =====
-- A manual settlement that takes over a prepared provider settlement.
use sinkronis_backend.Common.{ℕ, false, ◌≡◌, refl, some, ◌&&◌, not}
use sinkronis_backend.Common.Text.{Text}
use sinkronis_backend.Common.Table.{find, find_where, find-put_self, find_where-found}
use sinkronis_backend.Database.{
  Db, Action, External, Settlement, WalletTransaction, Returns, returns, bind-Returns, bind-Same,
  weaken, catch-Returns, transaction-Returns, ensure-Returns, update_settlement-Returns,
  create_ledger-Returns, ok, already_settled, settlement_identity_used,
}
use sinkronis_backend.Wallet.Balance.{
  assert_financial_currency-Returns, reserve_wallet_balance-Returns,
  consume_wallet_reservation-Returns,
}
use sinkronis_backend.Settlement.Inputs.{Source, ManualInput, Fresh, is_source}
use sinkronis_backend.Settlement.Manual.{
  Completed, is_manual, is_prepared, is_replay, as_manual, write_manual, manual_debit,
  finish_manually, settle_manually, manual_existing, manual_body, complete_manual_settlement,
}
use sinkronis_backend.Settlement.Reads.{assert_incident-Returns, p2002_as-Returns}
use sinkronis_backend.Settlement.Soundness.{IsBusinessOnly}
use sinkronis_backend.Transfer.Once.{outcome}

-- The settlement keeps the wallet and the amount of `s`; the ledger names those of the source.
abbrev pub TakesOver : {T : Type 0} → Source → Fresh → Settlement → Completed T → Db → Type 0
TakesOver source fresh s c db =
    (c.settlement.wallet_account_id ≡ s.wallet_account_id)
    × (c.settlement.amount ≡ s.amount)
    × ((r : WalletTransaction) × (find fresh.ledger_id db.ledger ≡ some r)
        × (r.wallet_account_id ≡ source.wallet_account_id)
        × (r.amount ≡ source.amount))

module _ (x : External) {T : Type 0} (source : Source) (input : ManualInput) (fresh : Fresh)
    (finalize : Settlement → ℕ → Action T) (business : IsBusinessOnly finalize) where
  finish-TakesOver :
      (currency : Text) (i : ℕ) (s : Settlement) (db : Db)
      → find i db.settlements ≡ some (as_manual input fresh s)
      → Returns
          (λ _. Unit {0})
          (TakesOver source fresh s)
          (finish_manually x source input fresh finalize currency (i, as_manual input fresh s) db)
  unfolding finish_manually
  finish-TakesOver currency i s db e =
      bind-Returns (consume_wallet_reservation-Returns x _ _ _ _ db)
        λ d db1 (w, (_, _, (fw, wr)), _). rw wr (
          bind-Returns (weaken (create_ledger-Returns _ _ _) (λ _ _ q. q) (λ _ _. tt))
            λ _ db2 (_, fl, wl). rw wl (
              bind-Returns (weaken (update_settlement-Returns i _ _) (λ _ _ q. q) (λ _ _. tt))
                λ row db3 (s', made, (fs, ws)).
                  let same : s' ≡ as_manual input fresh s = cc in
                  rw ws (
                    bind-Returns (business row _ _) λ _ _ kept.
                      rw (made, same)
                        (returns (
                          refl,
                          refl,
                          (
                            manual_debit source input d (as_manual input fresh s),
                            rw kept.ledger (find-put_self _ _ _),
                            refl,
                            refl,
                          ),
                        )))))

  rewritten :
      (i : ℕ) (s : Settlement) (currency : Text) (db : Db)
      → find i db.settlements ≡ some s
      → Returns
          (λ _. Unit {0})
          (λ (j, r) db'.
            (j ≡ i)
            × (r ≡ as_manual input fresh s)
            × (find i db'.settlements ≡ some (as_manual input fresh s)))
          (write_manual source input fresh (some (i, s)) currency db)
  rewritten i s currency db found =
      bind-Returns (weaken (update_settlement-Returns i _ _) (λ _ _ q. q) (λ _ _. tt))
        λ row db2 (s', made, (fs, ws)).
          let same : s' ≡ s = cc in rw (made, ws, same) (returns (refl, refl, find-put_self _ _ _))

  settle-TakesOver :
      (i : ℕ) (s : Settlement) (db : Db)
      → find i db.settlements ≡ some s
      → Returns
          (λ _. Unit {0})
          (TakesOver source fresh s)
          (settle_manually x source input fresh finalize (some (i, s)) db)
  unfolding settle_manually
  settle-TakesOver i s db found =
      bind-Same _
        (weaken (assert_financial_currency-Returns source.currency source.currency db) (λ _ _ q. q)
          (λ _ _. tt))
        λ currency _.
          bind-Returns (reserve_wallet_balance-Returns x _ _ _ _ db) λ _ db1 (w, (_, t, (fw, wr))).
            rw wr (
              bind-Returns (rewritten i s currency _ found) λ (j, r) db3 (at_i, made, there).
                rw (at_i, made) (finish-TakesOver currency i s db3 there))

  -- A manual settlement that takes over a provider settlement which is only prepared, and returns,
  -- leaves on the settlement the wallet and the amount of the preparation, while the ledger has its
  -- debit on the wallet and with the amount of the new source.
  pub manual-TakesOver :
      (i : ℕ) (s : Settlement) (c : Completed T) (db db' : Db)
      → find_where (is_source source) db.settlements ≡ some (i, s)
      → is_replay input s ≡ false
      → complete_manual_settlement x source input fresh finalize db ≡ (ok c, db')
      → TakesOver source fresh s c db'
  unfolding complete_manual_settlement manual_body manual_existing
  manual-TakesOver i s c db db' found first e =
      outcome {Q = TakesOver source fresh s} c db'
        (bind-Same _ (assert_incident-Returns x _ _ db tt) λ _ _.
          catch-Returns {E = λ _. Unit {0}} _ _ db
            (transaction-Returns {E = λ _. Unit {0}} _ db tt (
              rw (found, first)
                (bind-Same _
                  (ensure-Returns (not (is_manual s.method) && is_prepared s.status) already_settled
                    db tt)
                  λ _ _.
                    bind-Same _
                      (weaken (assert_financial_currency-Returns source.currency s.currency db)
                        (λ _ _ q. q) (λ _ _. tt))
                      λ _ _.
                        settle-TakesOver i s db
                          (find_where-found (is_source source) db.settlements found).0)))
            (λ e db1 _. p2002_as-Returns settlement_identity_used e db1 tt))
        e
