-- ===== src/Funding/Soundness.antt =====
-- Funding a wallet keeps wallets, settlements and ledger in agreement.
use sinkronis_backend.Common.{
  ℕ, arith, ◌≡◌, refl, Option, none, some, ◌==◌, if◌then◌else◌, inl, inr, Option-cases,
}
use sinkronis_backend.Common.Int.{ℤ, pos, ◌+ℤ◌, ◌-ℤ◌, ◌≤ℤ◌, int_laws}
use sinkronis_backend.Common.Table.{find, find_where, put}
use sinkronis_backend.Database.{
  External, Db, AuditTrail, Error, conflict, missing, p2002, p2003, p2025, mail_failed,
  provider_error, Wallet, WalletTransaction, Returns, returns, raises, bind-Returns, bind-Same,
  branch-Returns, weaken, transaction-Returns, catch-Returns, resume, update_wallet-Returns,
  create_ledger-Returns, after_call, transaction,
}
use sinkronis_backend.Settlement.Soundness.{SameMoney-IsSoundBy}
use sinkronis_backend.Audit.{with_audit, persist_audit_log-Returns}
use sinkronis_backend.Wallet.Balance.{owned_wallet-Returns}
use sinkronis_backend.Integrity.Checks.{entered}
use sinkronis_backend.Integrity.Sums.{
  IsSound, at, wallet-IsSoundBy, entry-IsSoundBy, settle-IsSoundBy,
}
use sinkronis_backend.Settlement.Inputs.{Fresh}
use sinkronis_backend.Settlement.Reads.{assert_incident-Returns}
use sinkronis_backend.Funding.Manual.{
  FundingInput, increment, has_external_reference, is_same_funding, manual_credit, funding_audit,
  replay_funding, credit_wallet, fund_or_replay, fund_in_transaction, replay_or_refuse,
  after_funding_error, fund_wallet_manually,
}

-- The wallet gains what the entry says.
abbrev pub IsCreditOf : ℕ → ℤ → WalletTransaction → Type 0
IsCreditOf k amount row = (j : ℕ) → entered j row ≡ (if k == j then amount else pos 0)

credit_settles : (k j : ℕ) (a : ℤ) → pos 0 +ℤ at k a j -ℤ (if k == j then a else pos 0) ≡ pos 0
credit_settles k j a = grind int_laws

nothing_held : (k j : ℕ) → pos 0 +ℤ at k (pos 0) j ≡ pos 0
nothing_held k j = grind int_laws

keeps_cover : (a b r : ℤ) → pos 0 ≤ℤ a → r ≤ℤ b → r ≤ℤ b +ℤ a
keeps_cover a b r p h = omega int_laws

add_zero : (a : ℤ) → a ≡ a +ℤ pos 0
add_zero a = omega int_laws

-- The audit log holds no money.
pub audit_apart : (db : Db) → IsSound db → (t : AuditTrail) → IsSound (with_audit t db)
audit_apart db h t =
    SameMoney-IsSoundBy (record { wallets = refl; settlements = refl; ledger = refl }) h

-- A wallet is credited and the ledger says so.
pub credit-IsSound :
    (db : Db) (k i : ℕ) (w : Wallet) (amount : ℤ) (row : WalletTransaction)
    → IsSound db
    → pos 0 ≤ℤ amount
    → IsCreditOf k amount row
    → find k db.wallets ≡ some w
    → find i db.ledger ≡ none
    → IsSound (record db {
      wallets = put k (increment amount w) db.wallets;
      ledger = put i row db.ledger;
    })
credit-IsSound db k i w amount row sound positive entry found free =
    settle-IsSoundBy _ (nothing_held k) (λ j. rw (entry j) (credit_settles k j amount))
      (entry-IsSoundBy _ i row
        (wallet-IsSoundBy db k w (increment amount w) (pos 0) amount sound found
          (add_zero w.reserved_balance) refl
          (keeps_cover amount w.balance w.reserved_balance positive))
        free)

module _ (x : External) (input : FundingInput) (fresh : Fresh) where
  open input use {organization_id, wallet_account_id, amount}

  credit_wallet-IsSound :
      (wallet : Wallet) (db : Db)
      → IsSound db
      → Returns (λ _. Unit {0}) (λ _. IsSound) (credit_wallet x input fresh wallet db)
  unfolding credit_wallet resume
  credit_wallet-IsSound wallet db sound =
      bind-Returns
        (weaken (update_wallet-Returns wallet_account_id (increment (pos (x.column amount))) db)
          (λ _ _ q. q) (λ _ _. tt))
        λ updated db1 (w, _, fw, ww). rw ww (
          bind-Returns
            (weaken
              (create_ledger-Returns fresh.ledger_id
                (manual_credit x input fresh wallet.balance updated.balance) _)
              (λ _ _ q. q) (λ _ _. tt))
            λ _ db2 (_, free, wl). rw wl (
              bind-Returns
                (weaken
                  (persist_audit_log-Returns audit_apart x input.stamp (funding_audit x input fresh)
                    _
                    (credit-IsSound db wallet_account_id fresh.ledger_id w (pos (x.column amount))
                      (manual_credit x input fresh wallet.balance updated.balance) sound
                      (omega arith) (λ j. refl) fw free))
                  (λ _ _ q. q) (λ _ _. tt))
                λ _ db3 sound'. returns {db = db3} sound'))

  replay_funding-Returns :
      {P : Db → Type 0} (existing : WalletTransaction) (db : Db)
      → P db
      → Returns P (λ _. P) (replay_funding x input fresh existing db)
  unfolding replay_funding
  replay_funding-Returns existing db h =
      branch-Returns (is_same_funding x input fresh existing) _ _ db (λ _. returns h)
        (λ _. raises h)

  fund_or_replay-IsSound :
      (wallet : Wallet) (existing : Option (ℕ × WalletTransaction)) (db : Db)
      → IsSound db
      → Returns (λ _. Unit {0}) (λ _. IsSound) (fund_or_replay x input fresh wallet existing db)
  unfolding fund_or_replay
  fund_or_replay-IsSound wallet none db sound = credit_wallet-IsSound wallet db sound
  fund_or_replay-IsSound wallet (some (_, existing)) db sound =
      weaken (replay_funding-Returns existing db sound) (λ _ _ q. q) (λ _ _. tt)

  fund_in_transaction-IsSound :
      (db : Db)
      → IsSound db
      → Returns (λ _. Unit {0}) (λ _. IsSound) (fund_in_transaction x input fresh db)
  unfolding fund_in_transaction resume
  fund_in_transaction-IsSound db sound =
      bind-Same _
        (weaken (owned_wallet-Returns organization_id wallet_account_id db) (λ _ _ q. q)
          (λ _ _. tt))
        λ wallet _.
          bind-Same _ (assert_incident-Returns x organization_id wallet_account_id db tt)
            λ _ _. fund_or_replay-IsSound wallet _ db sound

  after_funding_error-IsSound :
      (e : Error) (db : Db)
      → IsSound db
      → Returns IsSound (λ _. IsSound) (after_funding_error x input fresh e db)
  unfolding after_funding_error replay_or_refuse resume
  after_funding_error-IsSound p2002 db sound =
      elim (Option-cases (find_where (has_external_reference x input fresh) db.ledger)) [
        | inl absent ↦ rw (absent, replay_or_refuse) (raises sound)
        | inr ((_, existing), e) ↦
            rw (e, replay_or_refuse) (replay_funding-Returns existing db sound)
      ]
  after_funding_error-IsSound (conflict _) db sound = raises sound
  after_funding_error-IsSound missing db sound = raises sound
  after_funding_error-IsSound p2003 db sound = raises sound
  after_funding_error-IsSound p2025 db sound = raises sound
  after_funding_error-IsSound mail_failed db sound = raises sound
  after_funding_error-IsSound (provider_error _ _) db sound = raises sound

  -- Funding a wallet by hand, or failing to, keeps wallets, settlements and ledger in agreement.
  pub fund_wallet_manually-IsSound :
      (db : Db) → IsSound db → IsSound (fund_wallet_manually x input fresh db).1
  unfolding fund_wallet_manually
  fund_wallet_manually-IsSound db sound = after_call (
      catch-Returns (transaction (fund_in_transaction x input fresh))
        (after_funding_error x input fresh) db
        (transaction-Returns (fund_in_transaction x input fresh) db sound
          (fund_in_transaction-IsSound db sound))
        after_funding_error-IsSound)
