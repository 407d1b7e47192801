-- ===== src/Funding/Paid.antt =====
-- A verified Paystack payment keeps wallets, settlements and ledger in agreement.
use sinkronis_backend.Common.{ℕ, Bool, ◌≡◌, refl, some, ◌==◌, inl, inr, Option-cases, Bool-cases}
use sinkronis_backend.Common.Int.{pos, ◌≤ℤ◌}
use sinkronis_backend.Common.Table.{Table, find, put}
use sinkronis_backend.Database.{
  External, Db, missing, Wallet, WalletFunding, funding_mismatch, funding_in_progress, Returns,
  returns, raises, bind-Returns, bind-Same, branch-Returns, weaken, require-Same, ensure-Returns,
  transaction-Returns, resume, update_wallet-Returns, create_ledger-Returns, after_call,
}
use sinkronis_backend.Audit.{Stamp, persist_audit_log-Returns}
use sinkronis_backend.Wallet.Balance.{owned_wallet-Returns, assert_financial_currency-Returns}
use sinkronis_backend.Integrity.Sums.{IsSound}
use sinkronis_backend.Settlement.Inputs.{Fresh}
use sinkronis_backend.Settlement.Reads.{assert_incident-Returns}
use sinkronis_backend.Settlement.Soundness.{SameMoney-IsSoundBy}
use sinkronis_backend.Funding.Manual.{increment}
use sinkronis_backend.Funding.Soundness.{audit_apart, credit-IsSound}
use sinkronis_backend.Funding.Paystack.{
  Verification, is_completed, is_open, as_claimed, as_completed, with_fundings,
  update_funding_where, update_funding, matches_funding, completion_audit, funding_credit,
  replay_completed, pay_in, complete_funding, finalize_body, finalize_verified_paystack_funding,
}

fundings-IsSound : (db : Db) (t : Table WalletFunding) → IsSound db → IsSound (with_fundings t db)
fundings-IsSound db t h =
    SameMoney-IsSoundBy (record { wallets = refl; settlements = refl; ledger = refl }) h

pub update_funding-Returns :
    (i : ℕ) (f : WalletFunding → WalletFunding) (db : Db)
    → Returns
        (λ db'. db' ≡ db)
        (λ r db'.
          (a : WalletFunding) × (r ≡ f a) × (db' ≡ with_fundings (put i (f a) db.fundings) db))
        (update_funding i f db)
unfolding update_funding
update_funding-Returns i f db = elim (Option-cases (find i db.fundings)) [
  | inl absent ↦ rw (absent, update_funding) (raises refl)
  | inr (a, e) ↦ rw (e, update_funding) (returns (a, refl, refl))
]

update_funding_where-IsSound :
    (i : ℕ) (p : WalletFunding → Bool) (f : WalletFunding → WalletFunding) (db : Db)
    → IsSound db
    → Returns (λ _. Unit {0}) (λ _. IsSound) (update_funding_where i p f db)
unfolding update_funding_where
update_funding_where-IsSound i p f db h = elim (Option-cases (find i db.fundings)) [
  | inl absent ↦ rw (absent, update_funding_where) (returns h)
  | inr (a, e) ↦ elim (Bool-cases (p a)) [
    | inl holds ↦ rw (e, holds, update_funding_where) (returns (fundings-IsSound db _ h))
    | inr fails ↦ rw (e, fails, update_funding_where) (returns h)
  ]
]

module _ (x : External) (i : ℕ) (v : Verification) (fresh : Fresh) (stamp : Stamp) where
  pay_in-IsSound :
      (a : WalletFunding) (wallet : Wallet) (db : Db)
      → pos 0 ≤ℤ a.amount
      → IsSound db
      → Returns (λ _. Unit {0}) (λ _. IsSound) (pay_in x i v fresh stamp a wallet db)
  unfolding pay_in resume
  pay_in-IsSound a wallet db positive sound =
      bind-Returns
        (weaken (update_wallet-Returns a.wallet_account_id (increment a.amount) db) (λ _ _ q. q)
          (λ _ _. tt))
        λ updated db1 (w, _, fw, ww). rw ww (
          bind-Returns
            (weaken
              (create_ledger-Returns fresh.ledger_id
                (funding_credit x i v fresh stamp a wallet.balance updated.balance) _)
              (λ _ _ q. q) (λ _ _. tt))
            λ _ db2 (_, free, wl). rw wl (
              bind-Returns
                (weaken (update_funding-Returns i (as_completed v fresh.now) _)
                  (λ _ _ (b, _, wf). rw wf (
                    fundings-IsSound _ _ (
                      credit-IsSound db a.wallet_account_id fresh.ledger_id w a.amount
                        (funding_credit x i v fresh stamp a wallet.balance updated.balance) sound
                        positive (λ j. refl) fw free)))
                  (λ _ _. tt))
                λ finished db3 sound'.
                  bind-Returns
                    (weaken
                      (persist_audit_log-Returns audit_apart x stamp
                        (completion_audit x i v fresh stamp finished) db3 sound')
                      (λ _ _ q. q) (λ _ _. tt))
                    λ _ db4 sound''. returns {db = db4} sound''))

  complete_funding-IsSound :
      (a : WalletFunding) (db : Db)
      → pos 0 ≤ℤ a.amount
      → IsSound db
      → Returns (λ _. Unit {0}) (λ _. IsSound) (complete_funding x i v fresh stamp a db)
  unfolding complete_funding resume
  complete_funding-IsSound a db positive sound =
      bind-Same _ (ensure-Returns (matches_funding i a v) funding_mismatch db tt) λ _ _.
        bind-Returns (update_funding_where-IsSound i (λ b. is_open b.status) as_claimed db sound)
          λ claimed db1 sound1.
            bind-Same _ (ensure-Returns (claimed == 1) funding_in_progress db1 tt) λ _ _.
              bind-Same _
                (weaken (owned_wallet-Returns a.organization_id a.wallet_account_id db1)
                  (λ _ _ q. q) (λ _ _. tt))
                λ wallet _.
                  bind-Same _
                    (assert_incident-Returns x a.organization_id a.wallet_account_id db1 tt)
                    λ _ _.
                      bind-Same _
                        (weaken (assert_financial_currency-Returns a.currency wallet.currency db1)
                          (λ _ _ q. q) (λ _ _. tt))
                        λ _ _. pay_in-IsSound a wallet db1 positive sound1

  -- Finalising a Paystack funding whose amount is not negative, or failing to, keeps wallets,
  -- settlements and ledger in agreement.
  pub finalize_funding-IsSound :
      (db : Db)
      → ((a : WalletFunding) → find i db.fundings ≡ some a → pos 0 ≤ℤ a.amount)
      → IsSound db
      → IsSound (finalize_verified_paystack_funding x i v fresh stamp db).1
  unfolding finalize_verified_paystack_funding finalize_body replay_completed resume
  finalize_funding-IsSound db positive sound = after_call (
      transaction-Returns (finalize_body x i v fresh stamp) db sound (
        bind-Same _ (require-Same (find i db.fundings) missing db tt) λ a e.
          branch-Returns (is_completed a.status) _ _ db (λ _. returns {db = db} sound)
            (λ _. complete_funding-IsSound a db (positive a e) sound)))
