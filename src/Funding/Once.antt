-- ===== src/Funding/Once.antt =====
-- A Paystack payment is paid into its wallet once.
use sinkronis_backend.Common.{ℕ, true, ◌≡◌, refl, some, ◌==◌, inl, inr, Bool-cases}
use sinkronis_backend.Common.Table.{find, find-put_self}
use sinkronis_backend.Database.{
  External, Db, Result, ok, err, ensure, update_wallet, create_ledger, missing, Wallet,
  WalletFunding, funding_mismatch, funding_in_progress, Returns, returns, raises, bind-Returns,
  bind-Same, weaken, require-Same, transaction-Returns, transaction, rolled_back, resume,
}
use sinkronis_backend.Audit.{Stamp, persist_audit_log-Returns}
use sinkronis_backend.Wallet.Calls.{owned_wallet, assert_financial_currency}
use sinkronis_backend.Settlement.Inputs.{Fresh, assert_incident_wallet_mutation_allowed}
use sinkronis_backend.Funding.Manual.{increment}
use sinkronis_backend.Funding.Paystack.{
  Verification, credit_entry, is_completed, is_open, as_claimed, as_completed, update_funding_where,
  matches_funding, completion_audit, funding_credit, replay_completed, pay_in, complete_funding,
  finalize_body, finalize_verified_paystack_funding,
}
use sinkronis_backend.Funding.Paid.{update_funding-Returns}

-- The funding `i` is complete, and is `a`.
abbrev IsDone : ℕ → WalletFunding → Db → Type 0
IsDone i a db = (find i db.fundings ≡ some a) × (is_completed a.status ≡ true)

-- A call of which only the result on a return is of interest.
any_call : {A : Type 0} (r : Result A × Db) → Returns (λ _. Unit {0}) (λ _ _. Unit {0}) r
any_call (ok a, db) = returns tt
any_call (err e, db) = raises tt

module _ (x : External) (i : ℕ) (v : Verification) (fresh : Fresh) (stamp : Stamp) where
  pay_in-IsDone :
      (a : WalletFunding) (wallet : Wallet) (db : Db)
      → Returns
          (λ _. Unit {0})
          (λ report. IsDone i report.funding)
          (pay_in x i v fresh stamp a wallet db)
  unfolding pay_in resume
  pay_in-IsDone a wallet db =
      bind-Returns (any_call (update_wallet a.wallet_account_id (increment a.amount) db))
        λ updated db1 _.
          bind-Returns
            (any_call (
              create_ledger fresh.ledger_id
                (funding_credit x i v fresh stamp a wallet.balance updated.balance) db1))
            λ _ db2 _.
              bind-Returns
                (weaken {R = λ r. IsDone i r}
                  (update_funding-Returns i (as_completed v fresh.now) db2)
                  (λ _ _ (b, made, wf). rw (made, wf) (find-put_self i _ db2.fundings, refl))
                  (λ _ _. tt))
                λ finished db3 done.
                  bind-Returns
                    (weaken
                      (persist_audit_log-Returns {K = IsDone i finished} (λ _ h _. h) x stamp
                        (completion_audit x i v fresh stamp finished) db3 done)
                      (λ _ _ q. q) (λ _ _. tt))
                    λ _ db4 done'. returns {db = db4} done'

  complete_funding-IsDone :
      (a : WalletFunding) (db : Db)
      → Returns
          (λ _. Unit {0})
          (λ report. IsDone i report.funding)
          (complete_funding x i v fresh stamp a db)
  unfolding complete_funding resume
  complete_funding-IsDone a db =
      bind-Returns (any_call (ensure (matches_funding i a v) funding_mismatch db)) λ _ db0 _.
        bind-Returns (any_call (update_funding_where i (λ b. is_open b.status) as_claimed db0))
          λ claimed db1 _.
            bind-Returns (any_call (ensure (claimed == 1) funding_in_progress db1)) λ _ db2 _.
              bind-Returns (any_call (owned_wallet a.organization_id a.wallet_account_id db2))
                λ wallet db3 _.
                  bind-Returns
                    (any_call (
                      assert_incident_wallet_mutation_allowed x a.organization_id
                        a.wallet_account_id db3))
                    λ _ db4 _.
                      bind-Returns
                        (any_call (assert_financial_currency a.currency wallet.currency db4))
                        λ _ db5 _. pay_in-IsDone a wallet db5

  finalize-IsDone :
      (db : Db)
      → Returns
          (λ _. Unit {0})
          (λ report. IsDone i report.funding)
          (finalize_body x i v fresh stamp db)
  unfolding finalize_body replay_completed resume
  finalize-IsDone db = bind-Same _ (require-Same (find i db.fundings) missing db tt) λ a e.
      elim (Bool-cases (is_completed a.status)) [
        | inl finished ↦ rw finished (returns {db = db} (e, finished))
        | inr open_row ↦ rw open_row (complete_funding-IsDone a db)
      ]

-- Once a call has returned, a later one with whatever verification reports the same funding as a
-- replay and writes nothing.
pub finalize_funding-once :
    (x : External) (i : ℕ) (v : Verification) (fresh : Fresh) (stamp : Stamp) (db : Db)
    → Returns
        (λ _. Unit {0})
        (λ report db'.
          (later : Verification) (again : Fresh) (at : Stamp)
          → finalize_verified_paystack_funding x i later again at db' ≡ (
            ok (record {
              funding = report.funding;
              entry = credit_entry i report.funding db';
              idempotent_replay = true;
            }),
            db',
          ))
        (finalize_verified_paystack_funding x i v fresh stamp db)
unfolding finalize_verified_paystack_funding finalize_body replay_completed resume transaction
    rolled_back
finalize_funding-once x i v fresh stamp db =
    weaken {E = λ _. Unit {0}}
      (transaction-Returns (finalize_body x i v fresh stamp) db tt
        (finalize-IsDone x i v fresh stamp db))
      (λ report db' (there, finished) later again at. rw (there, finished) refl) (λ _ _. tt)
