-- ===== src/Request/Disbursed.antt =====
-- Disbursing a payment request by hand keeps wallets, settlements and ledger in agreement.
use sinkronis_backend.Common.{ℕ, ◌≡◌, refl, Option, none, some, ◌==◌, inl, inr, Option-cases}
use sinkronis_backend.Common.Table.{find, find_where}
use sinkronis_backend.Database.{
  Db, External, PaymentRequest, Returns, returns, raises, bind-Returns, bind-Same, weaken,
  branch-Returns, require-Same, ensure-Returns, after_call, of_after, resume, missing, p2025,
  request_settled, only_approved, destination_incomplete,
}
use sinkronis_backend.Wallet.Balance.{owned_wallet-Returns}
use sinkronis_backend.Integrity.Sums.{IsSound}
use sinkronis_backend.Settlement.Inputs.{ManualInput, Fresh}
use sinkronis_backend.Settlement.Manual.{same_reference}
use sinkronis_backend.Settlement.Soundness.{IsBusinessOnly, complete_manual_settlement-IsSound}
use sinkronis_backend.Transfer.Obligations.{update_request_where-IsBusiness}
use sinkronis_backend.Transfer.Result.{is_approved, is_paid}
use sinkronis_backend.Request.Decide.{request_owned}
use sinkronis_backend.Request.Disburse.{
  has_destination, source_of, mark_paid, is_same_disbursement, replay_disbursement, request_after,
  settle_request, disburse_payment_request_manually,
}

request_owned-Same :
    {E : Db → Type 0} (o i : ℕ) (db : Db)
    → E db
    → Returns E (λ _ db'. Unit {0} × (db' ≡ db)) (request_owned o i db)
unfolding request_owned resume
request_owned-Same o i db h =
    bind-Same _ (require-Same (find i db.payment_requests) missing db h) λ r _.
      branch-Returns (r.organization_id == o) _ _ db (λ _. returns (tt, refl)) (λ _. raises h)

module _ (x : External) (o i k : ℕ) (input : ManualInput) (fresh : Fresh) where
  mark_paid-IsBusinessOnly : IsBusinessOnly (mark_paid x o i k input fresh)
  unfolding mark_paid resume
  mark_paid-IsBusinessOnly s ledger db =
      bind-Returns (update_request_where-IsBusiness i _ _ db) λ n db1 same.
        bind-Same _ (ensure-Returns (n == 1) request_settled db1 tt) λ _ _.
          weaken (require-Same (find i db1.payment_requests) p2025 db1 tt) (λ _ _ (_, w). rw w same)
            (λ _ q. q)

  replay-IsSound :
      (current : PaymentRequest) (db : Db)
      → IsSound db
      → Returns IsSound (λ _. IsSound) (replay_disbursement x o i k input fresh current db)
  unfolding replay_disbursement resume
  replay-IsSound current db sound =
      elim (Option-cases (find_where (is_same_disbursement x o i k input fresh) db.settlements)) [
        | inl absent ↦ rw absent (
            bind-Same _
              (ensure-Returns (same_reference current.disbursement_reference input.idempotency_key)
                request_settled db sound)
              (λ _ _. returns sound))
        | inr (_, there) ↦ rw there (returns sound)
      ]

  after-IsSound :
      (r : Option PaymentRequest) (db : Db)
      → IsSound db
      → Returns IsSound (λ _ db'. Unit {0} × (db' ≡ db)) (request_after x o i k input fresh r db)
  unfolding request_after
  after-IsSound (some r) db sound = returns (tt, refl)
  after-IsSound none db sound = request_owned-Same o i db sound

  settle-IsSound :
      (current : PaymentRequest) (db : Db)
      → IsSound db
      → Returns IsSound (λ _. IsSound) (settle_request x o i k input fresh current db)
  unfolding settle_request
  settle-IsSound current db sound =
      bind-Same _ (ensure-Returns (is_approved current.status) only_approved db sound) λ _ _.
        bind-Same _ (ensure-Returns (has_destination current) destination_incomplete db sound)
          λ _ _.
            bind-Returns (weaken (owned_wallet-Returns o k db) (λ _ _ q. q) (λ _ w. rw w sound))
              λ _ db1 (_, w). rw w (
                bind-Returns
                  (of_after _ (
                    complete_manual_settlement-IsSound x (source_of o k i current) input fresh _ db
                      mark_paid-IsBusinessOnly sound))
                  λ manual db2 sound2.
                    bind-Same _ (after-IsSound manual.result db2 sound2) (λ _ _. returns sound2))

-- Disbursing a payment request by hand, or refusing to, keeps wallets, settlements and ledger in
-- agreement.
pub disburse_manually-IsSound :
    (x : External) (o i k : ℕ) (input : ManualInput) (fresh : Fresh) (db : Db)
    → IsSound db
    → IsSound (disburse_payment_request_manually x o i k input fresh db).1
unfolding disburse_payment_request_manually
disburse_manually-IsSound x o i k input fresh db sound = after_call (
    bind-Same _ (request_owned-Same o i db sound) λ current _.
      branch-Returns (is_paid current.status) _ _ db
        (λ _. replay-IsSound x o i k input fresh current db sound)
        (λ _. settle-IsSound x o i k input fresh current db sound))
