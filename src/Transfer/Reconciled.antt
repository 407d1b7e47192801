-- ===== src/Transfer/Reconciled.antt =====
-- Verifying a settlement with the provider keeps wallets, settlements and ledger in agreement.
use sinkronis_backend.Common.{
  ℕ, Bool, ◌≡◌, refl, Option, none, some, ◌==◌, ◌&&◌, ◌||◌, not, arith, is_set,
}
use sinkronis_backend.Common.Text.{Text}
use sinkronis_backend.Common.Table.{find}
use sinkronis_backend.Database.{
  Db, Action, Error, Result, ok, err, External, IsSign, Settlement, Returns, returns, raises,
  bind-Returns, bind-Same, weaken, branch-Returns, catch-Returns, require-Same, ensure-Returns,
  after_call, of_after, resume, missing, initiation_claimed, test_tenant_live,
}
use sinkronis_backend.Integrity.Sums.{IsSound}
use sinkronis_backend.Settlement.Inputs.{Fresh}
use sinkronis_backend.Transfer.Inputs.{TransferResult}
use sinkronis_backend.Transfer.Lease.{
  is_paystack, leased, claim_provider_settlement_reconciliation,
  release_provider_settlement_reconciliation,
}
use sinkronis_backend.Transfer.Provider.{
  Answers, throw_if, assert_tenant_provider_mode, finally, give_back,
}
use sinkronis_backend.Transfer.Ready.{
  AreRegular, Ready, KeepsMoney, update-Ready, update_where-Ready, update_where-IsSound,
}
use sinkronis_backend.Transfer.Reconcile.{
  is_not_found, is_ambiguous, is_uninitiated, is_held_until_after, as_unknown, as_attempted,
  apply_verified, start_transfer, initiate_missing, after_verify_error, reconcile_answer,
  reconcile_claimed, verify_and_reconcile_provider_settlement,
}
use sinkronis_backend.Transfer.Soundness.{apply_provider_transfer_result-IsSound}

leased-KeepsMoney : (lease_ms now token : ℕ) → KeepsMoney (leased lease_ms now token)
leased-KeepsMoney lease_ms now token s regular = (regular, λ j. refl)

as_attempted-KeepsMoney : (now : ℕ) → KeepsMoney (as_attempted now)
as_attempted-KeepsMoney now s regular = (regular, λ j. refl)

as_unknown-KeepsMoney : (reason : Text) (now : ℕ) → KeepsMoney (as_unknown reason now)
as_unknown-KeepsMoney reason now s (amount, orphaned) =
    ((amount, ground arith), λ j. ground (arith, orphaned))

give_back-IsSound :
    (i token : ℕ) (error : Option Text) (db : Db)
    → IsSound db
    → IsSound (give_back i token error db).1
unfolding give_back release_provider_settlement_reconciliation
give_back-IsSound i token error db sound = after_call (
    catch-Returns {E = IsSound} _ _ db (update_where-IsSound i _ _ db (λ j s. refl) sound)
      (λ e db' sound'. returns sound'))

give_back-Ready :
    (i token : ℕ) (error : Option Text) (db : Db)
    → Ready db
    → Returns Ready (λ _. Ready) (give_back i token error db)
unfolding give_back release_provider_settlement_reconciliation
give_back-Ready i token error db ready =
    catch-Returns {E = Ready} _ _ db
      (update_where-Ready i _ _ db (λ s regular. (regular, λ j. refl)) ready)
      (λ e db' ready'. returns ready')

finally-IsSound :
    {A B : Type 0} (m : Action A) (k : Action B) (db : Db)
    → IsSound (m db).1
    → ((db' : Db) → IsSound db' → IsSound (k db').1)
    → Returns IsSound (λ _. IsSound) (finally m k db)
unfolding finally
finally-IsSound m k db sound keeps = of_after _ (keeps _ sound)

pub throw_if-Same :
    {E : Db → Type 0} (e : Option Error) (db : Db)
    → E db
    → Returns E (λ _ db'. Unit {0} × (db' ≡ db)) (throw_if e db)
throw_if-Same none db h = returns (tt, refl)
throw_if-Same (some e) db h = raises h

pub tenant-Same :
    {E : Db → Type 0} (answers : Answers) (o : ℕ) (db : Db)
    → E db
    → Returns E (λ _ db'. Unit {0} × (db' ≡ db)) (assert_tenant_provider_mode answers o db)
unfolding assert_tenant_provider_mode resume
tenant-Same answers o db h =
    bind-Same _ (require-Same (find o db.organizations) missing db h) λ t _.
      weaken (ensure-Returns (not (t.is_test && not answers.is_test_mode)) test_tenant_live db h)
        (λ _ _ q. (tt, q.1)) (λ _ p. p)

module _ (x : External) (answers : Answers) (i token : ℕ) (fresh : Fresh) (released_first : Bool)
    (sign : IsSign x) where
  apply-IsSound :
      (s : Settlement) (result : TransferResult) (db : Db)
      → Ready db
      → Returns IsSound
          (λ _. IsSound)
          (apply_verified x answers i token fresh released_first s result db)
  unfolding apply_verified
  apply-IsSound s result db ready =
      branch-Returns released_first _ _ db
        (λ _.
          bind-Returns (weaken (give_back-Ready i token none db ready) (λ _ _ q. q) (λ _ q. q.0))
            λ _ db1 (sound1, regular1). of_after _ (
              apply_provider_transfer_result-IsSound x i result fresh s db1 sign (regular1 i)
                sound1))
        λ _.
          finally-IsSound _ _ db
            (apply_provider_transfer_result-IsSound x i result fresh s db sign (ready.1 i) ready.0)
            (give_back-IsSound i token none)

  start-IsSound :
      (s : Settlement) (r : Result TransferResult) (db : Db)
      → Ready db
      → Returns IsSound
          (λ _. IsSound)
          (start_transfer x answers i token fresh released_first s r db)
  unfolding start_transfer
  start-IsSound s (ok result) db ready =
      of_after _
        (apply_provider_transfer_result-IsSound x i result fresh s db sign (ready.1 i) ready.0)
  start-IsSound s (err e) db ready = raises ready.0

  initiate_missing-IsSound :
      (s : Settlement) (db : Db)
      → Ready db
      → Returns IsSound
          (λ _. IsSound)
          (initiate_missing x answers i token fresh released_first s db)
  unfolding initiate_missing
  initiate_missing-IsSound s db ready =
      bind-Same _ (throw_if-Same answers.blocked db ready.0) λ _ _.
        bind-Returns
          (weaken (update_where-Ready i _ _ db (as_attempted-KeepsMoney fresh.now) ready)
            (λ _ _ q. q) (λ _ q. q.0))
          λ n db1 ready1.
            bind-Same _ (ensure-Returns (n == 1) initiation_claimed db1 ready1.0)
              λ _ _. start-IsSound s answers.initiate db1 ready1

  after_error-IsSound :
      (s : Settlement) (e : Error) (db : Db)
      → Ready db
      → Returns IsSound
          (λ _. IsSound)
          (after_verify_error x answers i token fresh released_first s e db)
  unfolding after_verify_error
  after_error-IsSound s e db ready =
      branch-Returns (is_not_found e && is_uninitiated s) _ _ db
        (λ _.
          finally-IsSound _ _ db (after_call (initiate_missing-IsSound s db ready))
            (give_back-IsSound i token none))
        λ _.
          branch-Returns (is_ambiguous e || is_not_found e) _ _ db
            (λ _.
              finally-IsSound _ _ db
                (after_call (
                  weaken
                    (update-Ready i _ db (as_unknown-KeepsMoney (answers.message e) fresh.now)
                      ready)
                    (λ _ _ q. q.0) (λ _ q. q.0)))
                (give_back-IsSound i token none))
            (λ _.
              finally-IsSound _ _ db ready.0 (give_back-IsSound i token (some (answers.message e))))

  answer-IsSound :
      (s : Settlement) (r : Result TransferResult) (db : Db)
      → Ready db
      → Returns IsSound
          (λ _. IsSound)
          (reconcile_answer x answers i token fresh released_first s r db)
  unfolding reconcile_answer
  answer-IsSound s (ok result) db ready = apply-IsSound s result db ready
  answer-IsSound s (err e) db ready = after_error-IsSound s e db ready

  claimed-IsSound :
      (lease : Option (ℕ × ℕ)) (db : Db)
      → Ready db
      → Returns IsSound
          (λ _. IsSound)
          (reconcile_claimed x answers i token fresh released_first lease db)
  unfolding reconcile_claimed resume
  claimed-IsSound none db ready = raises ready.0
  claimed-IsSound (some _) db ready =
      bind-Same _ (require-Same (find i db.settlements) missing db ready.0) λ s _.
        branch-Returns
          (not (
            is_held_until_after token fresh.now s
            && (is_paystack s.provider_name && is_set s.transfer_reference)))
          _ _ db (λ _. raises ready.0)
          λ _.
            bind-Same _ (tenant-Same answers s.organization_id db ready.0)
              λ _ _. answer-IsSound s answers.verify db ready

claim-Ready :
    (lease_ms i now token : ℕ) (db : Db)
    → Ready db
    → Returns IsSound
        (λ _. Ready)
        (claim_provider_settlement_reconciliation lease_ms i now token db)
unfolding claim_provider_settlement_reconciliation
claim-Ready lease_ms i now token db ready =
    bind-Returns
      (weaken (update_where-Ready i _ _ db (leased-KeepsMoney lease_ms now token) ready)
        (λ _ _ q. q) (λ _ q. q.0))
      (λ _ _ ready1. returns ready1)

-- Verifying a settlement with the provider, whatever it answers, in either order of the lease's return
-- and the result's application, and however the call ends, keeps wallets, settlements and ledger in
-- agreement, if no settlement has a negative amount or an orphaned reservation.
pub verify_and_reconcile-IsSound :
    (x : External) (answers : Answers) (i token : ℕ) (fresh : Fresh) (released_first : Bool)
    (lease_ms : ℕ) (supplied : Bool) (db : Db)
    → IsSign x
    → IsSound db
    → AreRegular db
    → IsSound
        (verify_and_reconcile_provider_settlement x answers i token fresh released_first lease_ms
          supplied db).1
unfolding verify_and_reconcile_provider_settlement
verify_and_reconcile-IsSound x answers i token fresh released_first lease_ms supplied db sign sound
      regular =
    after_call (
      bind-Returns
        (branch-Returns supplied _ _ db (λ _. returns (sound, regular))
          (λ _. claim-Ready lease_ms i fresh.now token db (sound, regular)))
        λ lease db1 ready.
          claimed-IsSound x answers i token fresh released_first sign lease db1 ready)
