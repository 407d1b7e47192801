-- ===== src/Webhook/Delivered.antt =====
-- Processing a stored event keeps wallets, settlements and ledger in agreement.
use sinkronis_backend.Common.{ℕ, Bool, refl, Option, none, some, not, inl, inr, Option-cases}
use sinkronis_backend.Common.Int.{ℤ}
use sinkronis_backend.Common.Table.{find, find_where}
use sinkronis_backend.Database.{
  Db, External, IsSign, Settlement, WebhookEvent, Payload, Returns, returns, raises, bind-Returns,
  bind-Same, weaken, branch-Returns, catch-Returns, require-Same, after_call, of_after, resume,
  p2025,
}
use sinkronis_backend.Integrity.Sums.{IsSound}
use sinkronis_backend.Settlement.Inputs.{Fresh}
use sinkronis_backend.Settlement.Soundness.{SameMoney-IsSoundBy}
use sinkronis_backend.Transfer.Inputs.{TransferResult}
use sinkronis_backend.Transfer.Soundness.{apply_provider_transfer_result-IsSound}
use sinkronis_backend.Transfer.Ready.{AreRegular, Ready}
use sinkronis_backend.Webhook.Inbox.{Env, update_event_where, claim_paystack_transfer_webhook}
use sinkronis_backend.Webhook.Effects.{update_event_where-Returns}
use sinkronis_backend.Webhook.Process.{
  Report, read_payload, is_live_claim, is_reported_by, is_early_reversal,
  map_paystack_transfer_status, unsupported_status, deliver, deliver_report, deliver_event,
  deliver_claimed, process_stored_paystack_transfer_webhook,
}

inbox-Ready :
    (i : ℕ) (p : WebhookEvent → Bool) (f : WebhookEvent → WebhookEvent) (db : Db)
    → Ready db
    → Returns IsSound (λ _. Ready) (update_event_where i p f db)
inbox-Ready i p f db (sound, regular) =
    weaken (update_event_where-Returns i p f db)
      (λ n db' q. elim q [
        | inl (_, w) ↦ rw w (sound, regular)
        | inr (e, _, _, w) ↦ rw w (
          SameMoney-IsSoundBy (record { wallets = refl; settlements = refl; ledger = refl }) sound,
          regular,
        )
      ])
      (λ _ never. elim never [ ])

inbox-IsSound :
    (i : ℕ) (p : WebhookEvent → Bool) (f : WebhookEvent → WebhookEvent) (db : Db)
    → IsSound db
    → Returns IsSound (λ _. IsSound) (update_event_where i p f db)
inbox-IsSound i p f db sound =
    weaken (update_event_where-Returns i p f db)
      (λ n db' q. elim q [
        | inl (_, w) ↦ rw w sound
        | inr (e, _, _, w) ↦ rw w (
            SameMoney-IsSoundBy (record { wallets = refl; settlements = refl; ledger = refl })
              sound)
      ])
      (λ _ never. elim never [ ])

module _ (x : External) (env : Env) (i token : ℕ) (fresh : Fresh) (sign : IsSign x) where
  deliver-IsSound :
      (attempts : ℤ) (k : ℕ) (s : Settlement) (result : TransferResult) (db : Db)
      → Ready db
      → Returns IsSound (λ _. IsSound) (deliver x env i token fresh attempts (k, s) result db)
  unfolding deliver
  deliver-IsSound attempts k s result db (sound, regular) =
      branch-Returns (is_early_reversal s result.state) _ _ db
        (λ _. bind-Returns (inbox-IsSound i _ _ db sound) (λ _ _ sound1. returns sound1))
        λ _.
          catch-Returns _ _ db
            (bind-Returns
              (of_after _ (
                apply_provider_transfer_result-IsSound x k result fresh s db sign (regular k)
                  sound))
              λ _ db1 sound1.
                bind-Returns (inbox-IsSound i _ _ db1 sound1) (λ _ _ sound2. returns sound2))
            λ e db1 sound1.
              bind-Returns (inbox-IsSound i _ _ db1 sound1) (λ _ _ sound2. raises sound2)

  deliver_report-IsSound :
      (attempts : ℤ) (payload : Payload) (report : Report) (db : Db)
      → Ready db
      → Returns IsSound
          (λ _. IsSound)
          (deliver_report x env i token fresh attempts payload report db)
  unfolding deliver_report resume
  deliver_report-IsSound attempts payload report db ready =
      elim (Option-cases (find_where (is_reported_by report.reference) db.settlements)) [
        | inl absent ↦
            rw absent (bind-Returns (inbox-IsSound i _ _ db ready.0) (λ _ _ sound1. returns sound1))
        | inr ((k, s), there) ↦ rw there (
            bind-Same _
              (require-Same (map_paystack_transfer_status report.status) unsupported_status db
                ready.0)
              λ state _. deliver-IsSound attempts k s _ db ready)
      ]

  deliver_event-IsSound :
      (attempts : ℤ) (o : Option WebhookEvent) (db : Db)
      → Ready db
      → Returns IsSound (λ _. IsSound) (deliver_event x env i token fresh attempts o db)
  unfolding deliver_event
  deliver_event-IsSound attempts none db ready = returns ready.0
  deliver_event-IsSound attempts (some e) db ready =
      branch-Returns (not (is_live_claim token fresh.now e)) _ _ db (λ _. returns ready.0)
        λ _. elim (Option-cases (read_payload e.payload)) [
          | inl broken ↦
              rw broken
                (bind-Returns (inbox-IsSound i _ _ db ready.0) (λ _ _ sound1. returns sound1))
          | inr (report, read) ↦ rw read (deliver_report-IsSound attempts e.payload report db ready)
        ]

  deliver_claimed-IsSound :
      (attempts : ℤ) (lease : Option (ℕ × ℕ)) (db : Db)
      → Ready db
      → Returns IsSound (λ _. IsSound) (deliver_claimed x env i token fresh attempts lease db)
  unfolding deliver_claimed resume
  deliver_claimed-IsSound attempts none db ready = returns ready.0
  deliver_claimed-IsSound attempts (some _) db ready =
      deliver_event-IsSound attempts (find i db.webhooks) db ready

claim-Ready :
    (env : Env) (i now token : ℕ) (db : Db)
    → Ready db
    → Returns IsSound (λ _. Ready) (claim_paystack_transfer_webhook env i now token db)
unfolding claim_paystack_transfer_webhook
claim-Ready env i now token db ready =
    bind-Returns (inbox-Ready i _ _ db ready) (λ _ _ ready1. returns ready1)

-- Processing a stored event, whatever it reports and however the call ends, keeps wallets, settlements
-- and ledger in agreement, if no settlement has a negative amount or an orphaned reservation.
pub process_stored-IsSound :
    (x : External) (env : Env) (i token : ℕ) (fresh : Fresh) (supplied : Bool) (db : Db)
    → IsSign x
    → IsSound db
    → AreRegular db
    → IsSound (process_stored_paystack_transfer_webhook x env i token fresh supplied db).1
unfolding process_stored_paystack_transfer_webhook resume
process_stored-IsSound x env i token fresh supplied db sign sound regular = after_call (
    bind-Same _ (require-Same (find i db.webhooks) p2025 db sound) λ initial _.
      bind-Returns
        (branch-Returns supplied _ _ db (λ _. returns (sound, regular))
          (λ _. claim-Ready env i fresh.now token db (sound, regular)))
        λ lease db1 ready.
          deliver_claimed-IsSound x env i token fresh sign initial.attempts lease db1 ready)
