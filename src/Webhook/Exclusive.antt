-- ===== src/Webhook/Exclusive.antt =====
-- One worker at a time has a stored event, and what becomes of one whose status is unknown.
use sinkronis_backend.Common.{
  ℕ, true, false, ◌≡◌, refl, Option, none, some, ◌+◌, ◌<◌, ◌≤◌, arith, inl, inr,
}
use sinkronis_backend.Common.Text.{text_eq, codes}
use sinkronis_backend.Common.Table.{find, find_where, put, find-put_self}
use sinkronis_backend.Database.{
  Db, External, Settlement, WebhookEvent, processing, Returns, returns, bind-Returns, weaken, ok,
  err, resume,
}
use sinkronis_backend.Settlement.Inputs.{Fresh}
use sinkronis_backend.Transfer.Once.{outcome}
use sinkronis_backend.Webhook.Inbox.{
  Env, is_eligible, as_claimed, update_event_where, claim_paystack_transfer_webhook,
}
use sinkronis_backend.Webhook.Effects.{update_event_where-Returns}
use sinkronis_backend.Webhook.Process.{
  Report, read_payload, is_live_claim, is_reported_by, map_paystack_transfer_status,
  unsupported_status, deliver_report, deliver_event, deliver_claimed,
  process_stored_paystack_transfer_webhook,
}

-- The event `i` is being processed, under a lease that ends at `t`.
abbrev pub ProcessedUntil : ℕ → ℕ → Db → Type 0
ProcessedUntil i t db =
    (e : WebhookEvent) × (find i db.webhooks ≡ some e)
    × (e.status ≡ processing)
    × (e.lease_expires_at ≡ some t)

claimed_end :
    (env : Env) (i now token : ℕ) (e : WebhookEvent) (db : Db) (t u : ℕ)
    → ◌≡◌ {A = Option (ℕ × ℕ)} (some (token, now + env.processing_lease_ms)) (some (t, u))
    → (u ≡ now + env.processing_lease_ms)
      × ProcessedUntil i u (record db { webhooks = put i (as_claimed env now token e) db.webhooks })
claimed_end env i now token e db t u h =
    let ends : u ≡ now + env.processing_lease_ms = cc in
    rw ends (refl, (as_claimed env now token e, find-put_self _ _ _, refl, refl))

claim-ProcessedUntil :
    (env : Env) (i now token : ℕ) (db : Db)
    → Returns
        (λ _. Unit {0})
        (λ c db'.
          (t u : ℕ)
          → c ≡ some (t, u)
          → (u ≡ now + env.processing_lease_ms) × ProcessedUntil i u db')
        (claim_paystack_transfer_webhook env i now token db)
unfolding claim_paystack_transfer_webhook
claim-ProcessedUntil env i now token db =
    bind-Returns
      (weaken (update_event_where-Returns i _ (as_claimed env now token) db) (λ _ _ q. q)
        (λ _ _. tt))
      λ n db' q. elim q [
        | inl (zero_rows, w) ↦ rw zero_rows (returns (λ t u e. cc))
        | inr (e, one_row, _, w) ↦ rw (one_row, w) (returns (claimed_end env i now token e db))
      ]

claim-excluded :
    (env : Env) (i later token t : ℕ) (db : Db)
    → ProcessedUntil i t db
    → later < t
    → claim_paystack_transfer_webhook env i later token db ≡ (ok none, db)
unfolding claim_paystack_transfer_webhook update_event_where resume
claim-excluded env i later token t db (e, found, busy, ends) before =
    let early : is_eligible env later e ≡ false = rw (busy, ends) (ground arith) in ground arith

-- While a worker has a stored event, no other claim of it succeeds: it reports that there is nothing to
-- claim, and writes nothing. The claim lasts for the configured lease.
pub claim-excludes :
    (env : Env) (i now token later other t u : ℕ) (db db' : Db)
    → claim_paystack_transfer_webhook env i now token db ≡ (ok (some (t, u)), db')
    → later < now + env.processing_lease_ms
    → claim_paystack_transfer_webhook env i later other db' ≡ (ok none, db')
claim-excludes env i now token later other t u db db' e before =
    let (ends, held) =
      outcome (some (t, u)) db' (claim-ProcessedUntil env i now token db) e t u refl in
    claim-excluded env i later other u db' held (rw ends before)

module _ (x : External) (env : Env) (i token lease_end : ℕ) (fresh : Fresh) (e : WebhookEvent)
    (report : Report) (k : ℕ) (s : Settlement) (db : Db) where
  -- An event that reports a status which the code does not know, of a settlement that exists, raises
  -- each time it is processed, and writes nothing: it stays claimed. Once the lease has ended it can
  -- be claimed again, whatever the number of its attempts, so it never becomes a dead letter.
  pub unsupported_status_recurs :
      find i db.webhooks ≡ some e
      → text_eq e.provider (codes "PAYSTACK") ≡ true
      → e.status ≡ processing
      → e.lease_expires_at ≡ some lease_end
      → is_live_claim token fresh.now e ≡ true
      → read_payload e.payload ≡ some report
      → find_where (is_reported_by report.reference) db.settlements ≡ some (k, s)
      → map_paystack_transfer_status report.status ≡ none
      → (process_stored_paystack_transfer_webhook x env i token fresh true db
          ≡ (err unsupported_status, db))
        × ((later : ℕ) → lease_end ≤ later → is_eligible env later e ≡ true)
  unfolding process_stored_paystack_transfer_webhook deliver_claimed deliver_event deliver_report
      resume
  unsupported_status_recurs found paystack busy ends live read settled unknown = (
    rw (found, found, live, read, settled, unknown) refl,
    λ later after. rw (paystack, busy, ends) (ground (arith, after)),
  )
