-- ===== src/Webhook/Inbox.antt =====
-- The stored events and their claim: `claimPaystackTransferWebhook` of
-- src/core/paystack-transfer-webhook.ts.
use sinkronis_backend.Common.{
  ℕ, Bool, false, Option, none, some, ◌+◌, ◌*◌, ◌^◌, min, ◌==◌, ◌&&◌, leb, if◌then◌else◌,
}
use sinkronis_backend.Common.Int.{ℤ, pos, pos_part, ◌+ℤ◌, ◌-ℤ◌, ltb_ℤ}
use sinkronis_backend.Common.Text.{text_eq, codes}
use sinkronis_backend.Common.Table.{find, put}
use sinkronis_backend.Database.{
  Action, WebhookEvent, InboxStatus, received, processing, event_failed, ok, pure, ◌>>=◌,
}
use sinkronis_backend.Transfer.Lease.{has_expired}

-- The variables `FINANCIAL_WEBHOOK_MAX_ATTEMPTS`, `…_PROCESSING_LEASE_MS` and `…_RECOVERY_BATCH_SIZE`.
pub record Env : Type 0 where
  pub max_attempts : ℤ
  pub processing_lease_ms : ℕ
  pub batch_size : ℕ

-- `Math.min(15 * 60_000, 30_000 * (2 ** Math.max(0, attempt - 1)))`
unfoldable pub retry_delay_ms : ℤ → ℕ
retry_delay_ms attempt = min 900000 (30000 * 2 ^ pos_part (attempt -ℤ pos 1))

-- Set, and not after `now`.
abbrev pub has_ended : Option ℕ → ℕ → Bool
has_ended none now = false
has_ended (some t) now = leb t now

abbrev pub status_is_due : Env → ℕ → WebhookEvent → InboxStatus → Bool
status_is_due env now e received = ltb_ℤ e.attempts env.max_attempts
status_is_due env now e event_failed =
    ltb_ℤ e.attempts env.max_attempts && has_expired e.next_attempt_at now
status_is_due env now e processing = has_ended e.lease_expires_at now
status_is_due env now e _ = false

abbrev pub is_eligible : Env → ℕ → WebhookEvent → Bool
is_eligible env now e = text_eq e.provider (codes "PAYSTACK") && status_is_due env now e e.status

abbrev pub as_claimed : Env → ℕ → ℕ → WebhookEvent → WebhookEvent
as_claimed env now token e = record e {
  status = processing;
  attempts = e.attempts +ℤ pos 1;
  claim_token = some token;
  claimed_at = some now;
  lease_expires_at = some (now + env.processing_lease_ms);
  next_attempt_at = none;
}

-- `updateMany({ where: { id, … } })` on the inbox
unfoldable pub update_event_where :
    ℕ → (WebhookEvent → Bool) → (WebhookEvent → WebhookEvent) → Action ℕ
update_event_where k p f db = elim (find k db.webhooks) [
  | none ↦ (ok 0, db)
  | some e ↦ if p e then (ok 1, record db { webhooks = put k (f e) db.webhooks }) else (ok 0, db)
]

-- The row is locked, tested and written in one transaction; the result is the token and the end of
-- the lease.
unfoldable pub claim_paystack_transfer_webhook : Env → ℕ → ℕ → ℕ → Action (Option (ℕ × ℕ))
claim_paystack_transfer_webhook env i now token = do
  claimed ← update_event_where i (is_eligible env now) (as_claimed env now token)
  pure (if claimed == 1 then some (token, now + env.processing_lease_ms) else none)
