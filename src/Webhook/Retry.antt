-- ===== src/Webhook/Retry.antt =====
-- `retryPendingPaystackTransferWebhooks` of src/core/paystack-transfer-webhook.ts. The clock, the
-- tokens and the fresh values of each event come in by its id.
use sinkronis_backend.Common.{
  ℕ, zero, suc, Bool, true, false, Option, none, some, ◌+◌, min, ◌&&◌, if◌then◌else◌, List, [], ◌∷◌,
  length,
}
use sinkronis_backend.Common.Text.{codes}
use sinkronis_backend.Common.Table.{Table, find}
use sinkronis_backend.Database.{
  Action, External, WebhookEvent, InboxStatus, dead_letter, pure, gets, catch, ◌>>=◌,
}
use sinkronis_backend.Settlement.Inputs.{Fresh}
use sinkronis_backend.Webhook.Inbox.{Env, is_eligible, claim_paystack_transfer_webhook}
use sinkronis_backend.Webhook.Process.{
  Delivery, applied, malformed, one_of, process_stored_paystack_transfer_webhook,
}

abbrev pub is_pending : Env → ℕ → WebhookEvent → Bool
is_pending env now e =
    one_of (codes "transfer.success" ∷ codes "transfer.failed" ∷ codes "transfer.reversed" ∷ [])
      e.event_type
    && is_eligible env now e

-- `findMany({ where, orderBy: { receivedAt: "asc" }, take })`, the ids
unfoldable pub pending_events : Env → ℕ → ℕ → Table WebhookEvent → List ℕ
pending_events env now zero t = []
pending_events env now (suc n) [] = []
pending_events env now (suc n) ((k, e) ∷ t) =
    let taken = k ∷ pending_events env now n t in
    let passed = pending_events env now (suc n) t in if is_pending env now e then taken else passed

pub record Counts : Type 0 where
  pub inspected : ℕ
  pub claimed : ℕ
  pub processed : ℕ
  pub dead_lettered : ℕ
  pub errors : ℕ

abbrev pub nothing_done : ℕ → Counts
nothing_done n = record { inspected = n; claimed = 0; processed = 0; dead_lettered = 0; errors = 0 }

-- What one event came to: another worker has it, it was handled, or it raised.
pub data Turn : Type 0 where
  not_claimed : Turn
  handled : Delivery → Turn
  raised : Bool → Turn

abbrev pub counted : Turn → Counts → Counts
counted not_claimed c = c
counted (handled applied) c = record c { claimed = c.claimed + 1; processed = c.processed + 1 }
counted (handled malformed) c = record c {
  claimed = c.claimed + 1;
  dead_lettered = c.dead_lettered + 1;
}
counted (handled _) c = record c { claimed = c.claimed + 1 }
counted (raised true) c = record c {
  claimed = c.claimed + 1;
  dead_lettered = c.dead_lettered + 1;
  errors = c.errors + 1;
}
counted (raised false) c = record c { claimed = c.claimed + 1; errors = c.errors + 1 }

abbrev pub is_dead_letter : InboxStatus → Bool
is_dead_letter dead_letter = true
is_dead_letter _ = false

abbrev is_dead : Option WebhookEvent → Bool
is_dead none = false
is_dead (some e) = is_dead_letter e.status

module _ (x : External) (env : Env) (now : ℕ) (token : ℕ → ℕ) (fresh : ℕ → Fresh) where
  -- `if (!lease) continue;` and what follows it in the loop
  unfoldable pub retry_claimed : ℕ → Option (ℕ × ℕ) → Action Turn
  retry_claimed i none = pure not_claimed
  retry_claimed i (some _) =
      catch
        (process_stored_paystack_transfer_webhook x env i (token i) (fresh i) true >>= λ delivery.
          pure (handled delivery))
        (λ _. gets (λ db. raised (is_dead (find i db.webhooks))))

  unfoldable pub retry_event : ℕ → Action Turn
  retry_event i = claim_paystack_transfer_webhook env i now (token i) >>= retry_claimed i

  unfoldable pub retry_events : List ℕ → Counts → Action Counts
  retry_events [] c = pure c
  retry_events (i ∷ rest) c = do turn ← retry_event i; retry_events rest (counted turn c)

  unfoldable pub retry_pending_paystack_transfer_webhooks : ℕ → Action Counts
  retry_pending_paystack_transfer_webhooks limit = do
    events ← gets (λ db. pending_events env now (min limit env.batch_size) db.webhooks)
    retry_events events (nothing_done (length events))
