-- ===== src/Webhook/Process.antt =====
-- `processStoredPaystackTransferWebhook` of src/core/paystack-transfer-webhook.ts and
-- `mapPaystackTransferStatus` of src/core/paystack-transfer-provider.ts.
use sinkronis_backend.Common.{
  ℕ, Bool, true, false, Option, none, some, ◌+◌, ◌&&◌, ◌||◌, not, leb, map, if◌then◌else◌, List, [],
  ◌∷◌,
}
use sinkronis_backend.Common.Int.{ℤ, pos, ◌+ℤ◌, ◌-ℤ◌, leb_ℤ}
use sinkronis_backend.Common.Text.{Text, text_eq, codes, upper, lower}
use sinkronis_backend.Common.Table.{find, find_where}
use sinkronis_backend.Database.{
  Action, External, Error, Settlement, WebhookEvent, Payload, InboxStatus, processed, event_failed,
  ignored, dead_letter, pure, raise, gets, require, p2025, provider_error, catch, ◌>>=◌, ◌>>◌,
}
use sinkronis_backend.Wallet.Calls.{is_empty}
use sinkronis_backend.Settlement.Inputs.{Fresh}
use sinkronis_backend.Settlement.Manual.{same_reference, is_succeeded}
use sinkronis_backend.Settlement.Reverse.{is_reversed}
use sinkronis_backend.Transfer.Inputs.{
  TransferState, TransferResult, non_conclusive, success, failure, reversal,
}
use sinkronis_backend.Transfer.Apply.{apply_provider_transfer_result}
use sinkronis_backend.Transfer.Lease.{is_paystack, holds_token}
use sinkronis_backend.Webhook.Inbox.{
  Env, retry_delay_ms, update_event_where, claim_paystack_transfer_webhook,
}

abbrev pub one_of : List Text → Text → Bool
one_of [] t = false
one_of (a ∷ rest) t = text_eq a t || one_of rest t

-- `none` where the code throws for a status that it does not know.
unfoldable pub map_paystack_transfer_status : Text → Option TransferState
map_paystack_transfer_status status =
    let normalized = map lower status in
    if one_of (codes "pending" ∷ codes "otp" ∷ codes "received" ∷ []) normalized
    then some non_conclusive
    else if text_eq normalized (codes "success")
    then some success
    else if text_eq normalized (codes "reversed")
    then some reversal
    else if one_of (codes "failed" ∷ codes "abandoned" ∷ codes "blocked" ∷ codes "rejected" ∷ [])
        normalized
    then some failure
    else none

-- `new PaystackProviderError(…, undefined, true)`
abbrev pub unsupported_status : Error
unsupported_status = provider_error none true

-- The fields of a payload that can be processed.
pub record Report : Type 0 where
  pub reference : Text
  pub amount_minor : ℤ
  pub currency : Text
  pub status : Text

abbrev filled : Text → Option Text
filled t = if is_empty t then none else some t

unfoldable pub read_payload : Payload → Option Report
read_payload p = read_fields p.reference p.amount p.currency p.status
  where
    read_fields : Option Text → Option ℤ → Option Text → Option Text → Option Report
    read_fields (some r) (some a) (some c) (some s) =
        if is_empty r || (is_empty c || is_empty s)
        then none
        else some (record { reference = r; amount_minor = a; currency = map upper c; status = s })
    read_fields _ _ _ _ = none

-- A fetched value that is the empty string counts as absent.
abbrev pub present : Option Text → Option Text
present none = none
present (some t) = filled t

abbrev pub result_of : Payload → Report → TransferState → TransferResult
result_of p r state = record {
  reference = r.reference;
  transfer_code = present p.transfer_code;
  recipient_reference = present p.recipient_reference;
  provider_status = map lower r.status;
  state = state;
  amount_minor = r.amount_minor;
  currency = r.currency;
}

-- The three columns of the claim.
abbrev pub unclaimed_event : InboxStatus → WebhookEvent → WebhookEvent
unclaimed_event status e = record e {
  status = status;
  claim_token = none;
  claimed_at = none;
  lease_expires_at = none;
}

-- What the caller learns: the event was applied, is another worker's or gone, is malformed, belongs to
-- no settlement, or waits for the success that it reverses.
pub data Delivery : Type 0 where
  applied duplicate malformed unmatched deferred : Delivery

abbrev pub is_live_claim : ℕ → ℕ → WebhookEvent → Bool
is_live_claim token now e = holds_token e.claim_token token && ends_after e.lease_expires_at now
  where
    ends_after : Option ℕ → ℕ → Bool
    ends_after none now = false
    ends_after (some t) now = not (leb t now)

abbrev pub is_reported_by : Text → Settlement → Bool
is_reported_by reference s =
    is_paystack s.provider_name && same_reference s.transfer_reference reference

-- A reversal that arrives before the success that it reverses.
abbrev pub is_early_reversal : Settlement → TransferState → Bool
is_early_reversal s reversal = not (is_succeeded s.status || is_reversed s.status)
is_early_reversal s _ = false

module _ (x : External) (env : Env) (i token : ℕ) (fresh : Fresh) where
  abbrev pub finish_event : (WebhookEvent → WebhookEvent) → Action ℕ
  finish_event f = update_event_where i (λ e. holds_token e.claim_token token) f

  -- One claim more than the configured number, or the delay before the next.
  abbrev pub as_failed_event : ℤ → WebhookEvent → WebhookEvent
  as_failed_event attempts e =
      if leb_ℤ env.max_attempts (attempts +ℤ pos 1)
      then record (unclaimed_event dead_letter e) {
        next_attempt_at = none;
        dead_lettered_at = some fresh.now;
      }
      else record (unclaimed_event event_failed e) {
        next_attempt_at = some (fresh.now + retry_delay_ms (attempts +ℤ pos 1));
        dead_lettered_at = none;
      }

  abbrev pub as_deferred : WebhookEvent → WebhookEvent
  as_deferred e = record (unclaimed_event event_failed e) {
    attempts = e.attempts -ℤ pos 1;
    deferred_attempts = e.deferred_attempts + 1;
    next_attempt_at = some (fresh.now + 60000);
  }

  abbrev pub as_processed : WebhookEvent → WebhookEvent
  as_processed e = record (unclaimed_event processed e) {
    processed_at = some fresh.now;
    next_attempt_at = none;
  }

  -- The settlement is known; `attempts` is the count that was read first.
  unfoldable pub deliver : ℤ → ℕ × Settlement → TransferResult → Action Delivery
  deliver attempts (k, s) result =
      if is_early_reversal s result.state
      then (finish_event as_deferred >> pure deferred)
      else catch
          (apply_provider_transfer_result x k result fresh s
            >> (finish_event as_processed >> pure applied))
          (λ error. finish_event (as_failed_event attempts) >> raise error)

  unfoldable pub deliver_report : ℤ → Payload → Report → Action Delivery
  deliver_report attempts payload report = do
    settlement ← gets (λ db. find_where (is_reported_by report.reference) db.settlements)
    elim settlement [
      | none ↦ do
        finish_event (λ e. record (unclaimed_event ignored e) { processed_at = some fresh.now })
        pure unmatched
      | some found ↦ do
        state ← require (map_paystack_transfer_status report.status) unsupported_status
        deliver attempts found (result_of payload report state)
    ]

  unfoldable pub deliver_event : ℤ → Option WebhookEvent → Action Delivery
  deliver_event attempts none = pure duplicate
  deliver_event attempts (some e) =
      if not (is_live_claim token fresh.now e)
      then pure duplicate
      else elim (read_payload e.payload) [
        | none ↦ do
          finish_event
              (λ e. record (unclaimed_event dead_letter e) { dead_lettered_at = some fresh.now })
          pure malformed
        | some report ↦ deliver_report attempts e.payload report
      ]

  -- What follows the claim, if there is one.
  unfoldable pub deliver_claimed : ℤ → Option (ℕ × ℕ) → Action Delivery
  deliver_claimed attempts none = pure duplicate
  deliver_claimed attempts (some _) = do
    inbox ← gets (λ db. find i db.webhooks)
    deliver_event attempts inbox

  -- With a token that the caller supplies, the event is claimed already; otherwise it is claimed here,
  -- under `token`.
  unfoldable pub process_stored_paystack_transfer_webhook : Bool → Action Delivery
  process_stored_paystack_transfer_webhook supplied = do
    initial ← require (← gets (λ db. find i db.webhooks)) p2025
    lease ←
        if supplied
        then pure (some (token, fresh.now))
        else claim_paystack_transfer_webhook env i fresh.now token
    deliver_claimed initial.attempts lease
