-- ===== src/Webhook/Counts.antt =====
-- A retry batch comes to an end without an error, and its report adds up.
use sinkronis_backend.Common.{
  ℕ, suc, true, false, Option, none, some, ◌+◌, ◌≤◌, min, arith, List, [], ◌∷◌, length,
}
use sinkronis_backend.Database.{
  Db, External, Result, Returns, returns, raises, bind-Returns, catch-Returns, resume, ok, err,
}
use sinkronis_backend.Settlement.Inputs.{Fresh}
use sinkronis_backend.Webhook.Inbox.{Env, claim_paystack_transfer_webhook}
use sinkronis_backend.Webhook.Effects.{Never, update_event_where-Returns}
use sinkronis_backend.Webhook.Process.{
  applied, duplicate, malformed, unmatched, deferred, process_stored_paystack_transfer_webhook,
}
use sinkronis_backend.Webhook.Retry.{
  Counts, Turn, not_claimed, handled, raised, counted, pending_events, nothing_done, retry_claimed,
  retry_event, retry_events, retry_pending_paystack_transfer_webhooks,
}

-- Every claimed event is counted once: as processed, as an error, or as neither, and as a dead letter
-- at most once.
pub record AddsUp (n : ℕ) (c : Counts) : Type 0 where
  pub outcomes : c.processed + c.errors ≤ c.claimed
  pub dead_letters : c.processed + c.dead_lettered ≤ c.claimed
  pub within : c.claimed + n ≤ c.inspected

any_result : {A : Type 0} (r : Result A × Db) → Returns (λ _. Unit {0}) (λ _ _. Unit {0}) r
any_result (ok a, db) = returns tt
any_result (err e, db) = raises tt

counted-AddsUp : (t : Turn) (n : ℕ) (c : Counts) → AddsUp (suc n) c → AddsUp n (counted t c)
counted-AddsUp not_claimed n c h = record {
  outcomes = h.outcomes;
  dead_letters = h.dead_letters;
  within = omega (arith, h.within);
}
counted-AddsUp (handled applied) n c h = ground (arith, h.outcomes, h.dead_letters, h.within)
counted-AddsUp (handled malformed) n c h = ground (arith, h.outcomes, h.dead_letters, h.within)
counted-AddsUp (handled duplicate) n c h = ground (arith, h.outcomes, h.dead_letters, h.within)
counted-AddsUp (handled unmatched) n c h = ground (arith, h.outcomes, h.dead_letters, h.within)
counted-AddsUp (handled deferred) n c h = ground (arith, h.outcomes, h.dead_letters, h.within)
counted-AddsUp (raised true) n c h = ground (arith, h.outcomes, h.dead_letters, h.within)
counted-AddsUp (raised false) n c h = ground (arith, h.outcomes, h.dead_letters, h.within)

module _ (x : External) (env : Env) (now : ℕ) (token : ℕ → ℕ) (fresh : ℕ → Fresh) where
  retry_claimed-Returns :
      (i : ℕ) (lease : Option (ℕ × ℕ)) (db : Db)
      → Returns Never (λ _ _. Unit {0}) (retry_claimed x env now token fresh i lease db)
  unfolding retry_claimed
  retry_claimed-Returns i none db = returns tt
  retry_claimed-Returns i (some _) db =
      catch-Returns _ _ db
        (bind-Returns
          (any_result
            (process_stored_paystack_transfer_webhook x env i (token i) (fresh i) true db))
          (λ _ _ _. returns tt))
        (λ e db' _. returns tt)

  retry_event-Returns :
      (i : ℕ) (db : Db) → Returns Never (λ _ _. Unit {0}) (retry_event x env now token fresh i db)
  unfolding retry_event claim_paystack_transfer_webhook
  retry_event-Returns i db =
      bind-Returns
        (bind-Returns {R = λ _ _. Unit {0}} (update_event_where-Returns i _ _ db)
          (λ _ _ _. returns tt))
        λ lease db1 _. retry_claimed-Returns i lease db1

  retry_events-AddsUp :
      (events : List ℕ) (c : Counts) (db : Db)
      → AddsUp (length events) c
      → Returns Never (λ c' _. AddsUp 0 c') (retry_events x env now token fresh events c db)
  unfolding retry_events
  retry_events-AddsUp [] c db h = returns h
  retry_events-AddsUp (i ∷ rest) c db h = bind-Returns (retry_event-Returns i db) λ turn db1 _.
      retry_events-AddsUp rest (counted turn c) db1 (counted-AddsUp turn (length rest) c h)

  -- A retry batch always returns a report, whatever its events do: one that raises is counted and
  -- passed over. Of the events inspected it claims some, and each of these is counted at most once as
  -- processed, as an error or as neither, and at most once as processed or as a dead letter.
  pub retry_pending-AddsUp :
      (limit : ℕ) (db : Db)
      → Returns Never
          (λ c _. AddsUp 0 c)
          (retry_pending_paystack_transfer_webhooks x env now token fresh limit db)
  unfolding retry_pending_paystack_transfer_webhooks resume
  retry_pending-AddsUp limit db =
      let events = pending_events env now (min limit env.batch_size) db.webhooks in
      retry_events-AddsUp events (nothing_done (length events)) db
        (record { outcomes = omega arith; dead_letters = omega arith; within = omega arith })
