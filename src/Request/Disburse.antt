-- ===== src/Request/Disburse.antt =====
-- The manual branch of `disbursePaymentRequest` of src/modules/accounting/accounting.service.ts.
use sinkronis_backend.Common.{
  ℕ, Bool, true, false, Option, none, some, ◌==◌, ◌&&◌, not, if◌then◌else◌,
}
use sinkronis_backend.Common.Text.{Text, text_eq}
use sinkronis_backend.Common.Table.{find, find_where}
use sinkronis_backend.Database.{
  Action, External, PaymentRequest, Settlement, source_eq, accounting_payment_request, paid,
  request_settled, only_approved, destination_incomplete, p2025, pure, gets, require, ensure,
  update_request_where, ◌>>=◌, ◌>>◌,
}
use sinkronis_backend.Wallet.Calls.{is_empty, owned_wallet}
use sinkronis_backend.Settlement.Inputs.{Source, ManualInput, Fresh}
use sinkronis_backend.Settlement.Manual.{complete_manual_settlement, same_reference}
use sinkronis_backend.Transfer.Result.{is_approved, is_paid}
use sinkronis_backend.Request.Decide.{request_owned}

abbrev filled : Option Text → Bool
filled none = false
filled (some t) = not (is_empty t)

abbrev pub has_destination : PaymentRequest → Bool
has_destination r = filled r.bank_name && (filled r.account_number && filled r.account_name)

abbrev pub source_of : ℕ → ℕ → ℕ → PaymentRequest → Source
source_of organization_id k i r = record {
  organization_id = organization_id;
  wallet_account_id = k;
  source_type = accounting_payment_request;
  source_id = i;
  amount = r.amount;
  currency = r.currency;
}

-- What comes back; a payment from before settlements existed has none.
pub record Disbursement : Type 0 where
  pub request : PaymentRequest
  pub settlement : Option Settlement
  pub idempotent_replay : Bool

module _ (x : External) (organization_id i k : ℕ) (input : ManualInput) (fresh : Fresh) where
  -- The caller's part of the transaction of the settlement.
  unfoldable pub mark_paid : Settlement → ℕ → Action PaymentRequest
  mark_paid s ledger = do
    claimed ←
        update_request_where i (λ r. r.organization_id == organization_id && is_approved r.status)
          (λ r. record r {
            status = paid;
            disbursement_reference = some s.internal_reference;
            disbursed_at = s.settled_at;
          })
    ensure (claimed == 1) request_settled
    require (← gets (λ db. find i db.payment_requests)) p2025

  abbrev pub is_same_disbursement : Settlement → Bool
  is_same_disbursement s =
      s.organization_id == organization_id
      && (source_eq s.source_type accounting_payment_request
          && (s.source_id == i && text_eq s.idempotency_key input.idempotency_key))

  -- A request that is paid already.
  unfoldable pub replay_disbursement : PaymentRequest → Action Disbursement
  replay_disbursement current = do
    settlement ← gets (λ db. find_where is_same_disbursement db.settlements)
    elim settlement [
      | some (_, s) ↦
          pure (record { request = current; settlement = some s; idempotent_replay = true })
      | none ↦ do
        ensure (same_reference current.disbursement_reference input.idempotency_key) request_settled
        pure (record { request = current; settlement = none; idempotent_replay = false })
    ]

  -- `manual.result ?? await paymentRequestOwned(organizationId, id)`
  unfoldable pub request_after : Option PaymentRequest → Action PaymentRequest
  request_after (some r) = pure r
  request_after none = request_owned organization_id i

  unfoldable pub settle_request : PaymentRequest → Action Disbursement
  settle_request current = do
    ensure (is_approved current.status) only_approved
    ensure (has_destination current) destination_incomplete
    owned_wallet organization_id k
    manual ←
        complete_manual_settlement x (source_of organization_id k i current) input fresh mark_paid
    request ← request_after manual.result
    pure (record {
      request = request;
      settlement = some manual.settlement;
      idempotent_replay = manual.idempotent_replay;
    })

  unfoldable pub disburse_payment_request_manually : Action Disbursement
  disburse_payment_request_manually = do
    current ← request_owned organization_id i
    if is_paid current.status then replay_disbursement current else settle_request current
