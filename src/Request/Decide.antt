-- ===== src/Request/Decide.antt =====
-- `approvePaymentRequest` and `declinePaymentRequest` of
-- src/modules/accounting/accounting.service.ts, without their audit entries.
use sinkronis_backend.Common.{ℕ, Bool, true, false, Option, some, ◌==◌, ◌&&◌, if◌then◌else◌}
use sinkronis_backend.Common.Text.{Text}
use sinkronis_backend.Common.Table.{find}
use sinkronis_backend.Database.{
  Action, PaymentRequest, RequestStatus, pending, approved, rejected, missing, only_pending,
  already_decided, pure, raise, gets, require, ensure, update_request_where, ◌>>=◌, ◌>>◌,
}

abbrev pub is_pending : RequestStatus → Bool
is_pending pending = true
is_pending _ = false

-- `paymentRequestOwned`
unfoldable pub request_owned : ℕ → ℕ → Action PaymentRequest
request_owned organization_id i = do
  r ← require (← gets (λ db. find i db.payment_requests)) missing
  if r.organization_id == organization_id then pure r else raise missing

abbrev pub is_undecided : ℕ → PaymentRequest → Bool
is_undecided organization_id r = r.organization_id == organization_id && is_pending r.status

abbrev pub as_approved : ℕ → ℕ → PaymentRequest → PaymentRequest
as_approved user now r = record r {
  status = approved;
  approved_by = some user;
  approved_at = some now;
}

abbrev pub as_declined : ℕ → ℕ → Option Text → PaymentRequest → PaymentRequest
as_declined user now reason r = record r {
  status = rejected;
  declined_by = some user;
  declined_at = some now;
  decision_reason = reason;
}

module _ (organization_id i : ℕ) where
  -- What the two decisions have in common.
  unfoldable pub decide : (PaymentRequest → PaymentRequest) → Action PaymentRequest
  decide decision = do
    row ← request_owned organization_id i
    ensure (is_pending row.status) only_pending
    claimed ← update_request_where i (is_undecided organization_id) decision
    ensure (claimed == 1) already_decided
    request_owned organization_id i

  unfoldable pub approve_payment_request : ℕ → ℕ → Action PaymentRequest
  approve_payment_request user now = decide (as_approved user now)

  unfoldable pub decline_payment_request : ℕ → ℕ → Option Text → Action PaymentRequest
  decline_payment_request user now reason = decide (as_declined user now reason)
