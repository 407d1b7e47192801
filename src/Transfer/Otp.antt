-- ===== src/Transfer/Otp.antt =====
-- `finalizeProviderSettlementOtp` and `validatePaystackTransferApproval` of
-- src/core/provider-settlement.ts.
use sinkronis_backend.Common.{
  ℕ, Bool, true, false, Option, none, some, ◌==◌, ◌&&◌, not, is_set, if◌then◌else◌,
}
use sinkronis_backend.Common.Int.{ℤ, eqb_ℤ}
use sinkronis_backend.Common.Text.{Text, text_eq, codes}
use sinkronis_backend.Common.Table.{find_where}
use sinkronis_backend.Database.{
  Action, Db, Error, Settlement, Status, provider_processing, unknown, provider_error, conflict,
  not_paystack, not_awaiting_otp, no_active_reservation, identity_incomplete, otp_in_progress,
  otp_rejected, otp_unexpected, pure, raise, ensure, catch, update_settlement,
  update_settlement_where, ◌>>=◌, ◌>>◌,
}
use sinkronis_backend.Integrity.Checks.{active_reservation}
use sinkronis_backend.Settlement.Inputs.{owned_settlement}
use sinkronis_backend.Settlement.Manual.{is_manual, same_reference}
use sinkronis_backend.Transfer.Inputs.{
  TransferState, TransferResult, non_conclusive, failure, assert_result, paystack_minor_units,
}
use sinkronis_backend.Transfer.Lease.{is_paystack}
use sinkronis_backend.Transfer.Provider.{Answers, answer, throw_if, assert_tenant_provider_mode}
use sinkronis_backend.Transfer.Reconcile.{is_ambiguous}

abbrev pub is_processing : Status → Bool
is_processing provider_processing = true
is_processing _ = false

abbrev pub has_provider_status : Text → Settlement → Bool
has_provider_status t s = same_reference s.provider_status t

abbrev pub awaits_otp : Settlement → Bool
awaits_otp s = is_processing s.status && has_provider_status (codes "otp") s

-- The condition of the update that claims the code.
abbrev pub is_otp_claimable : ℕ → Settlement → Bool
is_otp_claimable organization_id s =
    s.organization_id == organization_id && (awaits_otp s && not (is_set s.reservation_released_at))

abbrev pub as_otp_finalizing : Settlement → Settlement
as_otp_finalizing s = record s {
  provider_status = some (codes "otp_finalizing");
  failure_reason = none;
}

abbrev pub as_otp_refused : Text → Settlement → Settlement
as_otp_refused reason s = record s {
  provider_status = some (codes "otp");
  failure_reason = some reason;
}

abbrev pub as_otp_accepted : TransferResult → Option Text → ℕ → Settlement → Settlement
as_otp_accepted r code now s = record s {
  status = provider_processing;
  provider_status = some r.provider_status;
  transfer_code = code;
  last_verified_at = some now;
  failure_reason = none;
}

abbrev pub as_otp_unknown : ℕ → Settlement → Settlement
as_otp_unknown now s = record s {
  status = unknown;
  provider_status = some (codes "unknown");
  failure_reason = some (codes "OTP finalization outcome requires verification");
  last_verified_at = some now;
}

abbrev pub is_provider_error : Error → Bool
is_provider_error (provider_error _ _) = true
is_provider_error _ = false

abbrev pub rejected_text : Text
rejected_text = codes "OTP finalization was rejected"

pub data Sent : Type 0 where
  accepted : TransferResult → Sent
  given_up : Settlement → Sent

module _ (answers : Answers) (organization_id i now : ℕ) where
  -- Only a non-conclusive answer is accepted; the money is final by verification only.
  unfoldable pub check_otp_state : TransferState → Action (Unit {0})
  check_otp_state non_conclusive = pure tt
  check_otp_state failure =
      update_settlement i (as_otp_refused rejected_text) >> raise (conflict otp_rejected)
  check_otp_state _ =
      update_settlement i
        (as_otp_refused (codes "OTP finalization returned an unexpected terminal state"))
      >> raise (conflict otp_unexpected)

  -- What the `try` clause comes to: an accepted answer, or the row that the `catch` clause returned.
  unfoldable pub send_otp : Settlement → Action Sent
  send_otp s = do
    result ← answer answers.finalize_otp
    assert_result s result
    check_otp_state result.state
    pure (accepted result)

  unfoldable pub after_otp_error : Error → Action Sent
  after_otp_error e =
      if is_ambiguous e
      then (update_settlement i (as_otp_unknown now) >>= λ row. pure (given_up row))
      else (update_settlement_where i
            (λ r.
              r.organization_id == organization_id
              && has_provider_status (codes "otp_finalizing") r)
            (as_otp_refused rejected_text)
          >> raise (if is_provider_error e then conflict otp_rejected else e))

  -- The update of an accepted answer is returned without `await`, outside the `catch` clause.
  unfoldable pub finish_otp : Settlement → Sent → Action Settlement
  finish_otp s (accepted result) = update_settlement i (as_otp_accepted result s.transfer_code now)
  finish_otp s (given_up row) = pure row

  unfoldable pub finalize_provider_settlement_otp : Action Settlement
  finalize_provider_settlement_otp = do
    throw_if answers.blocked
    assert_tenant_provider_mode answers organization_id
    s ← owned_settlement organization_id i
    ensure (not (is_manual s.method) && is_paystack s.provider_name) not_paystack
    ensure (awaits_otp s) not_awaiting_otp
    ensure (is_set s.reserved_at && not (is_set s.reservation_released_at)) no_active_reservation
    ensure (is_set s.transfer_code && is_set s.transfer_reference) identity_incomplete
    claimed ← update_settlement_where i (is_otp_claimable organization_id) as_otp_finalizing
    ensure (claimed == 1) otp_in_progress
    sent ← catch (send_otp s) after_otp_error
    finish_otp s sent

-- The fields of an approval request, where present and not empty; the currency is in upper case already.
pub record Approval : Type 0 where
  pub reference : Option Text
  pub amount : Option ℤ
  pub currency : Option Text
  pub recipient : Option Text

abbrev pub is_recipient : Option Text → Option Text → Bool
is_recipient none known = true
is_recipient (some r) known = same_reference known r

abbrev pub approves : Settlement → ℤ → Text → Option Text → Bool
approves s amount currency recipient =
    active_reservation s
    && (eqb_ℤ amount (paystack_minor_units s.amount)
        && (text_eq currency s.currency && is_recipient recipient s.recipient_reference))

abbrev pub is_transfer_of : Text → Settlement → Bool
is_transfer_of reference s =
    is_paystack s.provider_name && same_reference s.transfer_reference reference

abbrev pub approves_found : Option (ℕ × Settlement) → ℤ → Text → Option Text → Bool
approves_found none amount currency recipient = false
approves_found (some (_, s)) amount currency recipient = approves s amount currency recipient

unfoldable pub decide_approval : Option Text → Option ℤ → Option Text → Option Text → Db → Bool
decide_approval (some reference) (some amount) (some currency) recipient db =
    approves_found (find_where (is_transfer_of reference) db.settlements) amount currency recipient
decide_approval _ _ _ recipient db = false

unfoldable pub validate_paystack_transfer_approval : Approval → Db → Bool
unfolding decide_approval
validate_paystack_transfer_approval a db =
    decide_approval a.reference a.amount a.currency a.recipient db
