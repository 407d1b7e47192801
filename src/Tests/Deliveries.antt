-- ===== src/Tests/Deliveries.antt =====
-- The theorems on the inbox, on verification and on one-time codes, at concrete calls.
use sinkronis_backend.Common.{ℕ, ◌≡◌, ◌≤◌, refl, none, some, [], ◌∷◌, arith, false, true}
use sinkronis_backend.Common.Int.{pos, ◌+ℤ◌}
use sinkronis_backend.Common.Text.{codes, text_eq, upper, lower}
use sinkronis_backend.Common.Table.{find, find_where, scan, put}
use sinkronis_backend.Database.{
  Db, Settlement, WebhookEvent, received, provider_error, ok, err, resume, Returns,
}
use sinkronis_backend.Integrity.Sums.{IsSound}
use sinkronis_backend.Settlement.Soundness.{SameMoney-IsSoundBy}
use sinkronis_backend.Settlement.Manual.{is_succeeded}
use sinkronis_backend.Transfer.Inputs.{success, non_conclusive}
use sinkronis_backend.Transfer.Provider.{Answers}
use sinkronis_backend.Transfer.Ready.{AreRegular}
use sinkronis_backend.Transfer.Reconcile.{verify_and_reconcile_provider_settlement}
use sinkronis_backend.Transfer.Reconciled.{verify_and_reconcile-IsSound}
use sinkronis_backend.Transfer.Otp.{
  Approval, finalize_provider_settlement_otp, validate_paystack_transfer_approval, decide_approval,
}
use sinkronis_backend.Transfer.OtpSafety.{
  NoMoneyMoved, finalize_otp-moves_no_money, approval-is_held, IsApproved,
}
use sinkronis_backend.Webhook.Inbox.{
  Env, is_eligible, as_claimed, update_event_where, claim_paystack_transfer_webhook,
}
use sinkronis_backend.Webhook.Process.{
  Report, read_payload, is_reported_by, map_paystack_transfer_status, unsupported_status,
  process_stored_paystack_transfer_webhook,
}
use sinkronis_backend.Webhook.Effects.{Never}
use sinkronis_backend.Webhook.Retry.{retry_pending_paystack_transfer_webhooks}
use sinkronis_backend.Webhook.Counts.{AddsUp, retry_pending-AddsUp}
use sinkronis_backend.Webhook.Exclusive.{claim-excludes, unsupported_status_recurs}
use sinkronis_backend.Webhook.Delivered.{process_stored-IsSound}
use sinkronis_backend.Tests.Samples.{
  packages, packages-IsSign, company, company-IsSound, open_row, fresh, reported, ngn,
}

abbrev env : Env
env = record { max_attempts = pos 5; processing_lease_ms = 100; batch_size = 25 }

abbrev waiting_event : WebhookEvent
waiting_event = record {
  provider = codes "PAYSTACK";
  event_type = codes "transfer.success";
  payload = record {
    reference = some (codes "ref-1");
    amount = some (pos 30);
    currency = some ngn;
    status = some (codes "processing");
    transfer_code = none;
    recipient_reference = none;
  };
  status = received;
  attempts = pos 0;
  deferred_attempts = 0;
  claim_token = none;
  claimed_at = none;
  lease_expires_at = none;
  next_attempt_at = none;
  dead_lettered_at = none;
  processed_at = none;
}

abbrev claimed_event : WebhookEvent
claimed_event = as_claimed env 50 77 waiting_event

abbrev company_notified : Db
company_notified = record company { webhooks = (4, waiting_event) ∷ [] }

abbrev company_claimed : Db
company_claimed = record company_notified { webhooks = (4, claimed_event) ∷ [] }

event_claim :
    claim_paystack_transfer_webhook env 4 50 77 company_notified
    ≡ (ok (some (77, 150)), company_claimed)
unfolding claim_paystack_transfer_webhook update_event_where find put resume text_eq ◌+ℤ◌
event_claim = refl

claim-excludes_example :
    claim_paystack_transfer_webhook env 4 149 78 company_claimed ≡ (ok none, company_claimed)
claim-excludes_example =
    claim-excludes env 4 50 77 149 78 77 150 company_notified company_claimed event_claim
      (omega arith)

retry_pending-AddsUp_example :
    Returns Never
      (λ c _. AddsUp 0 c)
      (retry_pending_paystack_transfer_webhooks packages env 50
        (λ i. 77)
        (λ i. fresh)
        10
        company_notified)
retry_pending-AddsUp_example =
    retry_pending-AddsUp packages env 50 (λ i. 77) (λ i. fresh) 10 company_notified

abbrev report : Report
report = record {
  reference = codes "ref-1";
  amount_minor = pos 30;
  currency = ngn;
  status = codes "processing";
}

event_found : find 4 company_claimed.webhooks ≡ some claimed_event
unfolding find
event_found = refl

is_of_paystack : text_eq claimed_event.provider (codes "PAYSTACK") ≡ true
unfolding text_eq
is_of_paystack = refl

event_read : read_payload claimed_event.payload ≡ some report
unfolding read_payload upper
event_read = refl

settlement_found :
    find_where (is_reported_by (codes "ref-1")) company_claimed.settlements ≡ some (1, open_row)
unfolding find_where scan find text_eq
settlement_found = refl

status_unknown : map_paystack_transfer_status (codes "processing") ≡ none
unfolding map_paystack_transfer_status lower text_eq
status_unknown = refl

unsupported_status_recurs_example :
    (process_stored_paystack_transfer_webhook packages env 4 77 fresh true company_claimed
      ≡ (err unsupported_status, company_claimed))
    × ((later : ℕ) → 150 ≤ later → is_eligible env later claimed_event ≡ true)
unsupported_status_recurs_example =
    unsupported_status_recurs packages env 4 77 150 fresh claimed_event report 1 open_row
      company_claimed event_found is_of_paystack refl refl refl event_read settlement_found
      status_unknown

company-AreRegular : AreRegular company
unfolding find
company-AreRegular k s e = ground (arith, e)

company_notified-IsSound : IsSound company_notified
company_notified-IsSound =
    SameMoney-IsSoundBy (record { wallets = refl; settlements = refl; ledger = refl })
      company-IsSound

process_stored_example :
    IsSound
      (process_stored_paystack_transfer_webhook packages env 4 77 fresh false company_notified).1
process_stored_example =
    process_stored-IsSound packages env 4 77 fresh false company_notified packages-IsSign
      company_notified-IsSound company-AreRegular

abbrev answers : Answers
answers = record {
  verify = ok (reported success);
  initiate = err (provider_error none true);
  finalize_otp = ok (reported non_conclusive);
  message = λ e. codes "failed";
  blocked = none;
  is_test_mode = true;
}

verify_and_reconcile_example :
    IsSound
      (verify_and_reconcile_provider_settlement packages answers 1 77 fresh true 100 false
        company).1
verify_and_reconcile_example =
    verify_and_reconcile-IsSound packages answers 1 77 fresh true 100 false company packages-IsSign
      company-IsSound company-AreRegular

finalize_otp_example :
    Returns
      (NoMoneyMoved company)
      (λ row db'. (is_succeeded row.status ≡ false) × NoMoneyMoved company db')
      (finalize_provider_settlement_otp answers 7 1 50 company)
finalize_otp_example = finalize_otp-moves_no_money answers 7 1 50 company

abbrev approval : Approval
approval = record {
  reference = some (codes "ref-1");
  amount = some (pos 30);
  currency = some ngn;
  recipient = none;
}

is_approved : validate_paystack_transfer_approval approval company_notified ≡ true
unfolding validate_paystack_transfer_approval decide_approval find_where scan find text_eq
is_approved = refl

approval-is_held_example :
    (k : ℕ) × (s : Settlement) × (find k company_notified.settlements ≡ some s)
    × IsApproved approval s
approval-is_held_example = approval-is_held approval company_notified is_approved
