-- ===== src/Transfer/Inputs.antt =====
-- What the payment provider reports (src/core/settlement-provider.ts), and its comparison with the
-- settlement (`assertResult` of src/core/provider-settlement.ts).
use sinkronis_backend.Common.{Bool, false, Option, none, some, ◌&&◌, not}
use sinkronis_backend.Common.Int.{ℤ, eqb_ℤ}
use sinkronis_backend.Common.Text.{Text, text_eq}
use sinkronis_backend.Database.{
  Action, Settlement, ensure, transfer_mismatch, recipient_mismatch, ◌>>◌,
}
use sinkronis_backend.Settlement.Manual.{same_reference}

pub data TransferState : Type 0 where
  non_conclusive success failure reversal : TransferState

pub record TransferResult : Type 0 where
  pub reference : Text
  pub transfer_code : Option Text
  pub recipient_reference : Option Text
  pub provider_status : Text
  pub state : TransferState
  pub amount_minor : ℤ
  pub currency : Text

-- A column of an update whose value may be `undefined`: then it stays.
abbrev pub or_kept : Option Text → Option Text → Option Text
or_kept (some t) old = some t
or_kept none old = old

-- `paystackMinorUnits`: an amount of hundredths is its own number of minor units.
abbrev pub paystack_minor_units : ℤ → ℤ
paystack_minor_units amount = amount

abbrev pub matches_settlement : Settlement → TransferResult → Bool
matches_settlement s r =
    same_reference s.transfer_reference r.reference
    && (eqb_ℤ r.amount_minor (paystack_minor_units s.amount) && text_eq r.currency s.currency)

abbrev pub recipients_differ : Option Text → Option Text → Bool
recipients_differ (some a) (some b) = not (text_eq a b)
recipients_differ _ _ = false

unfoldable pub assert_result : Settlement → TransferResult → Action (Unit {0})
assert_result s r =
    ensure (matches_settlement s r) transfer_mismatch
    >> ensure (not (recipients_differ r.recipient_reference s.recipient_reference))
        recipient_mismatch
