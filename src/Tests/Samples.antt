-- ===== src/Tests/Samples.antt =====
-- A small company: one wallet, three settlements, the ledger that led there.
use sinkronis_backend.Common.{
  true, false, zero, suc, ltb, ◌≤◌, ◌*◌, ◌+◌, ◌/◌, ℕ, ◌≡◌, refl, none, some, [], ◌∷◌, arith,
}
use sinkronis_backend.Common.Int.{pos, leb_ℤ, ◌+ℤ◌, ◌-ℤ◌}
use sinkronis_backend.Common.Text.{Text, codes}
use sinkronis_backend.Common.Amount.{shift, exceeds}
use sinkronis_backend.Common.Table.{sum_of, find}
use sinkronis_backend.Database.{
  Db, Wallet, Settlement, WalletTransaction, External, IsColumn, IsSign, prepared,
  provider_processing, succeeded, manual, provider, debit, credit, manual_of, other_type,
  other_source,
}
use sinkronis_backend.Integrity.Sums.{IsSound, IsBalancedBy}
use sinkronis_backend.Integrity.Checks.{active_sum, expected_balance}
use sinkronis_backend.Settlement.Inputs.{Source, ManualInput, Fresh}
use sinkronis_backend.Settlement.Manual.{new_settlement}
use sinkronis_backend.Transfer.Inputs.{TransferResult, TransferState}

-- To the nearest, a half upwards: the digit below the last place decides.
unfoldable pub half_up : ℕ → ℕ → ℕ
half_up zero units = units
half_up (suc zero) units = (units + 5) / 10
half_up (suc (suc places)) units = half_up (suc places) (units / 10)

abbrev pub packages : External
packages = record {
  is_positive = leb_ℤ (pos 1);
  wallet_fingerprint = λ o k. codes "0";
  sha256 = λ s. s;
  column = λ a. half_up a.places a.units;
  comes_after = λ s t. false;
}

not_above : (a b : ℕ) → ltb a b ≡ false → b ≤ a
not_above a b h = ground arith

tenth : (s u : ℕ) → u ≤ 10 * s → u / 10 ≤ s
tenth s u h = omega arith

half_up-within :
    (places units n : ℕ) → ltb (shift places n) units ≡ false → half_up places units ≤ n
unfolding shift half_up
half_up-within zero units n h = ground arith
half_up-within (suc zero) units n h =
    let below : units ≤ 10 * n = not_above (10 * n) units h in omega (arith, below)
half_up-within (suc (suc p)) units n h =
    half_up-within (suc p) (units / 10) n
      (drop_digit (shift (suc p) n) units (not_above (10 * shift (suc p) n) units h))
  where
    drop_digit : (s u : ℕ) → u ≤ 10 * s → ltb s (u / 10) ≡ false
    drop_digit s u h = ground (arith, tenth s u h)

pub packages-IsColumn : IsColumn packages
unfolding shift exceeds half_up
packages-IsColumn = record {
  keeps = λ a w. rw w refl;
  within = λ a n h. half_up-within a.places a.units n h;
}

pub packages-IsSign : IsSign packages
packages-IsSign = record { sound = λ a h. ground arith; complete = λ a h. ground arith }

abbrev pub ngn : Text
ngn = codes "NGN"

abbrev pub main_wallet : Wallet
main_wallet = record {
  organization_id = 7;
  currency = ngn;
  balance = pos 100;
  reserved_balance = pos 30;
}

abbrev pub bill : ℕ → ℕ → Source
bill i amount = record {
  organization_id = 7;
  wallet_account_id = 1;
  source_type = other_source (codes "EXPENSE");
  source_id = i;
  amount = pos amount;
  currency = ngn;
}

abbrev pub open_row : Settlement
open_row =
    let row =
      new_settlement (bill 1 30) ngn (codes "k1") provider provider_processing (codes "ref-1") in
    record row {
      provider_name = some (codes "PAYSTACK");
      transfer_reference = some (codes "ref-1");
      reserved_at = some 5;
    }

abbrev pub prepared_row : Settlement
prepared_row = new_settlement (bill 2 10) ngn (codes "k2") provider prepared (codes "ref-2")

abbrev pub succeeded_row : Settlement
succeeded_row =
    let row = new_settlement (bill 3 20) ngn (codes "k3") manual succeeded (codes "ref-3") in
    record row { reserved_at = some 1; reservation_released_at = some 2; settled_at = some 2 }

abbrev deposit_row : WalletTransaction
deposit_row = record {
  organization_id = 7;
  wallet_account_id = 1;
  ledger_type = other_type (codes "DEPOSIT");
  direction = credit;
  amount = pos 120;
  balance_before = pos 0;
  balance_after = pos 120;
  reference = codes "in-1";
  transfer_reference = none;
  source_type = none;
  source_id = none;
  reversed_transaction = none;
}

abbrev payment_row : WalletTransaction
payment_row = record {
  organization_id = 7;
  wallet_account_id = 1;
  ledger_type = manual_of (other_source (codes "EXPENSE"));
  direction = debit;
  amount = pos 20;
  balance_before = pos 120;
  balance_after = pos 100;
  reference = codes "ref-3";
  transfer_reference = none;
  source_type = some (other_source (codes "EXPENSE"));
  source_id = some 3;
  reversed_transaction = none;
}

abbrev pub company : Db
company = record {
  wallets = (1, main_wallet) ∷ [];
  settlements = (1, open_row) ∷ (2, prepared_row) ∷ (3, succeeded_row) ∷ [];
  ledger = (1, deposit_row) ∷ (2, payment_row) ∷ [];
  payment_requests = [];
  payslips = [];
  payroll_runs = [];
  organizations = (7, record { is_test = true }) ∷ [];
  webhooks = [];
  audit = record { logs = []; chains = [] };
  books = record {
    clients = [];
    projects = [];
    catalogue = [];
    users = [];
    templates = [];
    invoices = [];
    payments = [];
    history = [];
  };
  fundings = [];
}

only_wallet : (k : ℕ) (w : Wallet) → find k company.wallets ≡ some w → (k ≡ 1) × (w ≡ main_wallet)
unfolding find
only_wallet k w e = ground arith

company_balanced : IsBalancedBy (pos 0) (pos 0) 1 main_wallet company
unfolding active_sum expected_balance sum_of ◌+ℤ◌ ◌-ℤ◌
company_balanced = record { reserved_is_held = refl; within_balance = omega arith; ledgered = refl }

pub company-IsSound : IsSound company
company-IsSound k w e = let (one, main) = only_wallet k w e in rw (one, main) company_balanced

abbrev pub fresh : Fresh
fresh = record { now = 50; settlement_id = 9; ledger_id = 9; reference = codes "ref-9" }

abbrev pub paid_by_hand : ManualInput
paid_by_hand = record {
  idempotency_key = codes "k9";
  external_reference = codes "bank-9";
  settled_at = 40;
}

abbrev pub reported : TransferState → TransferResult
reported state = record {
  reference = codes "ref-1";
  transfer_code = some (codes "TRF_1");
  recipient_reference = none;
  provider_status = codes "status";
  state = state;
  amount_minor = pos 30;
  currency = ngn;
}
