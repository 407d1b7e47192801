-- ===== src/Database/Write.antt =====
-- Creating and updating rows under the unique constraints of prisma/schema.prisma. NULL conflicts
-- with nothing.
use sinkronis_backend.Common.{
  ℕ, Bool, false, Option, none, some, ◌==◌, ◌&&◌, ◌||◌, not, if◌then◌else◌, is_set,
}
use sinkronis_backend.Common.Text.{Text, text_eq}
use sinkronis_backend.Common.Table.{find, put, any_other}
use sinkronis_backend.Database.Rows.{
  Wallet, Settlement, WalletTransaction, PaymentRequest, Payslip, PayrollRun, SourceType, source_eq,
  ledger_type_eq,
}
use sinkronis_backend.Database.Monad.{Action, ok, err, p2002, p2025, require}

-- Equal, and not NULL.
abbrev pub same_text : Option Text → Option Text → Bool
same_text (some s) (some t) = text_eq s t
same_text _ _ = false

abbrev pub same_id : Option ℕ → Option ℕ → Bool
same_id (some a) (some b) = a == b
same_id _ _ = false

abbrev pub same_source : Option SourceType → Option SourceType → Bool
same_source (some s) (some t) = source_eq s t
same_source _ _ = false

-- The unique constraints of the model FinancialSettlement.
unfoldable pub settlements_conflict : Settlement → Settlement → Bool
settlements_conflict a b =
    a.organization_id == b.organization_id
      && (source_eq a.source_type b.source_type && a.source_id == b.source_id
          || text_eq a.idempotency_key b.idempotency_key
          || text_eq a.internal_reference b.internal_reference
          || same_text a.external_reference b.external_reference
          || same_text a.reversal_reference b.reversal_reference)
    || same_text a.provider_name b.provider_name
      && same_text a.transfer_reference b.transfer_reference
    || same_id a.reversal_ledger_id b.reversal_ledger_id

-- The unique constraints of the model WalletTransaction.
unfoldable pub ledger_conflict : WalletTransaction → WalletTransaction → Bool
ledger_conflict a b =
    a.organization_id == b.organization_id
      && (text_eq a.reference b.reference || same_text a.transfer_reference b.transfer_reference)
    || a.wallet_account_id == b.wallet_account_id
      && same_source a.source_type b.source_type
      && same_id a.source_id b.source_id
      && ledger_type_eq a.ledger_type b.ledger_type

-- `create`: the row comes back.
unfoldable pub create_settlement : ℕ → Settlement → Action Settlement
create_settlement k row db =
    if is_set (find k db.settlements) || any_other k (settlements_conflict row) db.settlements
    then (err p2002, db)
    else (ok row, record db { settlements = put k row db.settlements })

unfoldable pub create_ledger : ℕ → WalletTransaction → Action ℕ
create_ledger k row db =
    if is_set (find k db.ledger) || any_other k (ledger_conflict row) db.ledger
    then (err p2002, db)
    else (ok k, record db { ledger = put k row db.ledger })

-- `update({ where: { id } })`: the new row comes back.
unfoldable pub update_settlement : ℕ → (Settlement → Settlement) → Action Settlement
update_settlement k f db = elim (find k db.settlements) [
  | none ↦ (err p2025, db)
  | some row ↦
      if any_other k (settlements_conflict (f row)) db.settlements
      then (err p2002, db)
      else (ok (f row), record db { settlements = put k (f row) db.settlements })
]

-- `updateMany({ where: { id, … } })`: the number of rows changed comes back.
unfoldable pub update_settlement_where :
    ℕ → (Settlement → Bool) → (Settlement → Settlement) → Action ℕ
update_settlement_where k p f db = elim (find k db.settlements) [
  | none ↦ (ok 0, db)
  | some row ↦
      if not (p row)
      then (ok 0, db)
      else if any_other k (settlements_conflict (f row)) db.settlements
      then (err p2002, db)
      else (ok 1, record db { settlements = put k (f row) db.settlements })
]

unfoldable pub update_wallet_where : ℕ → (Wallet → Bool) → (Wallet → Wallet) → Action ℕ
update_wallet_where k p f db = elim (find k db.wallets) [
  | none ↦ (ok 0, db)
  | some w ↦ if p w then (ok 1, record db { wallets = put k (f w) db.wallets }) else (ok 0, db)
]

-- `update({ where: { id } })` on a wallet
unfoldable pub update_wallet : ℕ → (Wallet → Wallet) → Action Wallet
update_wallet k f db = elim (find k db.wallets) [
  | none ↦ (err p2025, db)
  | some w ↦ (ok (f w), record db { wallets = put k (f w) db.wallets })
]

-- `updateMany` on the business tables
unfoldable pub update_request_where :
    ℕ → (PaymentRequest → Bool) → (PaymentRequest → PaymentRequest) → Action ℕ
update_request_where k p f db = elim (find k db.payment_requests) [
  | none ↦ (ok 0, db)
  | some r ↦
      if p r
      then (ok 1, record db { payment_requests = put k (f r) db.payment_requests })
      else (ok 0, db)
]

unfoldable pub update_payslip_where : ℕ → (Payslip → Bool) → (Payslip → Payslip) → Action ℕ
update_payslip_where k p f db = elim (find k db.payslips) [
  | none ↦ (ok 0, db)
  | some r ↦ if p r then (ok 1, record db { payslips = put k (f r) db.payslips }) else (ok 0, db)
]

unfoldable pub update_run_where : ℕ → (PayrollRun → Bool) → (PayrollRun → PayrollRun) → Action ℕ
update_run_where k p f db = elim (find k db.payroll_runs) [
  | none ↦ (ok 0, db)
  | some r ↦
      if p r then (ok 1, record db { payroll_runs = put k (f r) db.payroll_runs }) else (ok 0, db)
]

unfoldable pub update_run : ℕ → (PayrollRun → PayrollRun) → Action (Unit {0})
update_run k f db = elim (find k db.payroll_runs) [
  | none ↦ (err p2025, db)
  | some r ↦ (ok tt, record db { payroll_runs = put k (f r) db.payroll_runs })
]

-- `findUniqueOrThrow`
unfoldable pub settlement_or_throw : ℕ → Action Settlement
settlement_or_throw i = λ db. require (find i db.settlements) p2025 db
