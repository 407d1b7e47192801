-- ===== src/Database/Rows.antt =====
-- Row types of prisma/schema.prisma, with the columns that the modelled code reads or writes.
use sinkronis_backend.Common.{ℕ, Bool, true, false, Option}
use sinkronis_backend.Common.Int.{ℤ}
use sinkronis_backend.Common.Text.{Text, text_eq}
use sinkronis_backend.Common.Table.{Table}
use sinkronis_backend.Database.AuditRows.{AuditTrail}
use sinkronis_backend.Database.FundingRows.{WalletFunding}
use sinkronis_backend.Database.BookRows.{Books}

pub record Wallet : Type 0 where
  pub organization_id : ℕ
  pub currency : Text
  pub balance : ℤ
  pub reserved_balance : ℤ

-- What the platform keeps of a tenant: `classification === "TEST_E2E"`.
pub record Organization : Type 0 where
  pub is_test : Bool

pub data InboxStatus : Type 0 where
  received processing event_failed processed ignored dead_letter : InboxStatus

-- The stored payload of a transfer event, as far as its fields have the type that the code asks for.
pub record Payload : Type 0 where
  pub reference : Option Text
  pub amount : Option ℤ
  pub currency : Option Text
  pub status : Option Text
  pub transfer_code : Option Text
  pub recipient_reference : Option Text

pub record WebhookEvent : Type 0 where
  pub provider : Text
  pub event_type : Text
  pub payload : Payload
  pub status : InboxStatus
  pub attempts : ℤ
  pub deferred_attempts : ℕ
  pub claim_token : Option ℕ
  pub claimed_at : Option ℕ
  pub lease_expires_at : Option ℕ
  pub next_attempt_at : Option ℕ
  pub dead_lettered_at : Option ℕ
  pub processed_at : Option ℕ

-- `sourceType`; the settlement code tests for the first two by name.
pub data SourceType : Type 0 where
  accounting_payment_request payroll_payslip : SourceType
  other_source : Text → SourceType

abbrev pub source_eq : SourceType → SourceType → Bool
source_eq accounting_payment_request accounting_payment_request = true
source_eq payroll_payslip payroll_payslip = true
source_eq (other_source s) (other_source t) = text_eq s t
source_eq _ _ = false

pub data Method : Type 0 where
  manual provider : Method

pub data Status : Type 0 where
  prepared reserved provider_processing unknown succeeded failed reversed : Status

-- The claim of a reconciliation worker on a settlement.
pub record Lease : Type 0 where
  pub claim_token : Option ℕ
  pub claimed_at : Option ℕ
  pub expires_at : Option ℕ
  pub attempts : ℕ
  pub last_error : Option Text

pub record Settlement : Type 0 where
  pub organization_id : ℕ
  pub wallet_account_id : ℕ
  pub source_type : SourceType
  pub source_id : ℕ
  pub method : Method
  pub status : Status
  pub amount : ℤ
  pub currency : Text
  pub internal_reference : Text
  pub idempotency_key : Text
  pub provider_name : Option Text
  pub recipient_reference : Option Text
  pub transfer_reference : Option Text
  pub transfer_code : Option Text
  pub provider_status : Option Text
  pub initiation_claimed_at : Option ℕ
  pub initiation_attempted_at : Option ℕ
  pub last_verified_at : Option ℕ
  pub external_reference : Option Text
  pub failure_reason : Option Text
  pub reserved_at : Option ℕ
  pub reservation_released_at : Option ℕ
  pub provider_processing_at : Option ℕ
  pub settled_at : Option ℕ
  pub reversed_at : Option ℕ
  pub reversal_reference : Option Text
  pub reversal_ledger_id : Option ℕ
  pub lease : Lease

pub data Direction : Type 0 where
  debit outflow credit inflow adjustment : Direction

-- `type`, a prefix and the source type.
pub data LedgerType : Type 0 where
  manual_of provider_of reversal_of : SourceType → LedgerType
  other_type : Text → LedgerType

abbrev pub ledger_type_eq : LedgerType → LedgerType → Bool
ledger_type_eq (manual_of s) (manual_of t) = source_eq s t
ledger_type_eq (provider_of s) (provider_of t) = source_eq s t
ledger_type_eq (reversal_of s) (reversal_of t) = source_eq s t
ledger_type_eq (other_type s) (other_type t) = text_eq s t
ledger_type_eq _ _ = false

pub record WalletTransaction : Type 0 where
  pub organization_id : ℕ
  pub wallet_account_id : ℕ
  pub ledger_type : LedgerType
  pub direction : Direction
  pub amount : ℤ
  pub balance_before : ℤ
  pub balance_after : ℤ
  pub reference : Text
  pub transfer_reference : Option Text
  pub source_type : Option SourceType
  pub source_id : Option ℕ
  pub reversed_transaction : Option ℕ

pub data RequestStatus : Type 0 where
  pending approved rejected paid : RequestStatus

pub record PaymentRequest : Type 0 where
  pub organization_id : ℕ
  pub title : Text
  pub requester_user_id : Option ℕ
  pub invoice_id : Option ℕ
  pub project_id : Option ℕ
  pub client_id : Option ℕ
  pub amount : ℤ
  pub currency : Text
  pub status : RequestStatus
  pub approved_by : Option ℕ
  pub approved_at : Option ℕ
  pub declined_by : Option ℕ
  pub declined_at : Option ℕ
  pub decision_reason : Option Text
  pub bank_name : Option Text
  pub bank_code : Option Text
  pub account_number : Option Text
  pub account_name : Option Text
  pub disbursement_reference : Option Text
  pub disbursed_at : Option ℕ

pub data PaymentStatus : Type 0 where
  slip_paid slip_reversed slip_unpaid : PaymentStatus

pub record Payslip : Type 0 where
  pub organization_id : ℕ
  pub payroll_run_id : ℕ
  pub payment_status : PaymentStatus

pub data RunStatus : Type 0 where
  disbursing disbursed cancelled other_run_status : RunStatus

pub record PayrollRun : Type 0 where
  pub organization_id : ℕ
  pub run_status : RunStatus
  pub disbursed_at : Option ℕ

pub record Db : Type 0 where
  pub wallets : Table Wallet
  pub settlements : Table Settlement
  pub ledger : Table WalletTransaction
  pub payment_requests : Table PaymentRequest
  pub payslips : Table Payslip
  pub payroll_runs : Table PayrollRun
  pub organizations : Table Organization
  pub webhooks : Table WebhookEvent
  pub audit : AuditTrail
  pub books : Books
  pub fundings : Table WalletFunding
