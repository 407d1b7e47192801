-- ===== src/Invoice.antt =====
-- The invoices of src/modules/accounting/accounting.service.ts: their lines and totals, the passage
-- from draft to paid, and the payments recorded against them.
pub mod Amounts
pub mod Lines
pub mod Store
pub mod Relations
pub mod Draft
pub mod Send
pub mod Pay
pub mod Whole
pub mod Settled
pub mod Reads
pub mod Writes
pub mod Kept
pub mod DraftKept
pub mod SentKept
pub mod PaidKept
pub mod Runs
pub mod Replay
pub mod Rounding
