-- ===== src/Funding.antt =====
-- The funding of wallets in src/modules/accounting/accounting.service.ts: by hand, and by a Paystack
-- payment.
pub mod Manual
pub mod Paystack
pub mod Soundness
pub mod Paid
pub mod Once
