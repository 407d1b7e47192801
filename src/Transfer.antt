-- ===== src/Transfer.antt =====
-- Provider transfers of settlements: src/core/provider-settlement.ts.
pub mod Inputs
pub mod Claim
pub mod Result
pub mod Apply
pub mod Lease
pub mod Provider
pub mod Reconcile
pub mod Otp
pub mod Claims
pub mod Obligations
pub mod Payout
pub mod Once
pub mod Paid
pub mod Exclusion
pub mod Stale
pub mod Soundness
pub mod Ready
pub mod Reconciled
pub mod OtpSafety
