-- ===== src/Recovery.antt =====
-- Recovery of inbound payments: src/core/inbound-payment-recovery.ts.
pub mod Attempt
pub mod Excluded
