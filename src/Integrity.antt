-- ===== src/Integrity.antt =====
-- The wallet checks of the integrity scanner: src/core/financial-integrity-scanner.ts.
pub mod Checks
pub mod Sums
pub mod Described
pub mod Findings
pub mod Wallets
