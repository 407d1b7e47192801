-- ===== src/Settlement.antt =====
-- Settlements of business obligations from a wallet: src/core/financial-settlement.ts.
pub mod Inputs
pub mod Reads
pub mod Manual
pub mod Soundness
pub mod Release
pub mod Reverse
pub mod Undo
pub mod Takeover
