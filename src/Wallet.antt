-- ===== src/Wallet.antt =====
-- Wallet balances and reservations: src/core/wallet-integrity.ts.
pub mod Calls
pub mod Balance
