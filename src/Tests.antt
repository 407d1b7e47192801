-- ===== src/Tests.antt =====
-- Concrete tables and calls, and the theorems at them.
mod Samples
mod Settlements
mod Transfers
mod Deliveries
mod Requests
mod Takeovers
mod Recoveries
mod Invoices
mod Fundings
mod Accesses
mod Audits
