-- ===== src/Request.antt =====
-- Payment requests and their disbursement: src/modules/accounting/accounting.service.ts.
pub mod Decide
pub mod Create
pub mod Created
pub mod Decided
pub mod Disburse
pub mod Disbursed
