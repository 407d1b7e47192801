-- ===== src/Lib.antt =====
-- The financial core of the Sinkronis backend.
--
-- An organisation holds money in wallets and pays business obligations (payment requests, payslips)
-- from them. A settlement reserves an amount of a wallet, pays it by hand or by a provider transfer,
-- and leaves a ledger row; it can fail, which releases the reservation, or be reversed, which restores
-- the balance. Several workers act on the same settlement: a request, the provider's webhooks, a
-- reconciliation job. An integrity scanner compares wallets with settlements and ledger.
--
-- Files and the code that they model:
--   Common       numbers, text, tables and the lemmas on them
--   Database     rows and unique constraints of prisma/schema.prisma, and database calls as a state and
--                error monad, with a family of rules for what holds after a call
--   Wallet       src/core/wallet-integrity.ts: spendable balance, reserve, debit, consume, release
--   Integrity    src/core/financial-integrity-scanner.ts: the balance checks of analyzeWalletIntegrity,
--                and the invariant behind them
--   Settlement   src/core/financial-settlement.ts: completeManualSettlement, prepareProviderSettlement,
--                releaseSettlementReservation, reverseSucceededSettlement; src/core/
--                payroll-wallet-incident-pause.ts
--   Transfer     src/core/provider-settlement.ts: reserveAndClaimProviderSettlement,
--                finalizeProviderSettlementSuccess, applyProviderTransferResult,
--                reverseProviderSettlement, the reconciliation lease,
--                verifyAndReconcileProviderSettlement, finalizeProviderSettlementOtp,
--                validatePaystackTransferApproval
--   Webhook      src/core/paystack-transfer-webhook.ts: claimPaystackTransferWebhook,
--                processStoredPaystackTransferWebhook, retryPendingPaystackTransferWebhooks; the status
--                mapping of src/core/paystack-transfer-provider.ts
--   Request      src/modules/accounting/accounting.service.ts: createPaymentRequest,
--                approvePaymentRequest, declinePaymentRequest, the manual branch of
--                disbursePaymentRequest
--   Audit        src/modules/admin/admin.audit.ts: the audit log, whose entries are linked by hashes
--   Invoice      src/modules/accounting/accounting.service.ts: createInvoice, updateInvoice, sendInvoice,
--                recordInvoicePayment, deleteInvoice
--   Funding      src/modules/accounting/accounting.service.ts: fundWalletManually,
--                finalizeVerifiedPaystackFunding, verifyPaystackWalletFunding
--   Access       src/modules/auth/permissions.ts and src/db/migrate-legacy-role-permissions.ts
--   Recovery     src/core/inbound-payment-recovery.ts: claims and releases of payment attempts
--   Tests        concrete tables and calls
--
-- How the code is written down. A DECIMAL(14,2) column is an integer number of hundredths; the range of
-- the column is not enforced. An id is a number, a DateTime a number of milliseconds, text a list of
-- code points; upper case and trimming are those of ASCII. A table is a list of rows by id, and the
-- order of the list is the order of creation. A call takes the tables and gives a result or an error
-- with the tables that it leaves; a transaction that ends in an error leaves them as they were. An
-- UPDATE with conditions, or updateMany, changes the one row that it names if the conditions hold. A
-- unique constraint that is violated is the error P2002, and a row to update that is not there is
-- P2025. What a call makes up (the time, ids, references) comes in as an argument, and the clock stands
-- still inside a call. Transactions are atomic steps: two calls that overlap are two calls in some
-- order, except that a row read before a call, as in applyProviderTransferResult, is an argument that
-- may be older than the tables. What the provider answers is an argument, the record `Answers`. A result
-- that is returned without await may be applied before or after the finally clause of its caller: both
-- orders are modelled. Loops run over the list of rows that was read, so they need no fuel. Packages are
-- the record `External`: the sign test of Prisma.Decimal, SHA-256, localeCompare, and what a DECIMAL
-- column keeps of a number with more decimals. The validation admits any finite number that is not
-- negative: the amounts of a request, prices and quantities of lines, and the VAT rate in percent are
-- `Amount`s, decimal numbers of any length that are compared and multiplied as they were given, and
-- rounded by the columns. Products are exact: the twenty digits of Prisma.Decimal are not a bound here. The
-- increment of a wallet by a funding adds what the column of the ledger keeps, as it does while the balance
-- is not negative. The sequence of an audit entry is not bounded by its column. The columns of a wallet
-- funding attempt that its lease needs are in Recovery, the others in Funding. The VAT rate of the
-- platform and whether a mail is accepted are arguments.
--
-- Not modelled: controllers, routes and validation; mail, queues and object storage; descriptions,
-- evidence, stored error messages of the inbox; recipients and the first initiation of a transfer;
-- acceptance of a raw event; the audit entries of settlements and of decisions on payment requests;
-- the modules of the platform that do not move money.
pub mod Common
pub mod Database
pub mod Wallet
pub mod Integrity
pub mod Audit
pub mod Settlement
pub mod Transfer
pub mod Webhook
pub mod Request
pub mod Invoice
pub mod Funding
pub mod Recovery
pub mod Access
pub mod Tests
