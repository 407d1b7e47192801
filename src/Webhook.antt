-- ===== src/Webhook.antt =====
-- The inbox of provider webhooks: src/core/paystack-transfer-webhook.ts.
pub mod Inbox
pub mod Effects
pub mod Process
pub mod Retry
pub mod Counts
pub mod Exclusive
pub mod Delivered
