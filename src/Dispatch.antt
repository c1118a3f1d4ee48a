-- ===== src/Dispatch.antt =====
-- apps/web/src/server/services/notice-delivery.ts: from an approved notice to its dispatch.
pub mod Types
pub mod Store
pub mod Snapshot
pub mod Authorization
pub mod Provider
pub mod Rows
pub mod Send
pub mod Evidence
pub mod Receipts
pub mod Webhook
pub mod Once
pub mod Bodies
pub mod Keeps
pub mod Confirm
pub mod Reach
mod Tests
pub mod Guards
