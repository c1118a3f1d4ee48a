-- ===== src/Delivery.antt =====
-- packages/notice-delivery/src: the rules of the delivery of an approved notice.
pub mod Types
pub mod Status
pub mod Retry
pub mod Validate
pub mod Risk
pub mod Receipt
pub mod Keys
mod Tests
