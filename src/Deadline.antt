-- ===== src/Deadline.antt =====
-- packages/contract-rules/src/deadline-engine.ts: the date on which a contractual period ends.
pub mod Types
pub mod Luxon
pub mod Rule
pub mod Calendar
pub mod Steps
pub mod Engine
mod Tests
