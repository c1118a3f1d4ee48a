-- ===== src/Tracking.antt =====
-- apps/web/src/server/services/deadlines.ts: from the events of a project to the deadlines that are
-- tracked.
pub mod Types
pub mod Store
pub mod Events
pub mod Rules
pub mod Calendars
pub mod Calculation
pub mod Deadlines
pub mod Traceable
pub mod Keeps
pub mod Makes
pub mod Replaces
pub mod Reach
pub mod Carried
mod Tests
