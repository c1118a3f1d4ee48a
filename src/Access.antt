-- ===== src/Access.antt =====
-- The access of a user to an organization and to its projects: apps/web/src/server/authz/context.ts,
-- services/tenants.ts and services/projects.ts.
pub mod Types
pub mod Cookie
pub mod Context
pub mod Tenants
pub mod Projects
pub mod Members
pub mod Contexts
pub mod Refusals
pub mod Governed
pub mod Changes
pub mod Fairness
pub mod Reach
pub mod Allowed
pub mod Listed
pub mod Passed
pub mod Updates
mod Tests
