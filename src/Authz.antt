-- ===== src/Authz.antt =====
-- packages/authz: roles, capabilities and what a request may do.
pub mod Roles
pub mod Capabilities
pub mod Grants
pub mod Permissions
mod Tests
