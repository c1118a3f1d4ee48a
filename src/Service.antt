-- ===== src/Service.antt =====
-- What the services of apps/web/src/server share: errors, the context of a request, transactions,
-- and tables as lists of rows.
pub mod Result
pub mod Context
pub mod Rows
