-- ===== src/Admin.antt =====
-- The administration's HTTP interface; internal/admin.
pub mod Listing
pub mod Auth
pub mod Rules
pub mod Service
pub mod Accounts
mod Tests
