-- ===== src/Accounts.antt =====
-- The package pkg/accounts.
pub mod Model
pub mod Keys
pub mod Resolve
pub mod Create
pub mod Database
pub mod Service
mod Tests
