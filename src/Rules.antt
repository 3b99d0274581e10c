-- ===== src/Rules.antt =====
-- The package pkg/rules.
pub mod JsonPath
pub mod Json
pub mod Model
pub mod Store
pub mod DbStore
pub mod Service
mod Tests
