-- ===== src/Middleware.antt =====
-- The package internal/middleware.
pub mod Auth
pub mod Cors
pub mod RequestId
mod Tests
