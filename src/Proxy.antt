-- ===== src/Proxy.antt =====
-- The package internal/proxy.
pub mod SjsonPath
pub mod Match
pub mod Body
pub mod Actions
pub mod Handler
mod Tests
