-- ===== src/Router.antt =====
-- One model name served from a chain of providers (internal/router).
pub mod Policy
pub mod Options
pub mod Health
pub mod Selector
pub mod Errors
pub mod Chain
pub mod Route
mod Tests
