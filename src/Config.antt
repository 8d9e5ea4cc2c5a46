-- ===== src/Config.antt =====
-- What an operator configures, and what is rejected at startup (internal/config).
pub mod Auth
pub mod Routes
mod Tests
