-- ===== src/Cache.antt =====
-- Answers that are given again (internal/cache).
pub mod Types
pub mod Exact
pub mod Policy
pub mod Keys
pub mod Semantic
pub mod Lookup
mod Tests
