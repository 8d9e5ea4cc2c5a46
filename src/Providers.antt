-- ===== src/Providers.antt =====
-- What crosses the provider boundary (internal/providers).
pub mod Errors
pub mod Types
pub mod Wire
pub mod Readers
pub mod Sse
pub mod OpenaiWire
pub mod Samples
mod Tests
