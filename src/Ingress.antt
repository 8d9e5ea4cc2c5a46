-- ===== src/Ingress.antt =====
-- The client-facing surface (internal/ingress).
pub mod Responses
pub mod Recorder
pub mod Stream
pub mod Handler
pub mod Auth
mod Tests
