-- ===== src/Budget.antt =====
-- What a tenant may spend (internal/budget).
pub mod Types
pub mod Windows
pub mod Enforcer
pub mod Account
pub mod Admission
pub mod World
pub mod Outstanding
pub mod Beginning
pub mod Books
pub mod Settling
pub mod Overshoot
pub mod Once
pub mod Durability
pub mod Restart
pub mod Survival
pub mod Estimator
pub mod Guard
mod Tests
