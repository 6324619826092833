-- ===== src/Auth.antt =====
-- app/modules/auth.
pub mod Service
pub mod Router
pub mod Rotation
pub mod Refusal
pub mod Limit
pub mod Authentication
