-- ===== src/Billing.antt =====
-- app/modules/billing.
pub mod Service
pub mod Router
pub mod Once
pub mod Client
pub mod Effect
pub mod Checkout
pub mod Replay
pub mod Kinds
