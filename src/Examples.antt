-- ===== src/Examples.antt =====
-- A small organization, and the theorems at work on it.
pub mod World
pub mod Organizations
pub mod Tenancy
pub mod RateLimit
pub mod Workers
pub mod Auth
pub mod Billing
pub mod Invitations
pub mod Cursors
pub mod Deliveries
pub mod Surroundings
pub mod Keys
pub mod Checkout
