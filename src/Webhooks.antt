-- ===== src/Webhooks.antt =====
-- app/modules/webhooks: endpoints, events and deliveries.
pub mod Events
pub mod Targets
pub mod Public
pub mod Signing
pub mod Service
pub mod Router
pub mod Fanout
pub mod Owners
