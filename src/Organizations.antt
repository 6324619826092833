-- ===== src/Organizations.antt =====
-- app/modules/organizations: organizations, their members and the invitations to them.
pub mod Schemas
pub mod Service
pub mod Router
pub mod Replay
pub mod Owners
pub mod Acceptance
pub mod Reinvitation
