-- ===== src/Core.antt =====
-- app/core: the errors, the roles and permissions, the settings, tokens and dependencies.
pub mod Errors
pub mod Permissions
pub mod Config
pub mod Claims
pub mod Security
pub mod Dependencies
pub mod Texts
pub mod Decimal
pub mod Base64
pub mod Pagination
pub mod Cursors
pub mod Paging
pub mod Listing
pub mod Walk
pub mod Slices
