-- ===== src/Files.antt =====
-- app/modules/files, and app/integrations/storage.py, which fills the record `Storage` of the router.
pub mod Router
pub mod Keys
pub mod Apart
pub mod Uploads
pub mod Bucket
