-- ===== src/Workers.antt =====
-- app/workers/tasks.py: the Celery jobs.
pub mod Deliver
pub mod Post
pub mod Mail
pub mod Tasks
pub mod Maintenance
pub mod Attempts
pub mod Begin
pub mod Endings
pub mod Overlap
pub mod Expiry
