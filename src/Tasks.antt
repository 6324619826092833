-- ===== src/Tasks.antt =====
-- app/modules/tasks.
pub mod Service
pub mod Router
pub mod Placement
