-- ===== src/Projects.antt =====
-- app/modules/projects.
pub mod Service
pub mod Router
