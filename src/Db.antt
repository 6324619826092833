-- ===== src/Db.antt =====
-- app/db: the tables, their constraints, and the session of a request.
pub mod Json
pub mod Models
pub mod Constraints
pub mod Session
