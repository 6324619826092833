-- ===== src/Migrations.antt =====
-- alembic/versions: the tables of the database, and the migration that makes them.
pub mod Catalog
pub mod Columns
pub mod Tenants
pub mod Services
pub mod Initial
pub mod Frame
