-- ===== src/Migrations.antt =====
-- internal/migrations: versions of the schema.
pub mod Manager
pub mod Running
pub mod Undoing
pub mod Complete
