-- ===== src/Db.antt =====
-- db: the migrations.
pub mod Migrator
pub mod Distinct
pub mod Pending
pub mod Migrated
mod Tests
