-- ===== src/Backups.antt =====
-- Scheduled database backups: src/dbbackup.rs.
pub mod Schedule
pub mod Runs
pub mod Once
pub mod Due
pub mod Retention
pub mod Kept
