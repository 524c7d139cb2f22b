-- ===== src/Sql.antt =====
-- src/dbadmin.rs: the statements that the database console sends, and how it quotes what the user gives.
pub mod Quote
pub mod Rows
pub mod Lead
pub mod Scan
