-- ===== src/Hosts.antt =====
-- The managed hosts: src/hosts.rs.
pub mod Secret
pub mod RoundTrip
pub mod Table
pub mod Inventory
pub mod Known
pub mod Entries
pub mod Synced
