-- ===== src/Cluster.antt =====
-- The registry of nodes that a master keeps: src/cluster/server.rs.
pub mod Registry
pub mod Merge
pub mod Requests
pub mod Upkeep
pub mod Upserts
pub mod Steps
pub mod Beats
pub mod Accounts
pub mod Token
