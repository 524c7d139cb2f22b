-- ===== src/Stats.antt =====
-- The statistics of the access logs of nginx: src/nginx_stats.rs.
pub mod Scan
pub mod Once
pub mod Counts
pub mod Growing
