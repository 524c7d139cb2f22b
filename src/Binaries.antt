-- ===== src/Binaries.antt =====
-- src/binaries.rs and the offer of src/cluster/self_update.rs: which processor a release file is for,
-- which version is newer, and which file a worker is offered. The file system is a map of paths.
pub mod Versions
pub mod Elf
pub mod Offer
