-- ===== src/Storage.antt =====
-- src/storage.rs: network storages, their validation, mount options and entries in /etc/fstab.
pub mod Validate
pub mod Normalize
pub mod Mount
pub mod Fstab
