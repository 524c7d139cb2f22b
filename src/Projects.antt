-- ===== src/Projects.antt =====
-- Projects, their versions and the revisions of their compose and .env files: src/db.rs, src/models.rs
-- and the handlers of src/api.rs that store them.
pub mod Tables
pub mod Revisions
pub mod Save
pub mod Write
pub mod History
pub mod Journal
pub mod Refine
pub mod Positions
pub mod Kept
pub mod Saved
pub mod Calls
pub mod Versions
pub mod Sound
pub mod Made
pub mod Reachable
pub mod Current
