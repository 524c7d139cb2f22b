-- ===== src/Auth.antt =====
-- src/auth.rs, the login guard of src/state.rs and the account tables of src/db.rs.
pub mod Guard
pub mod Lockout
pub mod Locking
pub mod Tables
pub mod Tokens
pub mod Session
pub mod Rows
pub mod Access
pub mod Locked
pub mod Gate
pub mod Calls
pub mod Entry
pub mod Setup
pub mod Stored
pub mod Commands
pub mod Upheld
pub mod UpheldByCommands
pub mod Handlers
