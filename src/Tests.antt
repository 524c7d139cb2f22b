-- ===== src/Tests.antt =====
-- The theorems at concrete inputs, and runs of the definitions.
mod Accounts
mod Running
mod Releases
mod Statements
mod Mounts
mod Requests
mod Nodes
mod Files
mod Revisions
mod Copies
mod Secrets
mod Inventory
mod Logs
