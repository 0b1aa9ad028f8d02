-- ===== src/Server.antt =====
-- src/main.rs: the connections with clients, and the server that makes them.
pub mod Connection
pub mod Table
pub mod Tasks
pub mod Kept
pub mod Entries
pub mod Effects
pub mod Invariant
pub mod Reachable
pub mod Life
pub mod Delivered
pub mod Removal
pub mod Main
pub mod Started
mod Tests
