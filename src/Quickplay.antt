-- ===== src/Quickplay.antt =====
-- src/quickplay: the server list, a user's preferences, and the choice of a server.
pub mod Floats
pub mod ServerTags
pub mod Gamemodes
pub mod Global
pub mod Preferences
pub mod Filter
pub mod Score
pub mod Session
pub mod Refresh
mod Tests
