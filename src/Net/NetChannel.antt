-- ===== src/Net/NetChannel.antt =====
-- src/net/netchannel.rs, by the parts of the channel.
pub mod State
pub mod Run
pub mod Update
pub mod Fill
pub mod Send
pub mod Receive
pub mod Messages
pub mod Header
pub mod Packets
pub mod Invariant
