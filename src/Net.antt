-- ===== src/Net.antt =====
-- src/net: the packets, the messages, the connectionless protocol and the network channel.
pub mod Packet
pub mod Message
pub mod Connectionless
pub mod NetChannel
mod Tests
