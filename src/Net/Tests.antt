-- ===== src/Net/Tests.antt =====
-- Concrete runs of src/net.
mod Messages
mod Packets
mod Channels
mod Exchange
