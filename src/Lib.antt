-- ===== src/Lib.antt =====
-- The quickplay server: a game client connects to it over the Source engine's UDP protocol, sends
-- its preferences as convars, and is told the address of a game server that fits them.
--
-- A datagram is classified by src/net/packet.rs. Without a connection it goes to
-- src/net/connectionless.rs, whose handshake ends with the challenge that starts a channel of
-- src/net/netchannel.rs. The channel checks the header of each packet, keeps the acknowledgements
-- of its subchannels, reassembles the fragments of reliable transfers and reads messages
-- (src/net/message.rs) with the formats of src/io_util.rs. The messages carry the convars from
-- which src/quickplay/session.rs updates the preferences, by which it chooses from the server list
-- of src/quickplay/global.rs. src/main.rs has the tasks: one that receives the datagrams and makes
-- connections, and for each connection one that works on its packets and one that ends it.
--
-- Files:
--   Base            shared helpers: tests, lists, results (ok, err, panic, stuck), words of 8, 16
--                   and 32 bits with their wrap-around, bits of bytes, texts as bytes
--   Errors          the errors of src/net/packet.rs and those that the code makes with anyhow!
--   Configuration   src/configuration.rs: the records, load_default and load_from_file
--   Io              the interface of the crate bitstream_io, with a list of bits as an instance
--   IoUtil          src/io_util.rs: write_string, read_string, write_varint32, read_varint32
--   Net.Packet      src/net/packet.rs: decode_raw_packet, decompress_packet
--   Net.Message     src/net/message.rs: Message, Message::read as read, Message::write as write
--   Net.Connectionless   src/net/connectionless.rs: one function for each handler; a handler
--                   returns its result beside the datagrams that it sends
--   Net.NetChannel  src/net/netchannel.rs: State (NetChannel and its parts), Header (read_header),
--                   Update (update_outgoing_subchannels, pop_completed_outgoing_transfers), Fill
--                   (fill_outgoing_subchannel), Send (write_outgoing_reliable_data), Receive
--                   (read_incoming_subchannel_data), Messages (read_messages,
--                   read_reliable_messages, queue_reliable_messages), Packets (read_packet,
--                   write_packet). A method on &mut self is a function from the channel to its
--                   result and the channel that it leaves, also when it fails.
--   Net.NetChannel.Invariant   what holds of a channel between two calls
--   Net.NetChannel.Packets.Exchange, Lossy   the packets of one channel at another; exchange runs
--                   write_packet and read_packet in turn
--   Quickplay       src/quickplay: ServerTags, Gamemodes, Global and Refresh (global.rs),
--                   Preferences, Filter, Score and Session (session.rs)
--   Server          src/main.rs: Connection (Connection), Table (Server with its map of
--                   connections), Tasks (the steps of all tasks, in any order), Main (main). The
--                   map refers to connections by their number, in the order of their making.
--                   Invariant, Kept, Effects, Entries, Reachable, Removal, Delivered and Started are
--                   about them. Life is the view of the connections from outside, which Tasks
--                   refines.
--   IoUtil.Tests, Net.Tests, Quickplay.Tests, Server.Tests   concrete runs
--
-- Fuel: read_string takes one round more than its bound, read_varint32 six rounds for five bytes,
-- write_varint32 the five rounds that a u32 can need, read_messages one round more than the data has
-- bits, since each message takes at least six bits. The result `stuck` stands for lack of
-- fuel.
--
-- Numbers: a u8, u16 or u32 is a natural number whose arithmetic wraps as in a release build. A text
-- is the list of the bytes of its UTF-8.
--
-- Parameters: the bit streams of the crate bitstream_io, as the record BitIo of Io.antt with the
-- documented laws of reading and writing; the decoder of the crate snap; the CRC of the crate
-- crc; the standard library's hasher, applied to an address; whether the socket takes a datagram;
-- f32, as the record Floats of Quickplay/Floats.antt with transitivity and irreflexivity of >; the
-- parser of socket addresses, the equality and the text of an address; serde_json and toml, as
-- functions from the bytes of a file; what the files of the system hold.
--
-- Tasks: a round of a connection's task, the handling of a datagram, each arm of the select! in
-- remove_dead_connection and the removal after it are one step each, and the steps come in any order; inside a round the server list may change from
-- one message to the next. Two things that the program could do are left out by this: a step of
-- another task at an await inside a step, and a timer that ends before its connection is inserted into
-- the map.
--
-- Not modelled: the sockets and their errors, the time between the rounds of a task and until a timer
-- ends, the lock around the server list, the token of the server, which nothing waits for; logging.

pub mod Base
pub mod Errors
pub mod Configuration
pub mod Io
pub mod IoUtil
pub mod Net
pub mod Quickplay
pub mod Server
