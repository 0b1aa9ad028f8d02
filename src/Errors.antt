-- ===== src/Errors.antt =====
-- The errors of the program: `PacketDecoderError` of src/net/packet.rs, and one constructor for each
-- place that makes an `anyhow` error.
use Prim.Native.Nat.{ℕ}
use mathlib.Core.List.{List}

pub data PacketDecoderError : Type 0 where
  no_header_flags : PacketDecoderError
  split_packet : PacketDecoderError
  no_compression_type : PacketDecoderError
  unhandled_compression_type : List ℕ → PacketDecoderError
  no_compressed_data : PacketDecoderError
  decompression_error : PacketDecoderError

pub data Error : Type 0 where
  -- a read past the end of the data, a value too wide for its field, or a failed send
  io : Error
  -- `String::from_utf8`
  utf8 : Error
  -- `?` on `decode_raw_packet`
  decoder : PacketDecoderError → Error
  -- src/net/message.rs
  unhandled_message_type : ℕ → Error
  unhandled_message_for_write : Error
  -- src/net/connectionless.rs
  mismatched_server_challenge : ℕ → ℕ → Error
  unexpected_protocol_version : ℕ → Error
  unexpected_authentication_protocol : ℕ → Error
  wrong_query_string : Error
  no_challenge_value : Error
  unexpected_challenge : Error
  no_connectionless_data : Error
  unhandled_connectionless_type : ℕ → Error
  -- src/net/netchannel.rs
  outgoing_data_too_large : Error
  checksum_mismatch : ℕ → ℕ → Error
  challenge_mismatch : ℕ → ℕ → Error
  challenge_expected : Error
  unexpected_sequence_number : ℕ → ℕ → Error
  too_many_packets_dropped : ℕ → ℕ → Error
  invalid_reliable_state : ℕ → Error
  waiting_for_ack_without_stream : Error
  unexpected_free_subchannel : Error
  file_transfer : Error
  compressed_data : Error
  no_active_subchannel_data : Error
  out_of_bounds_fragment : ℕ → ℕ → ℕ → Error
  no_fragment_slice : Error
  fragments_overflow : ℕ → ℕ → Error
  file_upload : Error
  no_outgoing_slice : Error
  -- src/main.rs
  connection_closed : Error
