-- ===== src/Net/Packet.antt =====
-- src/net/packet.rs: the header of a raw packet, and decompression.
pub mod Classify
use quickplay_server.Base.{
  ℕ, zero, suc, ◌+◌, ◌*◌, ◌-◌, ◌/◌, ◌%◌, ◌^◌, Bool, List, [], ◌∷◌, Option, none, some, Outcome, ok,
  err, panic, ◌>>=◌, ok_or, map_err, leb, length, take, drop, bytes, eq_bytes, if◌then◌else◌,
}
use quickplay_server.Errors.{
  PacketDecoderError, no_header_flags, split_packet, no_compression_type,
  unhandled_compression_type, no_compressed_data, decompression_error,
}

-- `data.get(from..to)`.
abbrev pub get_range : List ℕ → ℕ → ℕ → Option (List ℕ)
get_range data' from to =
    if leb to (length data') then some (take (to - from) (drop from data')) else none

-- `data.get(from..)`.
abbrev pub get_from : List ℕ → ℕ → Option (List ℕ)
get_from data' from = if leb from (length data') then some (drop from data') else none

-- `u32::to_le_bytes`.
abbrev pub to_le_bytes : ℕ → List ℕ
to_le_bytes v = (v % 256) ∷ (v / 2 ^ 8 % 256) ∷ (v / 2 ^ 16 % 256) ∷ (v / 2 ^ 24 % 256) ∷ []

-- `u32::from_le_bytes`, of four bytes.
abbrev pub from_le_bytes : List ℕ → ℕ
from_le_bytes [] = 0
from_le_bytes (b ∷ bs) = b + 256 * from_le_bytes bs

-- `-1_i32 as u32` and its neighbours.
abbrev pub connectionless_header : ℕ
connectionless_header = 2 ^ 32 - 1

abbrev pub splitpacket_header : ℕ
splitpacket_header = 2 ^ 32 - 2

abbrev pub compressedpacket_header : ℕ
compressedpacket_header = 2 ^ 32 - 3

abbrev pub compression_snappy : List ℕ
compression_snappy = bytes "SNAP"

pub data Packet : Type 0 where
  connectionless : List ℕ → Packet
  regular : List ℕ → Packet

-- `decompress_vec` is the snappy decoder of the crate snap; `none` is its error.
module _ (decompress_vec : List ℕ → Option (List ℕ)) where
  unfoldable pub decompress_packet : List ℕ → Outcome PacketDecoderError (List ℕ)
  decompress_packet packet_data = do
    compression_type ← ok_or (get_range packet_data 4 8) no_compression_type
    let decompress = do
      compressed_data ← ok_or (get_from packet_data 8) no_compressed_data
      ok_or (decompress_vec compressed_data) decompression_error
    if eq_bytes compression_type compression_snappy
        then decompress
        else err (unhandled_compression_type compression_type)

  unfoldable pub decode_raw_packet : List ℕ → Outcome PacketDecoderError Packet
  decode_raw_packet raw = do
    header_flags ← ok_or (get_range raw 0 4) no_header_flags
    let decode = do
      packet_data ←
          (if eq_bytes header_flags (to_le_bytes compressedpacket_header)
            then decompress_packet raw
            else ok raw)
      inner_header_flags ← ok_or (get_range packet_data 0 4) no_header_flags
      ok (
          if eq_bytes inner_header_flags (to_le_bytes connectionless_header)
          then connectionless packet_data
          else regular packet_data)
    if eq_bytes header_flags (to_le_bytes splitpacket_header) then err split_packet else decode
