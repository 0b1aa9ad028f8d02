-- ===== src/Net/Tests/Channels.antt =====
-- A channel on concrete values: its invariant, and what it sends.
use quickplay_server.Base.{
  ℕ, ◌-◌, ◌*◌, ◌^◌, ◌<◌, ◌≤◌, ◌≡◌, ◌⊎◌, true, false, List, [], ◌∷◌, ◌++◌, All, bits_of, arith, ok,
  panic,
}
use quickplay_server.Configuration.{load_default}
use quickplay_server.Io.BitList.{bit_list}
use quickplay_server.IoUtil.Varint.{varint_bytes}
use quickplay_server.Net.Message.{disconnect}
use quickplay_server.Net.Message.Reads.{IsReadable}
use quickplay_server.Net.NetChannel.State.{
  NetChannel, OutgoingReliableData, new, total_fragments, bytes_to_fragments, fragment_size,
}
use quickplay_server.Net.NetChannel.State.Fragments.{bytes_to_fragments-least}
use quickplay_server.Net.NetChannel.Packets.{read_packet, write_packet}
use quickplay_server.Net.NetChannel.Send.{write_stream}
use quickplay_server.Net.NetChannel.Send.Single.{write_stream-single}
use quickplay_server.Net.NetChannel.Invariant.{Origin, IsChannel, Settles, new-IsChannel}
use quickplay_server.Net.NetChannel.Invariant.Written.{write_packet-IsChannel}
use quickplay_server.Net.NetChannel.Invariant.Received.{read_packet-IsChannel}

abbrev no_crc : List ℕ → ℕ
no_crc packet = 0

abbrev fresh : NetChannel
fresh = new 7 load_default

abbrev origin : Origin
origin = record { challenge = 7; configuration = load_default }

-- A reliable packet, whose block for the first stream has fewer bytes than it names.
abbrev packet : List ℕ
packet = 1 ∷ 0 ∷ 0 ∷ 0 ∷ 0 ∷ 0 ∷ 0 ∷ 0 ∷ 33 ∷ 0 ∷ 0 ∷ 0 ∷ 7 ∷ 0 ∷ 0 ∷ 0 ∷ 8 ∷ 1 ∷ 2 ∷ 0 ∷ []

read_packet-IsChannel_example :
    Settles origin (All IsReadable) (read_packet bit_list no_crc packet fresh)
read_packet-IsChannel_example =
    read_packet-IsChannel bit_list no_crc packet fresh (omega arith) (new-IsChannel 7 load_default)

write_packet-IsChannel_example :
    IsChannel origin
      (write_packet bit_list no_crc (disconnect (record { reason = b'x' ∷ [] }) ∷ []) fresh).1
write_packet-IsChannel_example =
    write_packet-IsChannel bit_list no_crc (disconnect (record { reason = b'x' ∷ [] }) ∷ []) fresh
      (new-IsChannel 7 load_default)

abbrev transfer : OutgoingReliableData
transfer = record { acked_fragments = 0; pending_fragments = 0; content = 65 ∷ 66 ∷ 67 ∷ [] }

write_stream-single_example :
    ((3 < 3)
      × (write_stream bit_list 3 transfer 0 (total_fragments transfer) (bit_list.written [])
          ≡ ok (
              bit_list.written (
                (([] ++ true ∷ false ∷ false ∷ []) ++ bits_of (varint_bytes 4 3))
                ++ bits_of (65 ∷ 66 ∷ 67 ∷ [])))))
    ⊎ ((3 ≤ 3)
        × (write_stream bit_list 3 transfer 0 (total_fragments transfer) (bit_list.written [])
            ≡ panic))
write_stream-single_example =
    write_stream-single bit_list 3 transfer [] (omega arith)
      (omega arith, (omega arith, (omega arith, tt)))

bytes_to_fragments-least_example :
    ((257 ≤ 2 ^ 32 - fragment_size)
      × (257 ≤ bytes_to_fragments 257 * fragment_size)
      × (bytes_to_fragments 257 ≤ 3))
    ⊎ ((2 ^ 32 - fragment_size < 257) × (bytes_to_fragments 257 ≡ 0))
bytes_to_fragments-least_example = bytes_to_fragments-least 257 3 (omega arith) (omega arith)
