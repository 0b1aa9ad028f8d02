-- ===== src/Net/Tests/Exchange.antt =====
-- Packets from one channel to another, on concrete values.
use quickplay_server.Base.{
  ℕ, ◌+◌, ◌≡◌, refl, Bool, true, false, List, [], ◌∷◌, All, ok, length, u32, arith, bytes, le_bits,
}
use quickplay_server.Configuration.{load_default}
use quickplay_server.Io.BitList.{bit_list}
use quickplay_server.IoUtil.Utf8.{is_utf8}
use quickplay_server.Net.Message.{Message, disconnect}
use quickplay_server.Net.Message.RoundTrip.{IsExchanged, message_bits}
use quickplay_server.Net.NetChannel.State.{NetChannel, new}
use quickplay_server.Net.NetChannel.Messages.Loop.{all_bits}
use quickplay_server.Net.NetChannel.Packets.{write_packet, read_packet}
use quickplay_server.Net.NetChannel.Packets.Exchange.{
  InStep, IsCarried, taken, read_packet-write_packet,
}
use quickplay_server.Net.NetChannel.Packets.Lossy.{exchange, exchange-arrived}

abbrev no_crc : List ℕ → ℕ
no_crc packet = 0

abbrev client : NetChannel
client = new 7 load_default

abbrev server : NetChannel
server = new 7 load_default

in_step : InStep bit_list no_crc client server
unfolding new
in_step = record {
  fits = record {
    out_fits = omega arith;
    in_fits = omega arith;
    state_fits = omega arith;
    challenge_fits = omega arith;
  };
  idle_sender = (refl, refl);
  idle_receiver = (refl, refl);
  same_challenge = refl;
  same_state = refl;
  newer = omega arith;
  close = omega arith;
}

abbrev bye : List Message
bye = disconnect (record { reason = bytes "bye" }) ∷ []

bye-IsExchanged : All IsExchanged bye
unfolding is_utf8
bye-IsExchanged = ((ground arith, refl, ground arith), tt)

length-bye : length (all_bits bye) ≡ 38
unfolding all_bits message_bits le_bits
length-bye = refl

bye-IsCarried : IsCarried bit_list no_crc bye
bye-IsCarried = record {
  exchanged = bye-IsExchanged;
  small = omega (arith, length-bye);
  not_three = λ e. ground arith;
}

read_packet-write_packet_example :
    (packet : List ℕ) × (write_packet bit_list no_crc bye client
      ≡ (ok packet, record client { out_sequence_nr = u32 (client.out_sequence_nr + 1) }))
    × (read_packet bit_list no_crc packet server ≡ (ok bye, taken bit_list no_crc client server))
read_packet-write_packet_example =
    read_packet-write_packet bit_list no_crc client server bye in_step bye-IsCarried

-- The second of three packets is lost.
abbrev three_packets : List (List Message × Bool)
three_packets = (bye, true) ∷ (bye, false) ∷ (bye, true) ∷ []

exchange-arrived_example :
    exchange bit_list no_crc three_packets client server ≡ ok (bye ∷ bye ∷ [])
unfolding new
exchange-arrived_example =
    exchange-arrived bit_list no_crc three_packets client server in_step
      (bye-IsCarried, (bye-IsCarried, (bye-IsCarried, tt))) (omega arith) (omega arith)
