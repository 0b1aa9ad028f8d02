-- ===== src/Net/NetChannel/Packets/Sealed.antt =====
-- The packet that a channel without reliable data writes.
use quickplay_server.Base.{
  ℕ, ◌+◌, ◌-◌, ◌/◌, ◌%◌, ◌<◌, ◌^◌, ◌≡◌, refl, sym, ap, ◌∙◌, Bool, false, List, [], ◌∷◌, ◌++◌,
  append_assoc, drop, length, u32, length-le_bits, replicate, All, IsByte, ok, arith, le_bits,
  bits_of, bits_of-onto, and-le,
}
use quickplay_server.Io.{BitIo}
use quickplay_server.Net.Message.{Message}
use quickplay_server.Net.Message.RoundTrip.{IsExchanged}
use quickplay_server.Net.NetChannel.State.{NetChannel, flag_challenge}
use quickplay_server.Net.NetChannel.Header.{calculate_checksum}
use quickplay_server.Net.NetChannel.Messages.Loop.{
  all_bits, padding, padded_bytes, write_messages_lem,
}
use quickplay_server.Net.NetChannel.Packets.{seal, write_header, finish_packet, write_packet}
use quickplay_server.Net.NetChannel.Packets.Idle.{idle, write_outgoing_reliable_data-idle}
use quickplay_server.Net.NetChannel.Packets.Layout.{
  packet_bytes, drop-packet_bytes, checksum_of, seal-packet_bytes, IsByte-packet_bytes, header_bits,
  bits_of-packet_bytes, length-header_bits,
}

pub calculate_checksum-lt :
    (crc : List ℕ → ℕ) (bytes : List ℕ) → calculate_checksum crc bytes < 2 ^ 16
calculate_checksum-lt crc bytes = omega (arith, and-le 0xffff _ 0xffff (omega arith))

module _ (io : BitIo) (crc : List ℕ → ℕ) where
  open io use {holding, written}

  unfoldable pub written_header : NetChannel → List Bool
  written_header c =
      ((((le_bits 32 c.out_sequence_nr ++ le_bits 32 c.in_sequence_nr) ++ le_bits 8 0)
          ++ le_bits 16 0)
        ++ le_bits 8 c.in_reliable_state)
      ++ le_bits 32 c.challenge

  -- The numbers that a channel writes into a header fit their fields.
  pub record Fits (c : NetChannel) : Type 0 where
    pub out_fits : c.out_sequence_nr < 2 ^ 32
    pub in_fits : c.in_sequence_nr < 2 ^ 32
    pub state_fits : c.in_reliable_state < 2 ^ 8
    pub challenge_fits : c.challenge < 2 ^ 32

  write_header_lem :
      (c : NetChannel) → Fits c → write_header io crc c ≡ ok (written (written_header c))
  unfolding write_header written_header
  write_header_lem c h =
      rw
        (
          write_header,
          io.new_writer_lem,
          io.write_out_lem 32 c.out_sequence_nr [] h.out_fits,
          io.write_out_lem 32 c.in_sequence_nr _ h.in_fits,
          io.write_out_lem 8 0 _ (omega arith),
          io.write_out_lem 16 0 _ (omega arith),
          io.write_out_lem 8 c.in_reliable_state _ h.state_fits,
        )
        (io.write_out_lem 32 c.challenge _ h.challenge_fits)

  -- The header and what follows, in either grouping.
  regroup :
      (c : NetChannel) (xs : List Bool)
      → written_header c ++ xs
        ≡ header_bits c.out_sequence_nr c.in_sequence_nr 0 0 c.in_reliable_state c.challenge xs
  unfolding written_header
  regroup c xs = rw (append_assoc, append_assoc, append_assoc, append_assoc, append_assoc) refl

  -- The packet that `finish_packet` makes of the header of `c` and of messages.
  pub record IsPacketOf (c : NetChannel) (ms : List Message) (packet : List ℕ) : Type 0 where
    pub checksum : ℕ
    pub is_checksum : calculate_checksum crc (drop 11 packet) ≡ checksum
    pub bits :
        bits_of packet
        ≡ header_bits c.out_sequence_nr c.in_sequence_nr 32 checksum c.in_reliable_state c.challenge
            (all_bits ms ++ replicate (padding ms) false)
    pub finished : finish_packet io crc false ms (written (written_header c)) ≡ ok packet

  finish_packet_bytes :
      (c : NetChannel) (ms : List Message) (unsealed sealed : List ℕ)
      → All IsExchanged ms
      → All IsByte unsealed
      → bits_of unsealed ≡ written_header c ++ (all_bits ms ++ replicate (padding ms) false)
      → seal io crc flag_challenge unsealed ≡ ok sealed
      → finish_packet io crc false ms (written (written_header c)) ≡ ok sealed
  unfolding finish_packet
  finish_packet_bytes c ms unsealed sealed h all e s =
      let header = written_header c in
      let pad : (8 - length (header ++ all_bits ms) % 8) % 8 ≡ padding ms = omega (
        arith,
        ap length (regroup c (all_bits ms)),
        length-header_bits c.out_sequence_nr c.in_sequence_nr 0 0 c.in_reliable_state c.challenge
            (all_bits ms),
      ) in
      rw
        (
          finish_packet,
          write_messages_lem io ms header h,
          io.byte_align_lem (header ++ all_bits ms),
          pad,
          append_assoc header (all_bits ms) (replicate (padding ms) false),
          ← e,
          io.into_bytes_lem unsealed all,
        )
        s

  pub finish_packet_lem :
      (c : NetChannel) (ms : List Message)
      → Fits c
      → All IsExchanged ms
      → (packet : List ℕ) × IsPacketOf c ms packet
  finish_packet_lem c ms fits h =
      let (a, all_a, len_a, bits_a) =
        bits_of-onto 4 (le_bits 32 c.out_sequence_nr) (length-le_bits 32 c.out_sequence_nr) in
      let (b, all_b, len_b, bits_b) =
        bits_of-onto 4 (le_bits 32 c.in_sequence_nr) (length-le_bits 32 c.in_sequence_nr) in
      let (k, all_k, len_k, bits_k) =
        bits_of-onto 4 (le_bits 32 c.challenge) (length-le_bits 32 c.challenge) in
      let (body, all_body, _, bits_body) = bits_of-onto _ _ (padded_bytes ms) in
      let state = c.in_reliable_state in
      let checksum = checksum_of io crc state k body in
      let unsealed = packet_bytes a b 0 0 0 state k body in
      let packet = packet_bytes a b 32 (checksum % 256) (checksum / 256) state k body in
      let layout = λ (flags sum : ℕ).
        bits_of-packet_bytes a b flags sum state k body c.out_sequence_nr c.in_sequence_nr
          c.challenge bits_a bits_b bits_k
        ∙ ap (header_bits c.out_sequence_nr c.in_sequence_nr flags sum state c.challenge)
            bits_body in
      (
        packet,
        record {
          checksum = checksum;
          is_checksum = ap (calculate_checksum crc) (
              drop-packet_bytes a b 32 (checksum % 256) (checksum / 256) (state ∷ (k ++ body)) len_a
                len_b);
          bits = layout 32 checksum;
          finished =
              finish_packet_bytes c ms unsealed packet h
                (IsByte-packet_bytes a b 0 0 0 state k body all_a all_b
                  (omega arith, (omega arith, (omega arith, (omega (arith, fits.state_fits), tt))))
                  all_k all_body)
                (layout 0 0 ∙ sym (regroup c (all_bits ms ++ replicate (padding ms) false)))
                (seal-packet_bytes io crc a b k 32 state body len_a len_b len_k);
        },
      )

  pub write_packet-idle :
      (c : NetChannel) (ms : List Message) (packet : List ℕ)
      → Fits c
      → IsPacketOf c ms packet
      → write_packet io crc ms (idle c)
        ≡ (ok packet, record (idle c) { out_sequence_nr = u32 (c.out_sequence_nr + 1) })
  unfolding write_packet written_header
  write_packet-idle c ms packet fits h =
      let header : write_header io crc (idle c) ≡ ok (written (written_header c)) =
        write_header_lem (idle c) (record {
          out_fits = fits.out_fits;
          in_fits = fits.in_fits;
          state_fits = fits.state_fits;
          challenge_fits = fits.challenge_fits;
        }) in
      rw
        (
          write_packet,
          header,
          write_outgoing_reliable_data-idle io (written (written_header c)) c,
          h.finished,
        )
        refl
