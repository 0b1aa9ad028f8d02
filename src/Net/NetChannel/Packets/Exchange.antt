-- ===== src/Net/NetChannel/Packets/Exchange.antt =====
-- A packet without reliable data, from one channel to another.
use quickplay_server.Base.{
  ℕ, ◌+◌, ◌*◌, ◌%◌, ◌≤◌, ◌<◌, ◌^◌, ◌≡◌, ◌≢◌, refl, ap, ◌∙◌, subst, Bool, false, true, List, ◌++◌,
  drop, length, u32, length-append, length-bits_of, length-replicate, replicate, All, ok, leb, ltb,
  le→ltb, arith, ==_refl, ◌==◌,
}
use quickplay_server.Io.{BitIo}
use quickplay_server.Net.Message.{Message}
use quickplay_server.Net.Message.RoundTrip.{IsExchanged}
use quickplay_server.Net.NetChannel.State.{NetChannel}
use quickplay_server.Net.NetChannel.Header.{
  Header, num_packets_dropped, calculate_checksum, check_challenge, check_sequence, apply_header,
  accept_header, admit, flags_of, read_header_fields, read_header,
}
use quickplay_server.Net.NetChannel.Messages.Loop.{
  all_bits, padding, padding-lt, read_messages-padded,
}
use quickplay_server.Net.NetChannel.Packets.{write_packet, read_packet}
use quickplay_server.Net.NetChannel.Packets.Idle.{
  idle, IsIdle, idle_eq, update_outgoing_subchannels-idle, pop_completed-idle,
}
use quickplay_server.Net.NetChannel.Packets.Layout.{header_bits, length-header_bits}
use quickplay_server.Net.NetChannel.Packets.Sealed.{
  calculate_checksum-lt, Fits, IsPacketOf, finish_packet_lem, write_packet-idle,
}

module _ (io : BitIo) (crc : List ℕ → ℕ) where
  open io use {holding}

  read_header_fields_lem :
      (packet : List ℕ) (sequence ack checksum state challenge : ℕ) (rest : List Bool)
      → sequence < 2 ^ 32
      → ack < 2 ^ 32
      → state < 2 ^ 8
      → challenge < 2 ^ 32
      → calculate_checksum crc (drop 11 packet) ≡ checksum
      → checksum < 2 ^ 16
      → read_header_fields io crc packet
          (holding 0 (header_bits sequence ack 32 checksum state challenge rest))
        ≡ ok (
          (
            record {
              sequence = sequence;
              sequence_ack = ack;
              flags = 32;
              reliable_state = state;
              n_choked = 0;
            },
            challenge,
          ),
          holding 128 rest,
        )
  unfolding read_header_fields
  read_header_fields_lem packet sequence ack checksum state challenge rest h1 h2 h3 h4 e h5 =
      rw
        (
          read_header_fields,
          io.read_in_lem 32 0 sequence _ h1,
          io.read_in_lem 32 32 ack _ h2,
          io.read_in_lem 8 64 32 _ (omega arith),
          io.read_in_lem 16 72 checksum _ h5,
          io.position_lem,
          e,
          ==_refl checksum,
          io.read_in_lem 8 88 state _ h3,
          io.read_in_lem 32 96 challenge rest h4,
        )
        refl

  -- The channel `d` takes the next packet of `c`, when no reliable transfer is under way between
  -- them: they have the same challenge, agree on the reliable state, and the sequence numbers follow.
  pub record InStep (c d : NetChannel) : Type 0 where
    pub fits : Fits io crc c
    pub idle_sender : IsIdle c
    pub idle_receiver : IsIdle d
    pub same_challenge : d.challenge ≡ c.challenge
    pub same_state : d.out_reliable_state ≡ c.in_reliable_state
    pub newer : d.in_sequence_nr < c.out_sequence_nr
    pub close :
        c.out_sequence_nr ≤ d.in_sequence_nr + 1 + d.configuration.server.max_packets_dropped

  -- What the header of `c` leaves of `d`.
  abbrev pub taken : NetChannel → NetChannel → NetChannel
  taken c d = record d {
    has_seen_challenge = true;
    in_sequence_nr = c.out_sequence_nr;
    out_sequence_nr_ack = c.in_sequence_nr;
  }

  abbrev header_of : NetChannel → Header
  header_of c = record {
    sequence = c.out_sequence_nr;
    sequence_ack = c.in_sequence_nr;
    flags = 32;
    reliable_state = c.in_reliable_state;
    n_choked = 0;
  }

  admit-InStep :
      (c d : NetChannel)
      → InStep c d
      → admit (header_of c, c.challenge) (idle d) ≡ (ok 32, taken c (idle d))
  unfolding admit check_challenge accept_header check_sequence apply_header
  admit-InStep c d h =
      let seen : NetChannel = record d { has_seen_challenge = true } in
      let same : (c.challenge == d.challenge) ≡ true =
        ap (λ k. c.challenge == k) h.same_challenge ∙ ==_refl c.challenge in
      let new : leb c.out_sequence_nr d.in_sequence_nr ≡ false = let lt = h.newer in ground arith in
      let few : ltb d.configuration.server.max_packets_dropped (num_packets_dropped (header_of c) d)
          ≡ false =
        le→ltb _ _
          (let lt = h.newer in let le = h.close in let fits = h.fits.out_fits in omega arith) in
      rw
        (
          admit,
          check_challenge,
          accept_header,
          check_sequence,
          apply_header,
          same,
          new,
          few,
          update_outgoing_subchannels-idle c.in_sequence_nr c.in_reliable_state seen h.same_state,
        )
        (ap (λ x. (ok 32, x)) (pop_completed-idle (taken c d)))

  -- Messages that a packet can carry and that are read back from it: disconnect and print messages
  -- with texts within their bounds, fewer than 2^63 bits of them, not 3 modulo 4 in number.
  pub record IsCarried (ms : List Message) : Type 0 where
    pub exchanged : All IsExchanged ms
    pub small : length (all_bits ms) < 2 ^ 63
    pub not_three : length ms % 4 ≢ 3

  read_packet-idle :
      (c d : NetChannel) (ms : List Message) (packet : List ℕ)
      → InStep c d
      → IsCarried ms
      → IsPacketOf io crc c ms packet
      → read_packet io crc packet (idle d) ≡ (ok ms, taken c (idle d))
  unfolding read_packet read_header flags_of
  read_packet-idle c d ms packet step carried h =
      let zeros = replicate (padding ms) false in
      let few = padding-lt ms carried.not_three in
      let count : length packet * 8 ≡ 128 + length (all_bits ms ++ zeros) = omega (
        arith,
        ap length h.bits,
        length-bits_of packet,
        length-header_bits c.out_sequence_nr c.in_sequence_nr 32 h.checksum c.in_reliable_state
            c.challenge (all_bits ms ++ zeros),
      ) in
      let small : length packet * 8 < 2 ^ 64 =
        let bound = carried.small in
        omega (
          arith,
          count,
          length-append (all_bits ms) zeros,
          length-replicate {A = Bool} (padding ms) false,
        ) in
      rw
        (
          read_packet,
          read_header,
          flags_of,
          io.open_reader_lem packet,
          h.bits,
          read_header_fields_lem packet c.out_sequence_nr c.in_sequence_nr h.checksum
              c.in_reliable_state c.challenge (all_bits ms ++ zeros) step.fits.out_fits
              step.fits.in_fits step.fits.state_fits step.fits.challenge_fits h.is_checksum
              (subst (λ n. n < 2 ^ 16) h.is_checksum (calculate_checksum-lt crc (drop 11 packet))),
          admit-InStep c d step,
          read_messages-padded io ms (length packet) 128 (padding ms) carried.exchanged small count
              few,
        )
        refl

  -- Where no reliable transfer is under way and `d` is in step with `c` (the numbers of `c` fit their
  -- fields, the challenge and the reliable state are the same, the next sequence number is newer and
  -- close enough), the packet that `c` writes of messages is read by `d` as the same messages in the
  -- same order, for disconnect and print messages with texts within their bounds, of fewer than 2^63
  -- bits and not 3 modulo 4 in number. `c` goes on to its next sequence number, and `d` keeps the
  -- numbers of the packet.
  pub read_packet-write_packet :
      (c d : NetChannel) (ms : List Message)
      → InStep c d
      → IsCarried ms
      → (packet : List ℕ) × (write_packet io crc ms c
          ≡ (ok packet, record c { out_sequence_nr = u32 (c.out_sequence_nr + 1) }))
        × (read_packet io crc packet d ≡ (ok ms, taken c d))
  read_packet-write_packet c d ms step carried =
      let (packet, h) = finish_packet_lem io crc c ms step.fits carried.exchanged in
      (
        packet,
        subst
            (λ x.
              write_packet io crc ms x
              ≡ (ok packet, record x { out_sequence_nr = u32 (x.out_sequence_nr + 1) }))
            (idle_eq c step.idle_sender) (write_packet-idle io crc c ms packet step.fits h),
        subst (λ x. read_packet io crc packet x ≡ (ok ms, taken c x)) (idle_eq d step.idle_receiver)
            (read_packet-idle c d ms packet step carried h),
      )
