-- ===== src/Net/NetChannel/Invariant/Received.antt =====
-- Receiving a packet keeps the invariant of the channel and does not panic, whatever the packet.
use quickplay_server.Base.{
  ℕ, zero, suc, ◌+◌, ◌*◌, ◌≤◌, ◌<◌, ◌^◌, ◌≡◌, refl, inl, inr, Bool, List, [], Option, none, some,
  ok, ltb, Option-cases, arith, All, All-get_elem?, length, get_elem?-lt, set, bits_of,
  length-bits_of,
}
use quickplay_server.Errors.{no_active_subchannel_data, file_upload}
use quickplay_server.Io.{BitIo}
use quickplay_server.Io.Advance.{read_in-Advances, read_bit-Advances}
use quickplay_server.Net.Message.{Message}
use quickplay_server.Net.Message.Reads.{IsReadable}
use quickplay_server.Net.NetChannel.State.{
  NetChannel, IncomingReliableData, max_streams, bytes_to_fragments, flag_reliable,
}
use quickplay_server.Net.NetChannel.Run.{then_run}
use quickplay_server.Net.NetChannel.Receive.{
  Block, receive_into, start_transfer, read_incoming_subchannel_data,
}
use quickplay_server.Net.NetChannel.Messages.{read_messages, read_transfer, read_reliable_messages}
use quickplay_server.Net.NetChannel.Messages.Total.{read_messages-Advances}
use quickplay_server.Net.NetChannel.Header.{contains}
use quickplay_server.Net.NetChannel.Packets.{
  read_blocks, read_transfers, read_reliable_part, read_packet,
}
use quickplay_server.Net.NetChannel.Invariant.{
  Origin, IsChannel, IsIncoming, Settles, returns, then_run-Settles, then_run-kept, if-Settles,
}
use quickplay_server.Net.NetChannel.Invariant.Headers.{IsAt, read-Settles, read_header-Settles}
use quickplay_server.Net.NetChannel.Invariant.Written.{then_run-IsChannel}
use quickplay_server.Net.NetChannel.Invariant.Incoming.{
  set_incoming, start_transfer-IsChannel, Lands, receive_block-Lands, read_block_header-Advances,
}

set_in_reliable_state :
    {k : Origin} {c : NetChannel} (n : ℕ)
    → IsChannel k c
    → IsChannel k (record c { in_reliable_state = n })
set_in_reliable_state n h = record {
  same_challenge = h.same_challenge;
  same_configuration = h.same_configuration;
  two_incoming = h.two_incoming;
  incoming = h.incoming;
  eight_subchannels = h.eight_subchannels;
  subchannels = h.subchannels;
  accounts = h.accounts;
}

module _ (io : BitIo) where
  open io use {Reader, holding, open_reader}

  receive_into-Settles :
      {k : Origin} {n : ℕ} (stream p : ℕ) (bs : List Bool) (b : Block)
      (o : Option IncomingReliableData) (c : NetChannel)
      → n ≡ p + length bs
      → IsIncoming o
      → IsChannel k c
      → Settles k (IsAt io n) (receive_into io stream b (holding p bs) (some o) c)
  unfolding receive_into
  receive_into-Settles stream p bs b none c at h hc =
      Settles.fails no_active_subchannel_data refl hc
  receive_into-Settles stream p bs b (some d) c at h hc =
      elim (receive_block-Lands io _ p bs d b at) [
        | Lands.refused e failed len ↦
            Settles.fails e failed (set_incoming stream (some _) (omega arith) hc)
        | Lands.landed r here read len ↦
            returns r here read (set_incoming stream (some _) (omega arith) hc)
      ]

  read_incoming_subchannel_data-Settles :
      {k : Origin} {n : ℕ} (stream p : ℕ) (bs : List Bool) (c : NetChannel)
      → stream < max_streams
      → n ≡ p + length bs
      → IsChannel k c
      → Settles k (IsAt io n) (read_incoming_subchannel_data io (holding p bs) stream c)
  unfolding read_incoming_subchannel_data
  read_incoming_subchannel_data-Settles stream p bs c lt at hc =
      then_run-Settles _ _ _ (read-Settles io (read_block_header-Advances io p bs) at hc)
        λ (h, r) (size, (q, rest, e, at')) hc'.
          let started = start_transfer stream h c in
          let hs = start_transfer-IsChannel stream h c size hc' in
          let (o, found) =
            get_elem?-lt started.1.incoming_reliable_data stream (omega (arith, hs.two_incoming)) in
          rw (e, found)
            (receive_into-Settles stream q rest started.0 o started.1 at'
              (All-get_elem? IsIncoming _ stream hs.incoming found) hs)

  -- The messages of a complete transfer, which is dropped once they are read.
  read_content-Settles :
      {k : Origin} (stream : ℕ) (messages : List Message) (content : List ℕ) (c : NetChannel)
      → length content < 2 ^ 32
      → All IsReadable messages
      → IsChannel k c
      → Settles k (All IsReadable) (
          then_run
            (read_messages io (length content) messages (open_reader content))
            c
            λ (messages', _) c'. (
              ok messages',
              record c' { incoming_reliable_data = set c'.incoming_reliable_data stream none },
            ))
  read_content-Settles stream messages content c lt h hc = rw (io.open_reader_lem content) (
      then_run-Settles _ _ _
        (read-Settles io
          (read_messages-Advances io (length content) 0 messages (bits_of content) (omega arith)
            (omega (arith, length-bits_of content)) h)
          refl hc)
        λ (messages', _) (readable, _) hc'.
          returns messages' readable refl (set_incoming stream none tt hc'))

  read_transfer-Settles :
      {k : Origin} (stream : ℕ) (messages : List Message) (o : Option IncomingReliableData)
      (c : NetChannel)
      → IsIncoming o
      → All IsReadable messages
      → IsChannel k c
      → Settles k (All IsReadable) (read_transfer io stream messages (some o) c)
  unfolding read_transfer
  read_transfer-Settles stream messages none c lt h hc = returns messages h refl hc
  read_transfer-Settles stream messages (some d) c lt h hc =
      if-Settles (ltb d.acked_fragments (bytes_to_fragments d.size)) (returns messages h refl hc) (
        if-Settles (ltb (bytes_to_fragments d.size) d.acked_fragments) (Settles.fails _ refl hc)
          (elim (Option-cases d.filename) [
            | inl unnamed ↦ rw unnamed (read_content-Settles stream messages d.content c lt h hc)
            | inr (name, named) ↦ rw named (Settles.fails file_upload refl hc)
          ]))

  read_reliable_messages-Settles :
      {k : Origin} (stream : ℕ) (messages : List Message) (c : NetChannel)
      → stream < max_streams
      → All IsReadable messages
      → IsChannel k c
      → Settles k (All IsReadable) (read_reliable_messages io stream messages c)
  unfolding read_reliable_messages
  read_reliable_messages-Settles stream messages c lt h hc =
      let (o, found) =
        get_elem?-lt c.incoming_reliable_data stream (omega (arith, hc.two_incoming)) in
      rw (read_reliable_messages, found)
        (read_transfer-Settles stream messages o c
          (All-get_elem? IsIncoming _ stream hc.incoming found) h hc)

module _ (io : BitIo) (crc : List ℕ → ℕ) where
  open io use {Reader, holding, open_reader}

  read_blocks-Settles :
      {k : Origin} {n : ℕ} (left i p : ℕ) (bs : List Bool) (c : NetChannel)
      → i + left ≤ max_streams
      → n ≡ p + length bs
      → IsChannel k c
      → Settles k (IsAt io n) (read_blocks io crc left i (holding p bs) c)
  unfolding read_blocks
  read_blocks-Settles zero i p bs c le at hc = returns (holding p bs) (p, bs, refl, at) refl hc
  read_blocks-Settles (suc left) i p bs c le at hc =
      then_run-Settles _ _ _ (read-Settles io (read_bit-Advances io p bs) at hc)
        λ (present, r) (_, (q, rest, e, at')) hc'. rw e (
          then_run-Settles _ _ _
            (if-Settles present
              (read_incoming_subchannel_data-Settles io i q rest c (omega arith) at' hc')
              (returns (holding q rest) (q, rest, refl, at') refl hc'))
            λ r' (q', rest', e', at'') hc''.
              rw e' (read_blocks-Settles left (i + 1) q' rest' _ (omega arith) at'' hc''))

  read_transfers-Settles :
      {k : Origin} (left i : ℕ) (messages : List Message) (c : NetChannel)
      → i + left ≤ max_streams
      → All IsReadable messages
      → IsChannel k c
      → Settles k (All IsReadable) (read_transfers io crc left i messages c)
  unfolding read_transfers
  read_transfers-Settles zero i messages c le h hc = returns messages h refl hc
  read_transfers-Settles (suc left) i messages c le h hc =
      then_run-Settles _ _ _ (read_reliable_messages-Settles io i messages c (omega arith) h hc)
        λ messages' h' hc'. read_transfers-Settles left (i + 1) messages' _ (omega arith) h' hc'

  read_reliable_part-Settles :
      {k : Origin} {n : ℕ} (p : ℕ) (bs : List Bool) (c : NetChannel)
      → n ≡ p + length bs
      → IsChannel k c
      → Settles k
          (λ x. All IsReadable x.0 × IsAt io n x.1)
          (read_reliable_part io crc (holding p bs) c)
  unfolding read_reliable_part
  read_reliable_part-Settles p bs c at hc =
      then_run-Settles _ _ _ (read-Settles io (read_in-Advances io 3 p bs) at hc)
        λ (subchannel_bit, r) (_, (q, rest, e, at')) hc'. rw e (
          then_run-Settles _ _ _ (read_blocks-Settles max_streams 0 q rest c (omega arith) at' hc')
            λ r' here hb.
              then_run-Settles _ _ _
                (read_transfers-Settles max_streams 0 [] _ (omega arith) tt
                  (set_in_reliable_state _ hb))
                λ messages h ht. returns (messages, r') (h, here) refl ht)

  -- The channel is kept from any packet, also where its size cannot be counted in bits.
  pub read_packet-kept :
      {k : Origin} (packet : List ℕ) (c : NetChannel)
      → IsChannel k c
      → IsChannel k (read_packet io crc packet c).1
  unfolding read_packet
  read_packet-kept packet c hc =
      let at : length packet * 8 ≡ 0 + length (bits_of packet) =
        omega (arith, length-bits_of packet) in
      rw (read_packet, io.open_reader_lem packet)
        (then_run-kept _ _ _ (read_header-Settles io crc 0 (bits_of packet) packet c at hc)
          λ (flags, r) (p, bs, e, at') hc'. rw e (
            then_run-kept _ _ _
              (if-Settles (contains flags flag_reliable) (read_reliable_part-Settles p bs _ at' hc')
                (returns ([], holding p bs) (tt, (p, bs, refl, at')) refl hc'))
              λ (messages, r') _ hr.
                then_run-IsChannel (read_messages io (length packet) messages r') _ _ hr λ _ _. hr))

  -- A packet of fewer than 2^61 bytes, whatever they are, does not make `read_packet` panic or run
  -- out of fuel, where the channel satisfies the invariant: it ends with an error, or with messages
  -- whose texts are UTF-8 and whose fields are within their bounds. In either case the channel that
  -- it leaves satisfies the invariant.
  pub read_packet-IsChannel :
      {k : Origin} (packet : List ℕ) (c : NetChannel)
      → length packet * 8 < 2 ^ 64
      → IsChannel k c
      → Settles k (All IsReadable) (read_packet io crc packet c)
  unfolding read_packet
  read_packet-IsChannel packet c small hc =
      let at : length packet * 8 ≡ 0 + length (bits_of packet) =
        omega (arith, length-bits_of packet) in
      rw (read_packet, io.open_reader_lem packet)
        (then_run-Settles _ _ _ (read_header-Settles io crc 0 (bits_of packet) packet c at hc)
          λ (flags, r) (p, bs, e, at') hc'. rw e (
            then_run-Settles _ _ _
              (if-Settles (contains flags flag_reliable) (read_reliable_part-Settles p bs _ at' hc')
                (returns ([], holding p bs) (tt, (p, bs, refl, at')) refl hc'))
              λ (messages, r') (h, (q, rest, e', at'')) hr. rw e' (
                then_run-Settles _ _ _
                  (read-Settles io
                    (read_messages-Advances io (length packet) q messages rest small at'' h) at''
                    hr)
                  λ (messages', _) (h', _) hm. returns messages' h' refl hm)))
