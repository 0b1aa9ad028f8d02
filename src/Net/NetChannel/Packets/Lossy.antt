-- ===== src/Net/NetChannel/Packets/Lossy.antt =====
-- Packets without reliable data over a connection that loses some of them.
use quickplay_server.Base.{
  ℕ, ◌+◌, ◌≤◌, ◌<◌, ◌^◌, ◌≡◌, refl, Bool, true, false, List, [], ◌∷◌, Outcome, ok, ◌>>=◌, length,
  All, u32, arith,
}
use quickplay_server.Errors.{Error}
use quickplay_server.Io.{BitIo}
use quickplay_server.Net.Message.{Message}
use quickplay_server.Net.NetChannel.State.{NetChannel}
use quickplay_server.Net.NetChannel.Packets.{write_packet, read_packet}
use quickplay_server.Net.NetChannel.Packets.Exchange.{
  InStep, IsCarried, taken, read_packet-write_packet,
}

-- The messages of the packets that arrive.
abbrev pub arrived : List (List Message × Bool) → List (List Message)
arrived [] = []
arrived ((ms, true) ∷ rest) = ms ∷ arrived rest
arrived ((ms, false) ∷ rest) = arrived rest

module _ (io : BitIo) (crc : List ℕ → ℕ) where
  -- One packet for each list of messages, which arrives or is lost; what the receiver reads.
  unfoldable pub exchange :
      List (List Message × Bool) → NetChannel → NetChannel → Outcome Error (List (List Message))
  exchange [] c d = ok []
  exchange ((ms, true) ∷ rest) c d = do
    packet ← (write_packet io crc ms c).0
    got ← (read_packet io crc packet d).0
    later ← exchange rest (write_packet io crc ms c).1 (read_packet io crc packet d).1
    ok (got ∷ later)
  exchange ((ms, false) ∷ rest) c d = do
    packet ← (write_packet io crc ms c).0
    exchange rest (write_packet io crc ms c).1 d

  abbrev sent : NetChannel → NetChannel
  sent c = record c { out_sequence_nr = u32 (c.out_sequence_nr + 1) }

  -- The sender's next packet, after one that arrived.
  after_arrival :
      (c d : NetChannel)
      → InStep io crc c d
      → c.out_sequence_nr + 1 < 2 ^ 32
      → InStep io crc (sent c) (taken io crc c d)
  after_arrival c d h fits = record {
    fits = record {
      out_fits = omega arith;
      in_fits = h.fits.in_fits;
      state_fits = h.fits.state_fits;
      challenge_fits = h.fits.challenge_fits;
    };
    idle_sender = h.idle_sender;
    idle_receiver = h.idle_receiver;
    same_challenge = h.same_challenge;
    same_state = h.same_state;
    newer = omega arith;
    close = omega arith;
  }

  -- And after one that was lost.
  after_loss :
      (c d : NetChannel)
      → InStep io crc c d
      → c.out_sequence_nr + 1 < 2 ^ 32
      → c.out_sequence_nr + 1 ≤ d.in_sequence_nr + 1 + d.configuration.server.max_packets_dropped
      → InStep io crc (sent c) d
  after_loss c d h fits close = record {
    fits = record {
      out_fits = omega arith;
      in_fits = h.fits.in_fits;
      state_fits = h.fits.state_fits;
      challenge_fits = h.fits.challenge_fits;
    };
    idle_sender = h.idle_sender;
    idle_receiver = h.idle_receiver;
    same_challenge = h.same_challenge;
    same_state = h.same_state;
    newer = (let lt = h.newer in omega arith);
    close = omega arith;
  }

  -- Of packets that `c` writes one after the other, each either arrives at `d` or is lost. The
  -- messages of each are disconnect and print messages with texts within their bounds, of fewer than
  -- 2^63 bits and not 3 modulo 4 in number. Where no reliable transfer is under way, `d` is in step
  -- with `c` (the numbers of `c` fit their fields, the challenge and the reliable state are the same,
  -- the next sequence number is newer), the sequence numbers stay below 2^32, and the packets are few
  -- enough for the receiver not to drop a later one, `d` reads the messages of exactly the packets
  -- that arrive, in their order.
  pub exchange-arrived :
      (packets : List (List Message × Bool)) (c d : NetChannel)
      → InStep io crc c d
      → All (λ p. IsCarried io crc p.0) packets
      → c.out_sequence_nr + length packets < 2 ^ 32
      → c.out_sequence_nr + length packets
        ≤ d.in_sequence_nr + 1 + d.configuration.server.max_packets_dropped
      → exchange packets c d ≡ ok (arrived packets)
  unfolding exchange
  exchange-arrived [] c d step carried fits close = refl
  exchange-arrived ((ms, true) ∷ rest) c d step carried fits close =
      let (packet, written, read) = read_packet-write_packet io crc c d ms step carried.0 in
      let later =
        exchange-arrived rest (sent c) (taken io crc c d) (after_arrival c d step (omega arith))
          carried.1 (omega arith) (let lt = step.newer in omega arith) in
      rw (exchange, written, read, later) refl
  exchange-arrived ((ms, false) ∷ rest) c d step carried fits close =
      let (packet, written, _) = read_packet-write_packet io crc c d ms step carried.0 in
      let later =
        exchange-arrived rest (sent c) d (after_loss c d step (omega arith) (omega arith)) carried.1
          (omega arith) (omega arith) in
      rw (exchange, written, later) refl
