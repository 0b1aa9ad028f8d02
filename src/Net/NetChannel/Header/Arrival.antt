-- ===== src/Net/NetChannel/Header/Arrival.antt =====
-- Where the sequence number of a header lies from the last one that was accepted, in numbers that do
-- not wrap, and what the channel does with it.
use quickplay_server.Base.{ℕ, ◌+◌, ◌-◌, ◌≤◌, ◌<◌, ◌^◌, ◌≡◌, err}
use quickplay_server.Errors.{unexpected_sequence_number, too_many_packets_dropped}
use quickplay_server.Net.NetChannel.State.{NetChannel}
use quickplay_server.Net.NetChannel.Header.{Header, apply_header, accept_header}

-- The last packet and the choked ones after it take the numbers up to
-- `c.in_sequence_nr + h.n_choked`, and the next `max_packets_dropped` numbers may be missing.
pub data Arrival (h : Header) (c : NetChannel) : Type 0 where
  old :
      h.sequence ≤ c.in_sequence_nr
      → accept_header h c ≡ (err (unexpected_sequence_number h.sequence c.in_sequence_nr), c)
      → Arrival h c
  choked :
      (dropped : ℕ)
      → c.in_sequence_nr < h.sequence
      → h.sequence ≤ c.in_sequence_nr + h.n_choked
      → 2 ^ 32 - 256 ≤ dropped
      → accept_header h c
        ≡ (err (too_many_packets_dropped dropped c.configuration.server.max_packets_dropped), c)
      → Arrival h c
  follows :
      c.in_sequence_nr + h.n_choked < h.sequence
      → h.sequence ≤ c.in_sequence_nr + h.n_choked + 1 + c.configuration.server.max_packets_dropped
      → accept_header h c ≡ apply_header h c
      → Arrival h c
  far :
      (dropped : ℕ)
      → c.in_sequence_nr + h.n_choked + 1 + c.configuration.server.max_packets_dropped < h.sequence
      → h.sequence ≡ c.in_sequence_nr + h.n_choked + 1 + dropped
      → accept_header h c
        ≡ (err (too_many_packets_dropped dropped c.configuration.server.max_packets_dropped), c)
      → Arrival h c
