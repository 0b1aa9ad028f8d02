-- ===== src/Net/NetChannel/Header/Choked.antt =====
-- A header that names more choked packets than its sequence number leaves room for.
use quickplay_server.Base.{
  ◌+◌, ◌-◌, ◌≤◌, ◌<◌, ◌^◌, ◌≡◌, refl, true, false, ltb, leb, lt→ltb, arith, err,
}
use quickplay_server.Errors.{too_many_packets_dropped}
use quickplay_server.Net.NetChannel.State.{NetChannel}
use quickplay_server.Net.NetChannel.Header.{Header, num_packets_dropped, check_sequence}

-- A header whose sequence number is newer than the last by no more than its count of choked packets,
-- which is a byte, is refused for a number of dropped packets that is 2^32 - 256 or more, wherever
-- the limit is below that and the numbers do not reach 2^32.
pub check_sequence-choked :
    (h : Header) (c : NetChannel)
    → c.in_sequence_nr < h.sequence
    → h.sequence ≤ c.in_sequence_nr + h.n_choked
    → h.n_choked < 256
    → c.in_sequence_nr + h.n_choked + 1 < 2 ^ 32
    → c.configuration.server.max_packets_dropped < 2 ^ 32 - 256
    → (2 ^ 32 - 256 ≤ num_packets_dropped h c)
      × (check_sequence h c
          ≡ err (
              too_many_packets_dropped
                (num_packets_dropped h c)
                c.configuration.server.max_packets_dropped))
unfolding check_sequence
check_sequence-choked h c newer choked byte small limit =
    let wrapped : 2 ^ 32 - 256 ≤ num_packets_dropped h c = omega arith in
    let new : leb h.sequence c.in_sequence_nr ≡ false = ground arith in
    let many : ltb c.configuration.server.max_packets_dropped (num_packets_dropped h c) ≡ true =
      lt→ltb _ _ (omega (arith, wrapped)) in
    (wrapped, rw (check_sequence, new, many) refl)
