-- ===== src/Net/NetChannel/Fill.antt =====
-- A free subchannel is filled with the next fragments of the transfers.
use quickplay_server.Base.{
  ℕ, ◌+◌, ◌-◌, ◌/◌, ◌^◌, min, bit_xor, Bool, true, false, List, [], ◌∷◌, Option, none, some,
  Outcome, ok, panic, ◌>>=◌, ◌==◌, if◌then◌else◌, u32, sub_u32, get_elem?, set,
}
use quickplay_server.Errors.{Error}
use quickplay_server.Net.NetChannel.State.{
  OutgoingReliableData, total_fragments, SubChannel, free, waiting_to_send, seq, NetChannel,
  fragment_size, find_subchannel,
}
use quickplay_server.Net.NetChannel.Run.{Run}

-- The variables of the loop: the two arrays of the subchannel, the streams and `send_data`.
pub record Filled : Type 0 where
  pub starts : List ℕ
  pub nums : List ℕ
  pub streams : List (List OutgoingReliableData)
  pub send_data : Bool

abbrev pub prepend : ℕ → ℕ → List OutgoingReliableData → Filled → Filled
prepend start num stream f = record {
  starts = start ∷ f.starts;
  nums = num ∷ f.nums;
  streams = stream ∷ f.streams;
  send_data = f.send_data;
}

-- `acked_fragments + pending_fragments`.
abbrev pub sent_fragments : OutgoingReliableData → ℕ
sent_fragments d = u32 (d.acked_fragments + d.pending_fragments)

-- The fragments of the transfer that go into a packet with room for `remaining`.
abbrev pub next_fragments : ℕ → OutgoingReliableData → ℕ
next_fragments remaining d = min remaining (sub_u32 (total_fragments d) (sent_fragments d))

abbrev pub add_pending : ℕ → OutgoingReliableData → OutgoingReliableData
add_pending n d = record d { pending_fragments = u32 (d.pending_fragments + n) }

-- The loop over the streams, beside `start_fragment` and `num_fragments` of the subchannel; an
-- array that is too short panics.
unfoldable pub fill_streams :
    ℕ → List ℕ → List ℕ → List (List OutgoingReliableData) → Outcome Error Filled
fill_streams remaining starts nums [] =
    ok (record { starts = starts; nums = nums; streams = []; send_data = false })
fill_streams remaining [] nums (s ∷ ss) = panic
fill_streams remaining (a ∷ as') [] (s ∷ ss) = panic
fill_streams remaining (a ∷ as') (n ∷ ns) ([] ∷ ss) = do
  rest ← fill_streams remaining as' ns ss
  ok (prepend a n [] rest)
fill_streams remaining (a ∷ as') (n ∷ ns) ((d ∷ ds) ∷ ss) =
    let num = next_fragments remaining d in
    let d' = add_pending num d in
    let skip = do rest ← fill_streams remaining as' ns ss; ok (prepend a n (d ∷ ds) rest)
    in let last = ok (record {
      starts = sent_fragments d ∷ as';
      nums = num ∷ ns;
      streams = (d' ∷ ds) ∷ ss;
      send_data = true;
    }) in
      let go_on = do
        rest ← fill_streams (remaining - num) as' ns ss
        ok (record (prepend (sent_fragments d) num (d' ∷ ds) rest) { send_data = true })
      in if sent_fragments d == total_fragments d
        then skip
        else if remaining - num == 0
        then last
        else go_on

-- The number of fragments that fit a packet.
abbrev pub fragments_per_packet : NetChannel → ℕ
fragments_per_packet c = c.configuration.server.max_reliable_packet_size / fragment_size

-- What the loop leaves in the subchannel of index `i` and in the channel.
unfoldable pub filled_channel : ℕ → SubChannel → NetChannel → Filled → NetChannel
filled_channel i s c f =
    let arrays = record s { start_fragment = f.starts; num_fragments = f.nums } in
    let kept = record c {
      outgoing_reliable_data = f.streams;
      outgoing_subchannels = set c.outgoing_subchannels i arrays;
    } in
    let sent = record c {
      outgoing_reliable_data = f.streams;
      out_reliable_state = bit_xor c.out_reliable_state (2 ^ i);
      outgoing_subchannels =
          set c.outgoing_subchannels i
            (record arrays { state = waiting_to_send; send_seq_nr = seq 0 });
    } in
    if f.send_data then sent else kept

unfoldable pub fill_subchannel : ℕ → Option SubChannel → Run (Unit {0})
unfolding filled_channel
fill_subchannel i none c = (panic, c)
fill_subchannel i (some s) c =
    elim (fill_streams (fragments_per_packet c) s.start_fragment s.num_fragments
      c.outgoing_reliable_data) [ ok f ↦ (ok tt, filled_channel i s c f) | _ ↦ (panic, c) ]

unfoldable pub fill_outgoing_subchannel : Run (Unit {0})
unfolding find_subchannel fill_subchannel
fill_outgoing_subchannel c = elim (find_subchannel c free) [
  | none ↦ (ok tt, c)
  | some i ↦ fill_subchannel i (get_elem? c.outgoing_subchannels i) c
]
