-- ===== src/Net/NetChannel/Update.antt =====
-- What an acknowledgement does to the subchannels and to the transfers that they carry.
use Prim.Native.Nat.{bit_and}
use quickplay_server.Base.{
  ℕ, zero, suc, ◌+◌, ◌^◌, List, [], ◌∷◌, Option, none, some, Outcome, ok, err, panic, stuck, ◌==◌,
  if◌then◌else◌, u32, sub_u32, get_elem?, set, map,
}
use quickplay_server.Errors.{
  Error, invalid_reliable_state, waiting_for_ack_without_stream, unexpected_free_subchannel,
}
use quickplay_server.Net.NetChannel.State.{
  OutgoingReliableData, total_fragments, SubChannel, free, waiting_to_send, waiting_for_ack,
  eq_state, is_after, new_free, NetChannel, max_subchannels,
}
use quickplay_server.Net.NetChannel.Run.{Run, ◌>>◌, return}

-- `n` fragments of the transfer are no longer pending, but acknowledged.
abbrev pub ack_fragments : ℕ → OutgoingReliableData → OutgoingReliableData
ack_fragments n d = record d {
  acked_fragments = u32 (d.acked_fragments + n);
  pending_fragments = sub_u32 d.pending_fragments n;
}

-- The loop over the streams, beside the subchannel's `num_fragments`.
unfoldable pub ack_streams :
    List ℕ
    → List (List OutgoingReliableData)
    → Outcome Error (Unit {0}) × List (List OutgoingReliableData)
ack_streams nums [] = (ok tt, [])
ack_streams [] (s ∷ ss) = (panic, s ∷ ss)
ack_streams (n ∷ ns) ([] ∷ ss) =
    let rest = ack_streams ns ss in
    if n == 0 then (rest.0, [] ∷ rest.1) else (err waiting_for_ack_without_stream, [] ∷ ss)
ack_streams (n ∷ ns) ((d ∷ ds) ∷ ss) =
    let rest = ack_streams ns ss in
    (rest.0, (if n == 0 then d ∷ ds else ack_fragments n d ∷ ds) ∷ rest.1)

-- After the loop the subchannel is free, unless the loop returned early.
abbrev pub release : ℕ → Outcome Error (Unit {0}) → Run (Unit {0})
release i (ok _) c =
    (ok tt, record c { outgoing_subchannels = set c.outgoing_subchannels i new_free })
release i (err e) c = (err e, c)
release i panic c = (panic, c)
release i stuck c = (stuck, c)

-- The body of the loop, at the subchannel `s` of index `i`.
unfoldable pub update_subchannel : ℕ → ℕ → ℕ → SubChannel → Run (Unit {0})
unfolding ack_streams
update_subchannel sequence_ack acked_reliable_state i s c =
    let mask = 2 ^ i in
    let late = is_after s.send_seq_nr sequence_ack in
    let acked = ack_streams s.num_fragments c.outgoing_reliable_data in
    if bit_and c.out_reliable_state mask == bit_and acked_reliable_state mask
    then if late
      then (err (invalid_reliable_state i), c)
      else if eq_state s.state waiting_for_ack
      then release i acked.0 (record c { outgoing_reliable_data = acked.1 })
      else (ok tt, c)
    else if late
    then (ok tt, c)
    else if eq_state s.state free
    then (err unexpected_free_subchannel, c)
    else if eq_state s.state waiting_for_ack
    then (
      ok tt,
      record c {
        outgoing_subchannels = set c.outgoing_subchannels i (record s { state = waiting_to_send });
      },
    )
    else (ok tt, c)

abbrev pub update_at_index : ℕ → ℕ → ℕ → Option SubChannel → Run (Unit {0})
update_at_index sequence_ack acked_reliable_state i none c = (panic, c)
update_at_index sequence_ack acked_reliable_state i (some s) c =
    update_subchannel sequence_ack acked_reliable_state i s c

-- `left` rounds, the next at the index `i`; an index past the array panics.
unfoldable pub update_loop : ℕ → ℕ → ℕ → ℕ → Run (Unit {0})
update_loop sequence_ack acked_reliable_state zero i = return tt
update_loop sequence_ack acked_reliable_state (suc left) i =
    (λ c.
      update_at_index sequence_ack acked_reliable_state i (get_elem? c.outgoing_subchannels i) c)
    >> update_loop sequence_ack acked_reliable_state left (i + 1)

unfoldable pub update_outgoing_subchannels : ℕ → ℕ → Run (Unit {0})
unfolding update_loop
update_outgoing_subchannels sequence_ack acked_reliable_state =
    update_loop sequence_ack acked_reliable_state max_subchannels 0

-- A stream whose first transfer is acknowledged to the end goes on to the next one.
unfoldable pub pop_stream : List OutgoingReliableData → List OutgoingReliableData
pop_stream [] = []
pop_stream (d ∷ ds) = if d.acked_fragments == total_fragments d then ds else d ∷ ds

unfoldable pub pop_completed_outgoing_transfers : NetChannel → NetChannel
unfolding pop_stream
pop_completed_outgoing_transfers c = record c {
  outgoing_reliable_data = map pop_stream c.outgoing_reliable_data;
}
