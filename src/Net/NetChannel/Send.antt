-- ===== src/Net/NetChannel/Send.antt =====
-- The reliable part of an outgoing packet.
pub mod Single
use quickplay_server.Base.{
  ℕ, ◌+◌, ◌-◌, ◌*◌, ◌%◌, Bool, true, false, not, List, [], ◌∷◌, Option, none, some, Outcome, ok,
  err, panic, stuck, ◌>>=◌, ◌>>◌, ok_or, assert, ltb, ◌==◌, if◌then◌else◌, u32, sub_u32, get_elem?,
  set,
}
use quickplay_server.Errors.{Error, no_outgoing_slice}
use quickplay_server.Io.{BitIo}
use quickplay_server.IoUtil.{write_varint32}
use quickplay_server.Net.Packet.{get_range}
use quickplay_server.Net.NetChannel.State.{
  OutgoingReliableData, total_bytes, total_fragments, SubChannel, waiting_to_send, waiting_for_ack,
  seq, fragment_size, fragment_bits, max_file_size_bits, find_subchannel,
}
use quickplay_server.Net.NetChannel.Run.{Run, then_run}
use quickplay_server.Net.NetChannel.Fill.{fill_outgoing_subchannel}

-- The bytes of `num` fragments from `start` on; the last fragment of a transfer may be shorter.
unfoldable pub block_length : OutgoingReliableData → ℕ → ℕ → ℕ
block_length d start num =
    let full = u32 (num * fragment_size) in
    let rest = fragment_size - total_bytes d % fragment_size in
    if u32 (start + num) == total_fragments d
    then if ltb rest fragment_size then sub_u32 full rest else full
    else full

module _ (io : BitIo) where
  open io use {Writer, write_out, write_bit, write_bytes}

  -- The header of a transfer that fits one packet.
  unfoldable pub write_single_block :
      ℕ → OutgoingReliableData → ℕ → ℕ → Writer → Outcome Error Writer
  write_single_block max_size d offset len w = do
    assert (len == total_bytes d)
    assert (ltb len max_size)
    assert (offset == 0)
    w' ← write_bit false w
    write_varint32 io (total_bytes d) w'

  -- The header of one block of several; that of the first has the size of the transfer.
  write_multi_block : OutgoingReliableData → ℕ → ℕ → ℕ → Writer → Outcome Error Writer
  write_multi_block d start num offset w = do
    w' ← write_out (max_file_size_bits - fragment_bits) start w
    w'' ← write_out 3 num w'
    let first = do
      v ← write_bit false w''
      v' ← write_bit false v
      write_out max_file_size_bits (total_bytes d) v'
    if offset == 0 then first else ok w''

  -- The body of the loop for a stream with the transfer `d`.
  unfoldable pub write_stream : ℕ → OutgoingReliableData → ℕ → ℕ → Writer → Outcome Error Writer
  unfolding write_single_block write_multi_block block_length
  write_stream max_size d start num w = do
    let offset = u32 (start * fragment_size)
    let len = block_length d start num
    let is_single_block = num == total_fragments d
    w1 ← write_bit true w
    w2 ← write_bit (not is_single_block) w1
    w3 ←
        (if is_single_block
          then write_single_block max_size d offset len w2
          else write_multi_block d start num offset w2)
    block ← ok_or (get_range d.content offset (offset + len)) no_outgoing_slice
    write_bytes block w3

  -- The loop over the streams, beside the arrays of the subchannel `s`, which each stream with data
  -- marks as sent.
  unfoldable pub write_streams :
      ℕ
      → ℕ
      → SubChannel
      → List ℕ
      → List ℕ
      → List (List OutgoingReliableData)
      → Writer
      → Outcome Error Writer × SubChannel
  unfolding write_stream
  write_streams max_size out_seq s starts nums [] w = (ok w, s)
  write_streams max_size out_seq s [] nums (x ∷ ss) w = (panic, s)
  write_streams max_size out_seq s (a ∷ as') [] (x ∷ ss) w = (panic, s)
  write_streams max_size out_seq s (a ∷ as') (n ∷ ns) ([] ∷ ss) w = elim (write_bit false w) [
    | ok w' ↦ write_streams max_size out_seq s as' ns ss w'
    | err e ↦ (err e, s)
    | panic ↦ (panic, s)
    | stuck ↦ (stuck, s)
  ]
  write_streams max_size out_seq s (a ∷ as') (n ∷ ns) ((d ∷ ds) ∷ ss) w =
      elim (write_stream max_size d a n w) [
        | ok w' ↦
            write_streams max_size out_seq
              (record s { state = waiting_for_ack; send_seq_nr = seq out_seq }) as' ns ss w'
        | err e ↦ (err e, s)
        | panic ↦ (panic, s)
        | stuck ↦ (stuck, s)
      ]

  -- The subchannel of index `i` is written, and is put back as the loop left it.
  unfoldable pub write_subchannel : ℕ → Option SubChannel → Writer → Run (Bool × Writer)
  unfolding write_streams
  write_subchannel i none w c = (panic, c)
  write_subchannel i (some s) w c =
      let streams = λ (w' : Writer).
        write_streams c.configuration.server.max_reliable_packet_size c.out_sequence_nr s
          s.start_fragment s.num_fragments c.outgoing_reliable_data w' in
      then_run (write_out 3 i w) c λ w' _.
        let (r, s') = streams w' in
        then_run r (record c { outgoing_subchannels = set c.outgoing_subchannels i s' })
          λ w'' c'. (ok (true, w''), c')

  unfoldable pub write_outgoing_reliable_data : Writer → Run (Bool × Writer)
  unfolding write_subchannel fill_outgoing_subchannel find_subchannel
  write_outgoing_reliable_data w c =
      let (filled, c') = fill_outgoing_subchannel c in
      then_run filled c' λ _ c''. elim (find_subchannel c'' waiting_to_send) [
        | none ↦ (ok (false, w), c'')
        | some i ↦ write_subchannel i (get_elem? c''.outgoing_subchannels i) w c''
      ]
