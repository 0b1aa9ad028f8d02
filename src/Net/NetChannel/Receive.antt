-- ===== src/Net/NetChannel/Receive.antt =====
-- The reliable part of an incoming packet: a block of fragments of a transfer.
use quickplay_server.Base.{
  ℕ, ◌+◌, ◌-◌, ◌*◌, ◌%◌, Bool, true, false, List, ◌++◌, Option, none, some, Outcome, ok, err, panic,
  stuck, ◌>>=◌, ◌>>◌, reject_if, ltb, ◌==◌, if◌then◌else◌, u32, sub_u32, get_elem?, set, take, drop,
  length,
}
use quickplay_server.Errors.{
  Error, file_transfer, compressed_data, no_active_subchannel_data, out_of_bounds_fragment,
  no_fragment_slice,
}
use quickplay_server.Io.{BitIo}
use quickplay_server.IoUtil.{read_varint32}
use quickplay_server.Net.NetChannel.State.{
  IncomingReliableData, new_incoming, bytes_to_fragments, NetChannel, fragment_size, fragment_bits,
  max_file_size_bits,
}
use quickplay_server.Net.NetChannel.Run.{Run, then_run}

-- What the block says of itself: `size` is there at the start of a transfer, where `offset` is 0.
pub record BlockHeader : Type 0 where
  pub is_multi_block : Bool
  pub start_fragment : ℕ
  pub num_fragments : ℕ
  pub size : Option ℕ

-- The block in the transfer: its fragments, and the bytes that they take.
pub record Block : Type 0 where
  pub start : ℕ
  pub num : ℕ
  pub offset : ℕ
  pub len : ℕ

-- `data[offset..offset + len]` is replaced.
abbrev pub splice : ℕ → ℕ → List ℕ → List ℕ → List ℕ
splice offset len new_bytes content =
    take offset content ++ (new_bytes ++ drop (offset + len) content)

-- The length of the block, less at the end of the transfer `d`.
unfoldable pub received_length : IncomingReliableData → Block → ℕ
received_length d b =
    let rest = fragment_size - d.size % fragment_size in
    if u32 (b.start + b.num) == bytes_to_fragments d.size
    then if ltb rest fragment_size then sub_u32 b.len rest else b.len
    else b.len

abbrev pub block_at : ℕ → ℕ → Block
block_at start num = record {
  start = start;
  num = num;
  offset = u32 (start * fragment_size);
  len = u32 (num * fragment_size);
}

-- A transfer begins where the header gives a size; a single block has all its fragments.
unfoldable pub start_transfer : ℕ → BlockHeader → NetChannel → Block × NetChannel
start_transfer stream h c = elim h.size [
  | none ↦ (block_at h.start_fragment h.num_fragments, c)
  | some size ↦
      let d = new_incoming none size in
      let num = if h.is_multi_block then h.num_fragments else bytes_to_fragments d.size in
      (
        block_at h.start_fragment num,
        record c { incoming_reliable_data = set c.incoming_reliable_data stream (some d) },
      )
]

module _ (io : BitIo) where
  open io use {Reader, read_in, read_bit, read_bytes}

  unfoldable pub read_multi_header : Reader → Outcome Error (BlockHeader × Reader)
  read_multi_header r = do
    (start, r1) ← read_in (max_file_size_bits - fragment_bits) r
    (num, r2) ← read_in 3 r1
    let header : Option ℕ → BlockHeader = λ size. record {
      is_multi_block = true;
      start_fragment = start;
      num_fragments = num;
      size = size;
    }
    let first = do
      (is_file, r3) ← read_bit r2
      reject_if is_file file_transfer
      (is_compressed, r4) ← read_bit r3
      reject_if is_compressed compressed_data
      (size, r5) ← read_in max_file_size_bits r4
      ok (header (some size), r5)
    if u32 (start * fragment_size) == 0 then first else ok (header none, r2)

  unfoldable pub read_single_header : Reader → Outcome Error (BlockHeader × Reader)
  read_single_header r = do
    (is_compressed, r1) ← read_bit r
    reject_if is_compressed compressed_data
    (size, r2) ← read_varint32 io r1
    ok (
      record { is_multi_block = false; start_fragment = 0; num_fragments = 0; size = some size },
      r2,
    )

  unfoldable pub read_block_header : Reader → Outcome Error (BlockHeader × Reader)
  unfolding read_multi_header read_single_header
  read_block_header r = do
    (is_multi_block, r1) ← read_bit r
    if is_multi_block then read_multi_header r1 else read_single_header r1

  -- The fragments count once their bytes are read.
  abbrev pub count_block :
      Block
      → IncomingReliableData
      → Outcome Error Reader
      → Outcome Error Reader × IncomingReliableData
  count_block b d (ok r) = (ok r, record d { acked_fragments = u32 (d.acked_fragments + b.num) })
  count_block b d (err e) = (err e, d)
  count_block b d panic = (panic, d)
  count_block b d stuck = (stuck, d)

  -- The block `b` of the transfer `d`: what it leaves of the transfer, and the result.
  unfoldable pub receive_block :
      IncomingReliableData → Block → Reader → Outcome Error Reader × IncomingReliableData
  unfolding received_length
  receive_block d b r =
      let total = bytes_to_fragments d.size in
      let end = u32 (b.start + b.num) in
      let len = received_length d b in
      let buffer = take len (drop b.offset d.content) in
      let result = read_bytes buffer r in
      let d' = record d { content = splice b.offset len result.1 d.content } in
      if ltb total end
      then (err (out_of_bounds_fragment b.start b.num total), d)
      else if ltb (length d.content) (b.offset + len)
      then (err no_fragment_slice, d)
      else count_block b d' result.0

  unfoldable pub receive_into :
      ℕ → Block → Reader → Option (Option IncomingReliableData) → Run Reader
  unfolding receive_block
  receive_into stream b r none c = (panic, c)
  receive_into stream b r (some none) c = (err no_active_subchannel_data, c)
  receive_into stream b r (some (some d)) c =
      let (result, d') = receive_block d b r in
      (result, record c { incoming_reliable_data = set c.incoming_reliable_data stream (some d') })

  unfoldable pub read_incoming_subchannel_data : Reader → ℕ → Run Reader
  unfolding read_block_header start_transfer receive_into
  read_incoming_subchannel_data r stream c = then_run (read_block_header r) c λ (h, r') _.
      let (b, c') = start_transfer stream h c in
      receive_into stream b r' (get_elem? c'.incoming_reliable_data stream) c'
