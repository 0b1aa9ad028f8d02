-- ===== src/Net/NetChannel/Send/Single.antt =====
-- A transfer that goes into one packet: what is written, and when the assertion fails.
use quickplay_server.Base.{
  ℕ, ◌+◌, ◌-◌, ◌*◌, ◌/◌, ◌%◌, ◌<◌, ◌≤◌, ◌^◌, ◌≡◌, refl, ap, ◌∙◌, Bool, true, false, not, List, [],
  ◌∷◌, ◌++◌, some, append_assoc, append-nil, take-append, take, ok, panic, ltb, ◌==◌, if◌then◌else◌,
  u32, sub_u32, length, arith, ◌⊎◌, dec_lt, All, inl, inr, Bool-cases, ltb→lt, ltb→le, leb, sym,
  IsByte, bits_of, ==_refl, lt→ltb, le→ltb,
}
use quickplay_server.Io.{BitIo}
use quickplay_server.IoUtil.Varint.{varint_bytes, write_varint32_lem}
use quickplay_server.Net.Packet.{get_range}
use quickplay_server.Net.NetChannel.State.{
  OutgoingReliableData, bytes_to_fragments, total_bytes, total_fragments, fragment_size,
}
use quickplay_server.Net.NetChannel.Send.{block_length, write_stream, write_single_block}

bytes_to_fragments_small : (size : ℕ) → size < 2 ^ 31 → bytes_to_fragments size ≡ (size + 255) / 256
unfolding bytes_to_fragments
bytes_to_fragments_small size small = omega arith

-- Whole fragments, less what the last one lacks.
whole_length :
    (size n : ℕ)
    → size < 2 ^ 31
    → n ≡ (size + 255) / 256
    → (if ltb (256 - size % 256) 256
        then sub_u32 (u32 (n * 256)) (256 - size % 256)
        else u32 (n * 256))
      ≡ size
whole_length size n small e = elim (Bool-cases (ltb (256 - size % 256) 256)) [
  | inl part ↦ rw part (let short = ltb→lt _ _ part in omega arith)
  | inr full ↦ rw full (let exact = ltb→le _ _ full in omega arith)
]

-- All the fragments of a transfer have all of its bytes.
block_length-whole :
    (d : OutgoingReliableData)
    → length d.content < 2 ^ 31
    → block_length d 0 (total_fragments d) ≡ length d.content
unfolding block_length
block_length-whole d small =
    let n = length d.content in
    let size : total_bytes d ≡ n = omega arith in
    let count : bytes_to_fragments n ≡ (n + 255) / 256 = bytes_to_fragments_small n small in
    let same : (u32 (0 + bytes_to_fragments n) == bytes_to_fragments n) ≡ true =
      ap (λ k. k == bytes_to_fragments n) (omega arith) ∙ ==_refl (bytes_to_fragments n) in
    rw (block_length, size, same) (whole_length n (bytes_to_fragments n) small count)

get_range-whole : (xs : List ℕ) (n : ℕ) → n ≡ length xs → get_range xs 0 (0 + n) ≡ some xs
get_range-whole xs n e =
    let fits : leb (0 + n) (length xs) ≡ true = ground arith in
    rw fits (
      ap some (
        ap (λ k. take k xs) (omega arith)
        ∙ ap (take (length xs)) (sym (append-nil xs))
        ∙ take-append xs []))

module _ (io : BitIo) where
  open io use {written}

  -- A transfer of fewer than 2^31 bytes that is written into one packet, with all its fragments:
  -- with fewer bytes than `max_reliable_packet_size` it becomes the bits 1, 0 and 0, its size as
  -- a varint, and its bytes; with more, or exactly as many, the assertion on its length fails, and
  -- the task of the connection panics.
  pub write_stream-single :
      (max_size : ℕ) (d : OutgoingReliableData) (before : List Bool)
      → length d.content < 2 ^ 31
      → All IsByte d.content
      → ((length d.content < max_size)
          × (write_stream io max_size d 0 (total_fragments d) (written before)
              ≡ ok (
                  written (
                    ((before ++ true ∷ false ∷ false ∷ [])
                      ++ bits_of (varint_bytes 4 (length d.content)))
                    ++ bits_of d.content))))
        ⊎ ((max_size ≤ length d.content)
            × (write_stream io max_size d 0 (total_fragments d) (written before) ≡ panic))
  unfolding write_stream write_single_block
  write_stream-single max_size d before small h =
      let n = length d.content in
      let whole = block_length-whole d small in
      let size : total_bytes d ≡ n = omega arith in
      let start : u32 (0 * fragment_size) ≡ 0 = omega arith in
      let three : ((before ++ true ∷ []) ++ not true ∷ []) ++ false ∷ []
          ≡ before ++ true ∷ false ∷ false ∷ [] =
        rw (append_assoc, append_assoc) refl in
      elim (dec_lt n max_size) [
        | yes fits ↦ inl (
          fits,
          let passed : ltb n max_size ≡ true = lt→ltb n max_size fits in
              rw
                (
                  write_stream,
                  write_single_block,
                  whole,
                  size,
                  ==_refl (bytes_to_fragments n),
                  io.write_bit_lem true before,
                  io.write_bit_lem (not true) (before ++ true ∷ []),
                  ==_refl n,
                  passed,
                  io.write_bit_lem false ((before ++ true ∷ []) ++ not true ∷ []),
                  three,
                  write_varint32_lem io n (before ++ true ∷ false ∷ false ∷ []) (omega arith),
                  start,
                  get_range-whole d.content n refl,
                )
                (io.write_bytes_lem d.content _ h),
        )
        | no over ↦ inr (
          omega arith,
          let failed : ltb n max_size ≡ false = le→ltb n max_size (omega arith) in
              rw
                (
                  write_stream,
                  write_single_block,
                  whole,
                  size,
                  ==_refl (bytes_to_fragments n),
                  io.write_bit_lem true before,
                  io.write_bit_lem (not true) (before ++ true ∷ []),
                  ==_refl n,
                  failed,
                )
                refl,
        )
      ]
