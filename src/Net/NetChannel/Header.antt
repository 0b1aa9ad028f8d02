-- ===== src/Net/NetChannel/Header.antt =====
-- The header of an incoming packet.
pub mod Sequence
pub mod Choked
pub mod Arrival
use quickplay_server.Base.{
  ℕ, zero, suc, ◌+◌, ◌-◌, ◌*◌, ◌/◌, ◌%◌, ◌^◌, bit_and, bit_xor, Bool, true, false, not, List, [],
  ◌∷◌, Outcome, ok, err, ◌>>=◌, ltb, leb, ◌==◌, if◌then◌else◌, u16, u32, sub_u32, drop, length,
  reject_if,
}
use quickplay_server.Errors.{
  Error, checksum_mismatch, challenge_mismatch, challenge_expected, unexpected_sequence_number,
  too_many_packets_dropped,
}
use quickplay_server.Io.{BitIo}
use quickplay_server.Net.NetChannel.State.{NetChannel, flag_choked, flag_challenge, flags_all}
use quickplay_server.Net.NetChannel.Run.{Run, then_run}
use quickplay_server.Net.NetChannel.Update.{
  update_outgoing_subchannels, pop_completed_outgoing_transfers,
}

-- `flags.contains(flag)`.
abbrev pub contains : ℕ → ℕ → Bool
contains flags flag = bit_and flags flag == flag

-- `crc` is the checksum CRC_32_ISO_HDLC of the crate crc, which is a `u32`.
abbrev pub calculate_checksum : (List ℕ → ℕ) → List ℕ → ℕ
calculate_checksum crc bytes =
    let digest = crc bytes in bit_and (bit_xor (digest / 2 ^ 16) digest) 0xffff

-- The fields up to the optional ones, whose checksum has been found right.
pub record Header : Type 0 where
  pub sequence : ℕ
  pub sequence_ack : ℕ
  pub flags : ℕ
  pub reliable_state : ℕ
  pub n_choked : ℕ

-- The check of the challenge: `none` where the packet has none.
unfoldable pub check_challenge : Header → Bool → ℕ → Run (Unit {0})
check_challenge h true challenge c =
    if challenge == c.challenge
    then (ok tt, record c { has_seen_challenge = true })
    else (err (challenge_mismatch challenge c.challenge), c)
check_challenge h false challenge c =
    if c.has_seen_challenge then (err challenge_expected, c) else (ok tt, c)

abbrev pub num_packets_dropped : Header → NetChannel → ℕ
num_packets_dropped h c = sub_u32 h.sequence (u32 (c.in_sequence_nr + h.n_choked + 1))

-- The sequence number is new, and follows closely enough.
unfoldable pub check_sequence : Header → NetChannel → Outcome Error (Unit {0})
check_sequence h c =
    let limit = c.configuration.server.max_packets_dropped in
    let dropped = num_packets_dropped h c in
    if leb h.sequence c.in_sequence_nr
    then err (unexpected_sequence_number h.sequence c.in_sequence_nr)
    else if ltb limit dropped
    then err (too_many_packets_dropped dropped limit)
    else ok tt

-- The acknowledgement takes effect, completed transfers are dropped, and the numbers are kept.
unfoldable pub apply_header : Header → Run ℕ
unfolding update_outgoing_subchannels pop_completed_outgoing_transfers
apply_header h c =
    let (updated, c') = update_outgoing_subchannels h.sequence_ack h.reliable_state c in
    then_run updated c' λ _ _. (
      ok h.flags,
      pop_completed_outgoing_transfers
          (record c' { in_sequence_nr = h.sequence; out_sequence_nr_ack = h.sequence_ack }),
    )

-- What a packet with this header does to the channel, once its challenge is checked.
unfoldable pub accept_header : Header → Run ℕ
unfolding check_sequence apply_header
accept_header h c = then_run (check_sequence h c) c λ _ _. apply_header h c

-- The checks of the header's fields, of which the last is its challenge or 0.
unfoldable pub admit : Header × ℕ → Run ℕ
unfolding check_challenge accept_header
admit (h, challenge) c =
    let (checked, c') = check_challenge h (contains h.flags flag_challenge) challenge c in
    then_run checked c' λ _ _. accept_header h c'

module _ (io : BitIo) (crc : List ℕ → ℕ) where
  open io use {Reader, read_in, position_in_bits}

  -- The fields after the checksum, of which two are there if a flag is set.
  abbrev pub read_state : ℕ → ℕ → ℕ → Reader → Outcome Error ((Header × ℕ) × Reader)
  read_state sequence sequence_ack flags r = do
    (reliable_state, r5) ← read_in 8 r
    (n_choked, r6) ← (if contains flags flag_choked then read_in 8 r5 else ok (0, r5))
    (challenge, r7) ← (if contains flags flag_challenge then read_in 32 r6 else ok (0, r6))
    let h : Header = record {
      sequence = sequence;
      sequence_ack = sequence_ack;
      flags = flags;
      reliable_state = reliable_state;
      n_choked = n_choked;
    }
    ok ((h, challenge), r7)

  -- The fields of the header, and the challenge or 0. The bytes after the checksum are what it
  -- is calculated from; the slice cannot be out of range, since they have been read up to there.
  unfoldable pub read_header_fields : List ℕ → Reader → Outcome Error ((Header × ℕ) × Reader)
  read_header_fields packet r = do
    (sequence, r1) ← read_in 32 r
    (sequence_ack, r2) ← read_in 32 r1
    (raw_flags, r3) ← read_in 8 r2
    let flags = bit_and raw_flags flags_all
    (expected_checksum, r4) ← read_in 16 r3
    let calculated = calculate_checksum crc (drop (position_in_bits r4 / 8) packet)
    passed ←
        reject_if (not (calculated == expected_checksum))
          (checksum_mismatch calculated expected_checksum)
    read_state sequence sequence_ack flags r4

  -- The flags of a packet that is admitted, with the reader after its header.
  unfoldable pub flags_of : (Header × ℕ) × Reader → Run (ℕ × Reader)
  unfolding admit
  flags_of (fields, r) c =
      let (admitted, c') = admit fields c in then_run admitted c' λ flags _. (ok (flags, r), c')

  unfoldable pub read_header : List ℕ → Reader → Run (ℕ × Reader)
  unfolding read_header_fields flags_of
  read_header packet r c = then_run (read_header_fields packet r) c λ read _. flags_of read c
