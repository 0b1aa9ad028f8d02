-- ===== src/Net/NetChannel/Packets.antt =====
-- `read_packet` and `write_packet`.
pub mod Idle
pub mod Layout
pub mod Sealed
pub mod Exchange
pub mod Lossy
use quickplay_server.Base.{
  ℕ, zero, suc, ◌+◌, ◌-◌, ◌/◌, ◌%◌, ◌^◌, bit_or, bit_xor, Bool, List, [], ◌++◌, Outcome, ok, panic,
  ◌>>=◌, ltb, leb, if◌then◌else◌, u32, drop, set, length, replicate,
}
use quickplay_server.Errors.{Error}
use quickplay_server.Io.{BitIo}
use quickplay_server.Net.Message.{Message}
use quickplay_server.Net.NetChannel.State.{
  NetChannel, max_streams, min_packet_size, flag_reliable, flag_challenge,
}
use quickplay_server.Net.NetChannel.Run.{Run, then_run}
use quickplay_server.Net.NetChannel.Send.{write_outgoing_reliable_data}
use quickplay_server.Net.NetChannel.Receive.{read_incoming_subchannel_data}
use quickplay_server.Net.NetChannel.Messages.{read_messages, read_reliable_messages, write_messages}
use quickplay_server.Net.NetChannel.Header.{read_header, contains, calculate_checksum}

module _ (io : BitIo) (crc : List ℕ → ℕ) where
  open io use {
    Reader, open_reader, read_in, read_bit, Writer, new_writer, write_out, byte_align, into_bytes,
  }

  -- The loop over the streams that a packet may have a block for, from the stream `i` on.
  unfoldable pub read_blocks : ℕ → ℕ → Reader → Run Reader
  read_blocks zero i r c = (ok r, c)
  read_blocks (suc left) i r c = then_run (read_bit r) c λ (present, r') _.
      let (read, c') = if present then read_incoming_subchannel_data io r' i c else (ok r', c) in
      then_run read c' λ r'' c''. read_blocks left (i + 1) r'' c''

  -- The loop over the streams whose transfer may be complete.
  unfoldable pub read_transfers : ℕ → ℕ → List Message → Run (List Message)
  read_transfers zero i messages c = (ok messages, c)
  read_transfers (suc left) i messages c =
      let (read, c') = read_reliable_messages io i messages c in
      then_run read c' λ messages' c''. read_transfers left (i + 1) messages' c''

  unfoldable pub read_reliable_part : Reader → Run (List Message × Reader)
  unfolding read_blocks read_transfers
  read_reliable_part r c = then_run (read_in 3 r) c λ (subchannel_bit, r') _.
      let (blocks, c') = read_blocks max_streams 0 r' c in
      then_run blocks c' λ r'' _.
        let flipped = record c' {
          in_reliable_state = bit_xor c'.in_reliable_state (2 ^ subchannel_bit);
        } in
        let (transfers, c'') = read_transfers max_streams 0 [] flipped in
        then_run transfers c'' λ messages _. (ok (messages, r''), c'')

  unfoldable pub read_packet : List ℕ → Run (List Message)
  unfolding read_reliable_part
  read_packet packet c =
      let (header, c') = read_header io crc packet (open_reader packet) c in
      then_run header c' λ (flags, r) _.
        let (reliable, c'') =
          if contains flags flag_reliable then read_reliable_part r c' else (ok ([], r), c') in
        then_run reliable c'' λ (messages, r') _.
          then_run (read_messages io (length packet) messages r') c''
            λ (messages', _) _. (ok messages', c'')

  -- The packet's header, with flags and checksum left at 0.
  unfoldable pub write_header : NetChannel → Outcome Error Writer
  write_header c = do
    w1 ← write_out 32 c.out_sequence_nr new_writer
    w2 ← write_out 32 c.in_sequence_nr w1
    w3 ← write_out 8 0 w2
    w4 ← write_out 16 0 w3
    w5 ← write_out 8 c.in_reliable_state w4
    write_out 32 c.challenge w5

  abbrev pub flags_offset : ℕ
  flags_offset = (32 + 32) / 8

  abbrev pub checksum_offs : ℕ
  checksum_offs = (32 + 32 + 8) / 8

  -- Padding, and the flags and the checksum put in their places; out of range they panic.
  unfoldable pub seal : ℕ → List ℕ → Outcome Error (List ℕ)
  seal flags written =
      let missing = min_packet_size - length written in
      let buffer =
        if ltb (length written) min_packet_size then written ++ replicate missing 0 else written in
      let flagged = set buffer flags_offset flags in
      let checksum = calculate_checksum crc (drop (checksum_offs + 2) flagged) in
      let summed =
        set (set flagged checksum_offs (checksum % 256)) (checksum_offs + 1) (checksum / 256) in
      if leb (checksum_offs + 2) (length buffer) then ok summed else panic

  -- The messages, the padding and the final bytes.
  unfoldable pub finish_packet : Bool → List Message → Writer → Outcome Error (List ℕ)
  unfolding seal
  finish_packet reliable messages w = do
    w' ← write_messages io messages w
    w'' ← byte_align w'
    seal (if reliable then bit_or flag_challenge flag_reliable else flag_challenge) (into_bytes w'')

  unfoldable pub write_packet : List Message → Run (List ℕ)
  unfolding write_header finish_packet
  write_packet messages c = then_run (write_header c) c λ w _.
      let (reliable, c') = write_outgoing_reliable_data io w c in
      then_run reliable c' λ (is_reliable, w') _.
        then_run (finish_packet is_reliable messages w') c'
          λ buffer _. (ok buffer, record c' { out_sequence_nr = u32 (c'.out_sequence_nr + 1) })
