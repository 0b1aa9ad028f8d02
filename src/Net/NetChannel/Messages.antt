-- ===== src/Net/NetChannel/Messages.antt =====
-- The messages of a packet or of a finished transfer, and the transfer that holds some messages.
pub mod Loop
pub mod Payload
pub mod Total
use quickplay_server.Base.{
  ℕ, zero, suc, ◌+◌, ◌-◌, ◌*◌, ◌%◌, ◌^◌, Bool, List, [], ◌∷◌, ◌++◌, Option, none, some, Outcome, ok,
  err, panic, stuck, ◌>>=◌, ltb, if◌then◌else◌, get_elem?, set, length,
}
use quickplay_server.Errors.{Error, fragments_overflow, file_upload}
use quickplay_server.Io.{BitIo}
use quickplay_server.Net.Message
use quickplay_server.Net.Message.{Message, netmsg_type_bits}
use quickplay_server.Net.NetChannel.State.{
  IncomingReliableData, OutgoingReliableData, new_outgoing, bytes_to_fragments, NetChannel,
}
use quickplay_server.Net.NetChannel.Run.{Run, then_run}

module _ (io : BitIo) where
  open io use {
    Reader, open_reader, read_in, position_in_bits, Writer, new_writer, byte_align, into_bytes,
  }

  -- The loop of `read_messages`; the subtraction is on `u64`.
  unfoldable pub read_messages_loop :
      ℕ → ℕ → List Message → Reader → Outcome Error (List Message × Reader)
  read_messages_loop zero data_len messages r = stuck
  read_messages_loop (suc fuel) data_len messages r =
      let next = do
        (message_type, r') ← read_in netmsg_type_bits r
        (message, r'') ← Message.read io r' message_type
        read_messages_loop fuel data_len (messages ++ message ∷ []) r''
      in if ltb ((data_len * 8 + 2 ^ 64 - position_in_bits r) % 2 ^ 64) netmsg_type_bits
        then ok (messages, r)
        else next

  -- A message takes six bits at least, so fewer rounds than there are bits are enough.
  unfoldable pub read_messages : ℕ → List Message → Reader → Outcome Error (List Message × Reader)
  read_messages data_len messages r = read_messages_loop (suc (data_len * 8)) data_len messages r

  -- `read_reliable_messages` at the transfer of a stream, with `messages` read before.
  unfoldable pub read_transfer :
      ℕ → List Message → Option (Option IncomingReliableData) → Run (List Message)
  read_transfer stream messages none c = (panic, c)
  read_transfer stream messages (some none) c = (ok messages, c)
  read_transfer stream messages (some (some d)) c =
      let total = bytes_to_fragments d.size in
      let read =
        then_run (read_messages (length d.content) messages (open_reader d.content)) c
          λ (messages', _) c'. (
            ok messages',
            record c' { incoming_reliable_data = set c'.incoming_reliable_data stream none },
          ) in
      if ltb d.acked_fragments total
      then (ok messages, c)
      else if ltb total d.acked_fragments
      then (err (fragments_overflow d.acked_fragments total), c)
      else elim d.filename [ none ↦ read | some name ↦ (err file_upload, c) ]

  unfoldable pub read_reliable_messages : ℕ → List Message → Run (List Message)
  unfolding read_transfer
  read_reliable_messages stream messages c =
      read_transfer stream messages (get_elem? c.incoming_reliable_data stream) c

  unfoldable pub write_messages : List Message → Writer → Outcome Error Writer
  write_messages [] w = ok w
  write_messages (m ∷ ms) w = do w' ← Message.write io m w; write_messages ms w'

  -- The bytes that `queue_reliable_messages` makes of the messages.
  unfoldable pub payload : List Message → Outcome Error (List ℕ)
  unfolding write_messages
  payload messages = do
    w ← write_messages messages new_writer
    w' ← byte_align w
    ok (into_bytes w')

  unfoldable pub push_transfer :
      OutgoingReliableData → Option (List OutgoingReliableData) → Run (Unit {0})
  push_transfer d none c = (panic, c)
  push_transfer d (some stream) c = (
    ok tt,
    record c { outgoing_reliable_data = set c.outgoing_reliable_data 0 (stream ++ d ∷ []) },
  )

  unfoldable pub queue_reliable_messages : List Message → Run (Unit {0})
  unfolding payload push_transfer
  queue_reliable_messages messages c =
      let transfer = do content ← payload messages; new_outgoing content
      in then_run transfer c λ d _. push_transfer d (get_elem? c.outgoing_reliable_data 0) c
