-- ===== src/Net/NetChannel/Messages/Payload.antt =====
-- The transfer that `queue_reliable_messages` makes, and what `read_messages` makes of it.
use quickplay_server.Base.{
  ℕ, suc, ◌+◌, ◌-◌, ◌*◌, ◌%◌, ◌^◌, ◌<◌, ◌≡◌, ◌≢◌, sym, ap, ◌∙◌, false, List, [], ◌++◌, length,
  length-append, length-bits_of, length-replicate, replicate, All, IsByte, ok, err, arith, bits_of,
  bits_of-onto,
}
use quickplay_server.Errors.{unhandled_message_type}
use quickplay_server.Io.{BitIo}
use quickplay_server.Net.Message.{Message}
use quickplay_server.Net.Message.RoundTrip.{IsExchanged}
use quickplay_server.Net.NetChannel.Messages.{read_messages_loop, read_messages, payload}
use quickplay_server.Net.NetChannel.Messages.Loop.{
  all_bits, padding, padded_bytes, padding-lt, padding_six, rounds_lem, length-le-all_bits,
  write_messages_lem, loop_messages, loop_end, loop_nop,
}

module _ (io : BitIo) where
  open io use {open_reader, holding, written}

  payload_bytes :
      (ms : List Message) (out : List ℕ)
      → All IsExchanged ms
      → All IsByte out
      → bits_of out ≡ all_bits ms ++ replicate (padding ms) false
      → payload io ms ≡ ok out
  unfolding payload
  payload_bytes ms out h all e =
      rw (io.new_writer_lem, write_messages_lem io ms [] h, io.byte_align_lem (all_bits ms))
        (ap (λ t. ok (io.into_bytes (written t))) (sym e) ∙ ap ok (io.into_bytes_lem out all))

  -- The payload is the bytes of the messages and of the zeros after them.
  pub payload_lem :
      (ms : List Message)
      → All IsExchanged ms
      → (out : List ℕ) × (payload io ms ≡ ok out)
        × (bits_of out ≡ all_bits ms ++ replicate (padding ms) false)
  payload_lem ms h =
      let (out, all, _, e) = bits_of-onto _ _ (padded_bytes ms) in
      (out, payload_bytes ms out h all e, e)

  -- Both ends of the loop on a payload, at a count of its bytes.
  loop_payload :
      (ms : List Message) (n f : ℕ)
      → All IsExchanged ms
      → n * 8 < 2 ^ 64
      → n * 8 ≡ length (all_bits ms ++ replicate (padding ms) false)
      → n * 8 ≡ length ms + f
      → read_messages_loop io
          (suc (n * 8))
          n
          []
          (holding 0 (all_bits ms ++ replicate (padding ms) false))
        ≡ read_messages_loop io
            (suc f)
            n
            ms
            (holding (length (all_bits ms)) (replicate (padding ms) false))
  loop_payload ms n f h small e count =
      ap
        (λ k.
          read_messages_loop io k n [] (holding 0 (all_bits ms ++ replicate (padding ms) false)))
        (omega (arith, rounds_lem ms (suc f)))
      ∙ loop_messages io ms (suc f) n 0 [] _ h small (omega arith)
      ∙ ap (λ k. read_messages_loop io (suc f) n ms (holding k (replicate (padding ms) false)))
          (omega arith)

  -- The bits of a payload, counted.
  bits_count :
      (ms : List Message) (out : List ℕ)
      → bits_of out ≡ all_bits ms ++ replicate (padding ms) false
      → length out * 8 ≡ length (all_bits ms) + padding ms
  bits_count ms out e = omega (
    arith,
    ap length e,
    length-bits_of out,
    length-append (all_bits ms) (replicate (padding ms) false),
    length-replicate (padding ms) false,
  )

  read_out :
      (ms : List Message) (out : List ℕ)
      → All IsExchanged ms
      → length (all_bits ms) < 2 ^ 63
      → bits_of out ≡ all_bits ms ++ replicate (padding ms) false
      → read_messages io (length out) [] (open_reader out)
        ≡ read_messages_loop io
            (suc (length out * 8 - length ms))
            (length out)
            ms
            (holding (length (all_bits ms)) (replicate (padding ms) false))
  unfolding read_messages
  read_out ms out h small e =
      rw (io.open_reader_lem out, e)
        (loop_payload ms (length out) (length out * 8 - length ms) h
          (omega (arith, bits_count ms out e))
          (omega (
            arith,
            bits_count ms out e,
            length-append (all_bits ms) (replicate (padding ms) false),
            length-replicate (padding ms) false,
          ))
          (omega (arith, bits_count ms out e, length-le-all_bits ms)))

  -- For disconnect and print messages with texts within the bounds of their readers, which have fewer
  -- than 2^63 bits together and whose number is not 3 modulo 4, the transfer that is made of them
  -- is read back as the same messages in the same order.
  pub read-payload :
      (ms : List Message)
      → All IsExchanged ms
      → length (all_bits ms) < 2 ^ 63
      → length ms % 4 ≢ 3
      → (out : List ℕ) × (r : io.Reader) × (payload io ms ≡ ok out)
        × (read_messages io (length out) [] (open_reader out) ≡ ok (ms, r))
  unfolding read_messages
  read-payload ms h small few =
      let (out, written, bits) = payload_lem ms h in
      (
        out,
        holding (length (all_bits ms)) (replicate (padding ms) false),
        written,
        read_out ms out h small bits
            ∙ loop_end io _ (length out) _ ms _ (omega (arith, bits_count ms out bits))
                (omega (arith, bits_count ms out bits, length-replicate (padding ms) false))
                (omega (arith, padding-lt ms few, length-replicate (padding ms) false)),
      )

  -- For disconnect and print messages with texts within the bounds of their readers, which have
  -- fewer than 2^63 bits together and whose number is 3 modulo 4, `read_messages` refuses the
  -- transfer that is made of them: the zeros that fill the last byte are read as a message of
  -- type 0.
  pub read-payload_nop :
      (ms : List Message)
      → All IsExchanged ms
      → length (all_bits ms) < 2 ^ 63
      → length ms % 4 ≡ 3
      → (out : List ℕ) × (payload io ms ≡ ok out)
        × (read_messages io (length out) [] (open_reader out) ≡ err (unhandled_message_type 0))
  unfolding read_messages
  read-payload_nop ms h small three =
      let (out, written, bits) = payload_lem ms h in
      (
        out,
        written,
        read_out ms out h small bits
            ∙ ap
                (λ k.
                  read_messages_loop io (suc (length out * 8 - length ms)) (length out) ms
                    (holding (length (all_bits ms)) (replicate k false)))
                (padding_six ms three)
            ∙ loop_nop io _ (length out) _ ms (omega (arith, bits_count ms out bits))
                (omega (arith, bits_count ms out bits, padding_six ms three)),
      )
