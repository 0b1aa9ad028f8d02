-- ===== src/Net/NetChannel/Messages/Total.antt =====
-- `read_messages` on any bits: it comes to an end, and yields messages within their bounds.
use quickplay_server.Base.{
  ℕ, zero, suc, ◌+◌, ◌-◌, ◌*◌, ◌%◌, ◌^◌, ◌<◌, ◌≡◌, Bool, List, [], ◌∷◌, ◌++◌, length, All,
  All-append, arith, ltb,
}
use quickplay_server.Io.{BitIo}
use quickplay_server.Io.Advance.{
  Advances, read_in-Advances, bind_taken-Advances, if-Advances, ok-Advances,
}
use quickplay_server.Net.Message.{Message}
use quickplay_server.Net.Message.Reads.{IsReadable, read-Advances}
use quickplay_server.Net.NetChannel.Messages.{read_messages_loop, read_messages}

module _ (io : BitIo) where
  open io use {open_reader, holding}

  -- The bits of the data, less those that were read, are what is before the reader.
  no_wrap : (n p k : ℕ) → n * 8 < 2 ^ 64 → n * 8 ≡ p + k → (n * 8 + 2 ^ 64 - p) % 2 ^ 64 ≡ k
  no_wrap n p k small e = omega arith

  loop-Advances :
      (f n p : ℕ) (ms : List Message) (bs : List Bool)
      → length bs < f
      → n * 8 < 2 ^ 64
      → n * 8 ≡ p + length bs
      → All IsReadable ms
      → Advances io (All IsReadable) 0 p bs (read_messages_loop io f n ms (holding p bs))
  unfolding read_messages_loop
  loop-Advances zero n p ms bs hf small e h = absurd (omega arith)
  loop-Advances (suc f) n p ms bs hf small e h =
      if-Advances io (ltb ((n * 8 + 2 ^ 64 - io.position_in_bits (holding p bs)) % 2 ^ 64) 6)
        (λ few. ok-Advances io _ p bs ms h)
        λ more.
          bind_taken-Advances io 0 _ (omega arith) (read_in-Advances io 6 p bs)
            λ t q rest ht le len.
              bind_taken-Advances io 0 _ (omega arith) (read-Advances io t q rest)
                λ m q' rest' hm le' len'.
                  loop-Advances f n q' (ms ++ m ∷ []) rest' (omega arith) small (omega arith)
                    (All-append IsReadable ms (m ∷ []) h (hm, tt))

  -- On data of `n` bytes with fewer than 2^64 bits, of which `p` bits are read and the others
  -- are to come, and after messages within the bounds of their fields, `read_messages` ends
  -- without a panic: with messages within these bounds, or with an error.
  pub read_messages-Advances :
      (n p : ℕ) (ms : List Message) (bs : List Bool)
      → n * 8 < 2 ^ 64
      → n * 8 ≡ p + length bs
      → All IsReadable ms
      → Advances io (All IsReadable) 0 p bs (read_messages io n ms (holding p bs))
  unfolding read_messages
  read_messages-Advances n p ms bs small e h =
      loop-Advances (suc (n * 8)) n p ms bs (omega arith) small e h
