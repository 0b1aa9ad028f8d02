-- ===== src/Net/Message/RoundTrip.antt =====
-- What `Message::write` writes, and that `Message::read` reads it back.
use quickplay_server.Base.{
  ℕ, ◌+◌, ◌*◌, ◌<◌, ◌≡◌, Bool, true, List, [], ◌∷◌, ◌++◌, append_assoc, length, length-append,
  length-le_bits, length-bits_of, All, Outcome, ok, ◌>>=◌, arith, le_bits, bits_of,
}
use quickplay_server.Errors.{Error}
use quickplay_server.Io.{BitIo}
use quickplay_server.IoUtil.Utf8.{is_utf8}
use quickplay_server.IoUtil.Text.{
  IsTextByte, All-IsTextByte-IsByte, write_string_lem, read-write_string,
}
use quickplay_server.Net.Message.{
  Message, disconnect, string_cmd, set_con_vars, signon_state, print, read, write, netmsg_type_bits,
  message_type_disconnect, message_type_print,
}

-- A text that comes through under the bound of its reader.
abbrev pub Fits : ℕ → List ℕ → Type 0
Fits max_len s = All IsTextByte s × (is_utf8 s ≡ true) × (length s < max_len)

-- The messages that the program both writes and reads, with such texts.
abbrev pub IsExchanged : Message → Type 0
IsExchanged (disconnect m) = Fits 1024 m.reason
IsExchanged (print m) = Fits 2048 m.text
IsExchanged (string_cmd m) = ⊥
IsExchanged (set_con_vars m) = ⊥
IsExchanged (signon_state m) = ⊥

abbrev pub type_of : Message → ℕ
type_of (disconnect m) = message_type_disconnect
type_of m = message_type_print

abbrev pub text_of : Message → List ℕ
text_of (disconnect m) = m.reason
text_of (print m) = m.text
text_of m = []

-- The bits of such a message.
unfoldable pub message_bits : Message → List Bool
message_bits m = le_bits 6 (type_of m) ++ bits_of (text_of m ++ 0 ∷ [])

pub length-message_bits : (m : Message) → length (message_bits m) ≡ 6 + 8 * (length (text_of m) + 1)
unfolding message_bits
length-message_bits m = omega (
  arith,
  length-append (le_bits 6 (type_of m)) (bits_of (text_of m ++ 0 ∷ [])),
  length-le_bits 6 (type_of m),
  length-bits_of (text_of m ++ 0 ∷ []),
  length-append (text_of m) (0 ∷ []),
)

module _ (io : BitIo) where
  open io use {Reader, read_in, holding, written, write_out}

  write_text :
      (type : ℕ) (s : List ℕ) (bs : List Bool)
      → type < 64
      → All IsTextByte s
      → (write_out 6 type (written bs) >>= λ w. quickplay_server.IoUtil.write_string io s w)
        ≡ ok (written (bs ++ (le_bits 6 type ++ bits_of (s ++ 0 ∷ []))))
  write_text type s bs lt h = rw (
    io.write_out_lem 6 type bs lt,
    write_string_lem io s (bs ++ le_bits 6 type) (All-IsTextByte-IsByte s h),
    append_assoc bs (le_bits 6 type) (bits_of (s ++ 0 ∷ [])),
  )

  pub write_lem :
      (m : Message) (bs : List Bool)
      → IsExchanged m
      → write io m (written bs) ≡ ok (written (bs ++ message_bits m))
  unfolding write message_bits
  write_lem (disconnect m) bs h = write_text 1 m.reason bs (omega arith) h.0
  write_lem (print m) bs h = write_text 7 m.text bs (omega arith) h.0
  write_lem (string_cmd m) bs h = absurd h
  write_lem (set_con_vars m) bs h = absurd h
  write_lem (signon_state m) bs h = absurd h

  -- `read`, after the type.
  read_text :
      (m : Message) (p : ℕ) (rest : List Bool)
      → IsExchanged m
      → read io (holding p (bits_of (text_of m ++ 0 ∷ []) ++ rest)) (type_of m)
        ≡ ok (m, holding (p + 8 * (length (text_of m) + 1)) rest)
  unfolding read
  read_text (disconnect m) p rest h = rw (read-write_string io m.reason 1024 p rest h.0 h.1 h.2)
  read_text (print m) p rest h = rw (read-write_string io m.text 2048 p rest h.0 h.1 h.2)
  read_text (string_cmd m) p rest h = absurd h
  read_text (set_con_vars m) p rest h = absurd h
  read_text (signon_state m) p rest h = absurd h

  type-lt : (m : Message) → type_of m < 64
  type-lt (disconnect m) = omega arith
  type-lt (print m) = omega arith
  type-lt (string_cmd m) = omega arith
  type-lt (set_con_vars m) = omega arith
  type-lt (signon_state m) = omega arith

  -- The type and the message after it, as the loop of the channel reads them.
  abbrev pub read_typed : Reader → Outcome Error (Message × Reader)
  read_typed r = do (message_type, r') ← read_in netmsg_type_bits r; read io r' message_type

  -- A message is read from its bits.
  pub read-write :
      (m : Message) (p : ℕ) (rest : List Bool)
      → IsExchanged m
      → read_typed (holding p (message_bits m ++ rest))
        ≡ ok (m, holding (p + length (message_bits m)) rest)
  unfolding message_bits
  read-write m p rest h =
      rw
        (
          append_assoc (le_bits 6 (type_of m)) (bits_of (text_of m ++ 0 ∷ [])) rest,
          io.read_in_lem 6 p (type_of m) (bits_of (text_of m ++ 0 ∷ []) ++ rest) (type-lt m),
          read_text m (p + 6) rest h,
        )
        (ground (arith, length-message_bits m))

  -- A disconnect or print message, whose text is UTF-8 without NULs and below the bound of its
  -- reader, is written after what was written before; from the bits that it adds, the type and the
  -- message are read back, and what follows is left unread.
  pub read_typed-write :
      (m : Message) (p : ℕ) (before after : List Bool)
      → IsExchanged m
      → (write io m (written before) ≡ ok (written (before ++ message_bits m)))
        × (read_typed (holding p (message_bits m ++ after))
            ≡ ok (m, holding (p + length (message_bits m)) after))
  read_typed-write m p before after h = (write_lem m before h, read-write m p after h)
