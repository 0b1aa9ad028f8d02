-- ===== src/IoUtil.antt =====
-- src/io_util.rs: texts with a NUL at the end, and variable-length 32-bit numbers.
use quickplay_server.Base.{
  ℕ, zero, suc, ◌+◌, ◌*◌, ◌/◌, ◌^◌, ◌≡◌, bit_and, bit_or, Bool, true, false, List, [], ◌∷◌, ◌++◌,
  Outcome, ok, err, stuck, ◌>>=◌, ltb, leb, ◌==◌, if◌then◌else◌, u32,
}
use quickplay_server.Errors.{Error, utf8}
use quickplay_server.Io.{BitIo}
use Utf8.{is_utf8}
pub mod Utf8
pub mod Varint
pub mod Text
mod Tests

-- `String::from_utf8`: the bytes of a `String` are kept as they are.
abbrev pub from_utf8 : List ℕ → Outcome Error (List ℕ)
from_utf8 s = if is_utf8 s then ok s else err utf8

abbrev pub max_varint32_bytes : ℕ
max_varint32_bytes = 5

module _ (io : BitIo) where
  open io use {Reader, read_in, Writer, write_out, write_bytes}

  unfoldable pub write_string : List ℕ → Writer → Outcome Error Writer
  write_string string w = do w' ← write_bytes string w; write_out 8 0 w'

  -- The loop of `read_string`: `text` is `data`, whose length is `chars_read`.
  unfoldable pub read_string_loop : ℕ → ℕ → List ℕ → ℕ → Reader → Outcome Error (List ℕ × Reader)
  read_string_loop zero max_len text chars_read r = stuck
  read_string_loop (suc fuel) max_len text chars_read r = do
    (val, r') ← read_in 8 r
    let more = read_string_loop fuel max_len (text ++ val ∷ []) (chars_read + 1) r'
    if val == 0
        then ok (text, r')
        else if leb max_len (chars_read + 1)
        then ok (text ++ val ∷ [], r')
        else more

  -- Each round but the last counts one byte, so `max_len + 1` rounds are enough.
  unfoldable pub read_string : Reader → ℕ → Outcome Error (List ℕ × Reader)
  read_string r max_len = do
    (text, r') ← read_string_loop (max_len + 1) max_len [] 0 r
    string ← from_utf8 text
    ok (string, r')

  unfoldable pub read_varint32_loop : ℕ → ℕ → ℕ → Reader → Outcome Error (ℕ × Reader)
  read_varint32_loop zero result count r = stuck
  read_varint32_loop (suc fuel) result count r =
      let next = do
        (b, r') ← read_in 8 r
        let result' = bit_or result (u32 (bit_and b 0x7f * 2 ^ (7 * count)))
        let more = read_varint32_loop fuel result' (count + 1) r'
        if bit_and b 0x80 == 0 then ok (result', r') else more
      in if count == max_varint32_bytes then ok (result, r) else next

  -- Six tests of `count`, from 0 to 5.
  unfoldable pub read_varint32 : Reader → Outcome Error (ℕ × Reader)
  read_varint32 r = read_varint32_loop 6 0 0 r

  unfoldable pub write_varint32_loop : ℕ → ℕ → Writer → Outcome Error Writer
  write_varint32_loop zero value w = stuck
  write_varint32_loop (suc fuel) value w =
      let next = do
        w' ← write_out 8 (bit_or (bit_and value 0x7f) 0x80) w
        write_varint32_loop fuel (value / 2 ^ 7) w'
      in if ltb 0x7f value then next else write_out 8 (bit_and value 0x7f) w

  -- A `u32` is below `128 ^ 5`, so the test fails at the fifth round at the latest.
  unfoldable pub write_varint32 : ℕ → Writer → Outcome Error Writer
  write_varint32 value w = write_varint32_loop 5 value w
