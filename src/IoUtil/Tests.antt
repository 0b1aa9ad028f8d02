-- ===== src/IoUtil/Tests.antt =====
-- The text and number formats of src/io_util.rs on concrete values.
use quickplay_server.Base.{
  ℕ, ◌+◌, ◌*◌, ◌^◌, ◌<◌, ◌≤◌, ◌≡◌, refl, Bool, true, false, List, [], ◌∷◌, ◌++◌, length, ok, bytes,
  bits_of, arith, All,
}
use quickplay_server.Io.BitList.{bit_list}
use quickplay_server.Io.Advance.{Advances}
use quickplay_server.IoUtil.{read_string, write_string, read_varint32, write_varint32}
use quickplay_server.IoUtil.Varint.{read_varint32-write_varint32, read_varint32-Advances}
use quickplay_server.IoUtil.Text.{
  IsTextByte, IsText, read_string-write_string, read_string_full, read_string-Advances,
}
use quickplay_server.IoUtil.Utf8.{is_utf8}

abbrev some_bits : List Bool
some_bits = true ∷ false ∷ []

abbrev word : List ℕ
word = bytes "jump"

word-IsTextByte : All IsTextByte word
word-IsTextByte = ground arith

word-is_utf8 : is_utf8 word ≡ true
unfolding is_utf8
word-is_utf8 = refl

read_varint32-write_varint32_example :
    (out : List ℕ) × (write_varint32 bit_list 300 (bit_list.written [])
      ≡ ok (bit_list.written ([] ++ bits_of out)))
    × (read_varint32 bit_list (bit_list.holding 0 (bits_of out ++ some_bits))
        ≡ ok (300, bit_list.holding (0 + 8 * length out) some_bits))
    × (1 ≤ length out)
    × (length out ≤ 5)
read_varint32-write_varint32_example =
    read_varint32-write_varint32 bit_list 300 0 [] some_bits (omega arith)

read_varint32-Advances_example :
    Advances bit_list
      (λ v. v < 2 ^ 32)
      0
      0
      (bits_of (172 ∷ 2 ∷ []))
      (read_varint32 bit_list (bit_list.holding 0 (bits_of (172 ∷ 2 ∷ []))))
read_varint32-Advances_example = read_varint32-Advances bit_list 0 (bits_of (172 ∷ 2 ∷ []))

read_string-write_string_example :
    (write_string bit_list word (bit_list.written [])
      ≡ ok (bit_list.written ([] ++ bits_of (word ++ 0 ∷ []))))
    × (read_string bit_list (bit_list.holding 0 (bits_of (word ++ 0 ∷ []) ++ some_bits)) 16
        ≡ ok (word, bit_list.holding (0 + 8 * (length word + 1)) some_bits))
read_string-write_string_example =
    read_string-write_string bit_list word 16 0 [] some_bits word-IsTextByte word-is_utf8
      (ground arith)

read_string_full_example :
    read_string bit_list (bit_list.holding 0 (bits_of (word ++ 0 ∷ []) ++ some_bits)) (length word)
    ≡ ok (word, bit_list.holding (0 + 8 * length word) (bits_of (0 ∷ []) ++ some_bits))
read_string_full_example =
    read_string_full bit_list b'j' (bytes "ump") (0 ∷ []) 0 some_bits word-IsTextByte word-is_utf8

read_string-Advances_example :
    Advances bit_list
      (IsText 2)
      0
      0
      (bits_of word)
      (read_string bit_list (bit_list.holding 0 (bits_of word)) 2)
read_string-Advances_example = read_string-Advances bit_list 2 0 (bits_of word)
