-- ===== src/Net/Tests/Messages.antt =====
-- The messages of src/net/message.rs, and their transfers, on concrete values.
use quickplay_server.Base.{
  ℕ, ◌+◌, ◌≡◌, refl, List, [], ◌∷◌, ◌++◌, length, ok, err, bytes, bits_of, length-bits_of, le_bits,
  arith, All,
}
use quickplay_server.Errors.{unhandled_message_type}
use quickplay_server.Io.BitList.{bit_list}
use quickplay_server.Io.Advance.{Advances}
use quickplay_server.IoUtil.Utf8.{is_utf8}
use quickplay_server.Net.Message.{Message, disconnect, print, read, write}
use quickplay_server.Net.Message.Reads.{IsReadable, read-Advances}
use quickplay_server.Net.Message.RoundTrip.{IsExchanged, message_bits, read_typed, read_typed-write}
use quickplay_server.Net.NetChannel.Messages.{payload, read_messages}
use quickplay_server.Net.NetChannel.Messages.Loop.{all_bits}
use quickplay_server.Net.NetChannel.Messages.Payload.{read-payload, read-payload_nop}
use quickplay_server.Net.NetChannel.Messages.Total.{read_messages-Advances}

-- Messages.
abbrev hello : Message
hello = print (record { text = bytes "hi" })

hello-IsExchanged : IsExchanged hello
unfolding is_utf8
hello-IsExchanged = (ground arith, refl, ground arith)

read_typed-write_example :
    (write bit_list hello (bit_list.written []) ≡ ok (bit_list.written ([] ++ message_bits hello)))
    × (read_typed bit_list (bit_list.holding 0 (message_bits hello ++ []))
        ≡ ok (hello, bit_list.holding (0 + length (message_bits hello)) []))
read_typed-write_example = read_typed-write bit_list hello 0 [] [] hello-IsExchanged

read-Advances_example :
    Advances bit_list IsReadable 0 0
      (bits_of (bytes "bye"))
      (read bit_list (bit_list.holding 0 (bits_of (bytes "bye"))) 1)
read-Advances_example = read-Advances bit_list 1 0 (bits_of (bytes "bye"))

abbrev two_messages : List Message
two_messages = disconnect (record { reason = bytes "bye" }) ∷ hello ∷ []

abbrev three_messages : List Message
three_messages = hello ∷ two_messages

bye-IsExchanged : IsExchanged (disconnect (record { reason = bytes "bye" }))
unfolding is_utf8
bye-IsExchanged = (ground arith, refl, ground arith)

length-two_messages : length (all_bits two_messages) ≡ 68
unfolding all_bits message_bits le_bits
length-two_messages = refl

length-three_messages : length (all_bits three_messages) ≡ 98
unfolding all_bits message_bits le_bits
length-three_messages = refl

read-payload_example :
    (out : List ℕ) × (r : bit_list.Reader) × (payload bit_list two_messages ≡ ok out)
    × (read_messages bit_list (length out) [] (bit_list.open_reader out) ≡ ok (two_messages, r))
read-payload_example =
    read-payload bit_list two_messages (bye-IsExchanged, (hello-IsExchanged, tt))
      (omega (arith, length-two_messages)) (ground arith)

read-payload_nop_example :
    (out : List ℕ) × (payload bit_list three_messages ≡ ok out)
    × (read_messages bit_list (length out) [] (bit_list.open_reader out)
        ≡ err (unhandled_message_type 0))
read-payload_nop_example =
    read-payload_nop bit_list three_messages
      (hello-IsExchanged, (bye-IsExchanged, (hello-IsExchanged, tt)))
      (omega (arith, length-three_messages)) (ground arith)

read_messages-Advances_example :
    Advances bit_list
      (All IsReadable)
      0
      0
      (bits_of (bytes "bytes"))
      (read_messages bit_list 5 [] (bit_list.holding 0 (bits_of (bytes "bytes"))))
read_messages-Advances_example =
    read_messages-Advances bit_list 5 0 [] (bits_of (bytes "bytes")) (omega arith)
      (omega (arith, length-bits_of (bytes "bytes"))) tt
