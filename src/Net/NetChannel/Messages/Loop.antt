-- ===== src/Net/NetChannel/Messages/Loop.antt =====
-- The bits of messages, as `write_messages` writes them and the loop of `read_messages` reads them.
use quickplay_server.Base.{
  ℕ, suc, ◌+◌, ◌-◌, ◌*◌, ◌/◌, ◌%◌, ◌^◌, ◌≤◌, ◌<◌, ◌≡◌, ◌≢◌, refl, sym, ap, ap₂, ◌∙◌, Bool, false,
  List, [], ◌∷◌, ◌++◌, append_assoc, append-nil, length, length-append, length-replicate, replicate,
  All, Outcome, ok, err, ◌>>=◌, arith, le_bits, le_bits_zero, lt→ltb, le→ltb, bind_assoc,
}
use quickplay_server.Errors.{Error, unhandled_message_type}
use quickplay_server.Io.{BitIo}
use quickplay_server.Net.Message
use quickplay_server.Net.Message.{Message}
use quickplay_server.Net.Message.RoundTrip.{
  IsExchanged, message_bits, length-message_bits, text_of, write_lem, read-write,
}
use quickplay_server.Net.NetChannel.Messages.{read_messages_loop, read_messages, write_messages}

-- The bits of the messages, one after the other.
unfoldable pub all_bits : List Message → List Bool
all_bits [] = []
all_bits (m ∷ ms) = message_bits m ++ all_bits ms

-- The zeros that fill the last byte.
abbrev pub padding : List Message → ℕ
padding ms = (8 - length (all_bits ms) % 8) % 8

-- With these zeros the messages are a number of bytes.
pub padded_bytes :
    (ms : List Message)
    → length (all_bits ms ++ replicate (padding ms) false)
      ≡ 8 * (length (all_bits ms ++ replicate (padding ms) false) / 8)
padded_bytes ms = omega (
  arith,
  length-append (all_bits ms) (replicate (padding ms) false),
  length-replicate (padding ms) false,
)

-- Each message is six bits more than a number of bytes.
length-all_bits : (ms : List Message) → (k : ℕ) × (length (all_bits ms) ≡ 8 * k + 6 * length ms)
unfolding all_bits
length-all_bits [] = (0, refl)
length-all_bits (m ∷ ms) =
    let (k, e) = length-all_bits ms in
    (
      k + length (text_of m) + 1,
      omega (arith, e, length-append (message_bits m) (all_bits ms), length-message_bits m),
    )

pub padding-lt : (ms : List Message) → length ms % 4 ≢ 3 → padding ms < 6
padding-lt ms h = let (k, e) = length-all_bits ms in omega arith

pub padding_six : (ms : List Message) → length ms % 4 ≡ 3 → padding ms ≡ 6
padding_six ms h = let (k, e) = length-all_bits ms in omega arith

-- `f` rounds, and one for each message.
abbrev pub rounds : List Message → ℕ → ℕ
rounds [] f = f
rounds (m ∷ ms) f = suc (rounds ms f)

pub rounds_lem : (ms : List Message) (f : ℕ) → rounds ms f ≡ length ms + f
rounds_lem [] f = omega arith
rounds_lem (m ∷ ms) f = omega (arith, rounds_lem ms f)

pub length-le-all_bits : (ms : List Message) → length ms ≤ length (all_bits ms)
unfolding all_bits
length-le-all_bits [] = omega arith
length-le-all_bits (m ∷ ms) = omega (
  arith,
  length-le-all_bits ms,
  length-append (message_bits m) (all_bits ms),
  length-message_bits m,
)

module _ (io : BitIo) where
  open io use {holding, written}

  pub write_messages_lem :
      (ms : List Message) (bs : List Bool)
      → All IsExchanged ms
      → write_messages io ms (written bs) ≡ ok (written (bs ++ all_bits ms))
  unfolding write_messages all_bits
  write_messages_lem [] bs h = rw append-nil
  write_messages_lem (m ∷ ms) bs h = rw (
    write_lem io m bs h.0,
    write_messages_lem ms (bs ++ message_bits m) h.1,
    append_assoc bs (message_bits m) (all_bits ms),
  )

  -- One round of the loop, on a message.
  loop_message :
      (m : Message) (f n p : ℕ) (ms : List Message) (rest : List Bool)
      → IsExchanged m
      → n * 8 < 2 ^ 64
      → n * 8 ≡ p + length (message_bits m ++ rest)
      → read_messages_loop io (suc f) n ms (holding p (message_bits m ++ rest))
        ≡ read_messages_loop io f n (ms ++ m ∷ []) (holding (p + length (message_bits m)) rest)
  unfolding read_messages_loop
  loop_message m f n p ms rest h small e =
      rw (io.position_lem p (message_bits m ++ rest), le→ltb _ 6 enough)
        (sym (
            bind_assoc (io.read_in 6 (holding p (message_bits m ++ rest)))
              (λ x. Message.read io x.1 x.0) go_on)
          ∙ ap (λ t. t >>= go_on) (read-write io m p rest h))
    where
      go_on : Message × io.Reader → Outcome Error (List Message × io.Reader)
      go_on x = read_messages_loop io f n (ms ++ x.0 ∷ []) x.1

      enough : 6 ≤ (n * 8 + 2 ^ 64 - p) % 2 ^ 64
      enough = omega (arith, length-append (message_bits m) rest, length-message_bits m)

  -- The loop reads all the messages, and goes on with what follows them.
  pub loop_messages :
      (ms : List Message) (f n p : ℕ) (before : List Message) (tail : List Bool)
      → All IsExchanged ms
      → n * 8 < 2 ^ 64
      → n * 8 ≡ p + length (all_bits ms ++ tail)
      → read_messages_loop io (rounds ms f) n before (holding p (all_bits ms ++ tail))
        ≡ read_messages_loop io f n (before ++ ms) (holding (p + length (all_bits ms)) tail)
  unfolding all_bits
  loop_messages [] f n p before tail h small e = rw append-nil (ground arith)
  loop_messages (m ∷ ms) f n p before tail h small e =
      ap (λ t. read_messages_loop io (suc (rounds ms f)) n before (holding p t)) regroup
      ∙ loop_message m (rounds ms f) n p before (all_bits ms ++ tail) h.0 small (rw regroup at e)
      ∙ loop_messages ms f n (p + length (message_bits m)) (before ++ m ∷ []) tail h.1 small left
      ∙ ap₂ (λ all k. read_messages_loop io f n all (holding k tail))
          (append_assoc before (m ∷ []) ms)
          (omega (arith, length-append (message_bits m) (all_bits ms)))
    where
      regroup : (message_bits m ++ all_bits ms) ++ tail ≡ message_bits m ++ (all_bits ms ++ tail)
      regroup = append_assoc (message_bits m) (all_bits ms) tail

      left : n * 8 ≡ p + length (message_bits m) + length (all_bits ms ++ tail)
      left =
          omega (arith, e, ap length regroup, length-append (message_bits m) (all_bits ms ++ tail))

  -- Fewer than six bits: no more messages.
  pub loop_end :
      (f n p : ℕ) (ms : List Message) (tail : List Bool)
      → n * 8 < 2 ^ 64
      → n * 8 ≡ p + length tail
      → length tail < 6
      → read_messages_loop io (suc f) n ms (holding p tail) ≡ ok (ms, holding p tail)
  unfolding read_messages_loop
  loop_end f n p ms tail small e lt = rw (io.position_lem p tail, lt→ltb _ 6 few)
    where
      few : (n * 8 + 2 ^ 64 - p) % 2 ^ 64 < 6
      few = omega arith

  -- Six zeros: a message of type 0, which `read` does not know.
  pub loop_nop :
      (f n p : ℕ) (ms : List Message)
      → n * 8 < 2 ^ 64
      → n * 8 ≡ p + 6
      → read_messages_loop io (suc f) n ms (holding p (replicate 6 false))
        ≡ err (unhandled_message_type 0)
  unfolding read_messages_loop Message.read
  loop_nop f n p ms small e = rw (io.position_lem p (replicate 6 false), le→ltb _ 6 enough, zeros)
    where
      enough : 6 ≤ (n * 8 + 2 ^ 64 - p) % 2 ^ 64
      enough = omega arith

      zeros :
          io.read_in Message.netmsg_type_bits (holding p (replicate 6 false))
          ≡ ok (0, holding (p + 6) [])
      zeros =
          rw (← le_bits_zero 6, ← append-nil (le_bits 6 0)) (io.read_in_lem 6 p 0 [] (omega arith))

  -- Messages with fewer than six zeros after them, from any place on.
  pub read_messages-padded :
      (ms : List Message) (n p k : ℕ)
      → All IsExchanged ms
      → n * 8 < 2 ^ 64
      → n * 8 ≡ p + length (all_bits ms ++ replicate k false)
      → k < 6
      → read_messages io n [] (holding p (all_bits ms ++ replicate k false))
        ≡ ok (ms, holding (p + length (all_bits ms)) (replicate k false))
  unfolding read_messages
  read_messages-padded ms n p k h small e few =
      let zeros : List Bool = replicate k false in
      let f = n * 8 - length ms in
      let len : length (all_bits ms ++ zeros) ≡ length (all_bits ms) + k =
        omega (arith, length-append (all_bits ms) zeros, length-replicate {A = Bool} k false) in
      ap (λ j. read_messages_loop io j n [] (holding p (all_bits ms ++ zeros)))
        (omega (arith, rounds_lem ms (suc f), length-le-all_bits ms, len))
      ∙ loop_messages ms (suc f) n p [] zeros h small e
      ∙ loop_end f n (p + length (all_bits ms)) ms zeros small
          (omega (arith, length-replicate {A = Bool} k false))
          (omega (arith, length-replicate {A = Bool} k false))
