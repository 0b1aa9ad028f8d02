-- ===== src/Net/Message.antt =====
-- src/net/message.rs: the messages of a network channel. A `String` is the list of its bytes, and
-- `spawn_count`, an `i32`, the 32 bits that stand for it.
pub mod Reads
pub mod RoundTrip
use quickplay_server.Base.{
  ℕ, zero, suc, ◌+◌, List, [], ◌∷◌, ◌++◌, Outcome, ok, err, ◌>>=◌, ◌==◌, if◌then◌else◌,
}
use quickplay_server.Errors.{Error, unhandled_message_type, unhandled_message_for_write}
use quickplay_server.Io.{BitIo}
use quickplay_server.IoUtil.{read_string, write_string}

-- `NETMSG_TYPE_BITS` of netchannel.rs.
abbrev pub netmsg_type_bits : ℕ
netmsg_type_bits = 6

abbrev pub message_type_disconnect : ℕ
message_type_disconnect = 1

abbrev pub message_type_stringcmd : ℕ
message_type_stringcmd = 4

abbrev pub message_type_set_con_var : ℕ
message_type_set_con_var = 5

abbrev pub message_type_signon_state : ℕ
message_type_signon_state = 6

abbrev pub message_type_print : ℕ
message_type_print = 7

pub record MessageDisconnect : Type 0 where
  pub reason : List ℕ

pub record MessageStringCmd : Type 0 where
  pub command : List ℕ

pub record MessageSetConVars : Type 0 where
  pub convars : List (List ℕ × List ℕ)

pub record MessageSignonState : Type 0 where
  pub signon_state : ℕ
  pub spawn_count : ℕ

pub record MessagePrint : Type 0 where
  pub text : List ℕ

pub data Message : Type 0 where
  disconnect : MessageDisconnect → Message
  string_cmd : MessageStringCmd → Message
  set_con_vars : MessageSetConVars → Message
  signon_state : MessageSignonState → Message
  print : MessagePrint → Message

module _ (io : BitIo) where
  open io use {Reader, read_in, Writer, write_out}

  -- The loop over `0..num_vars`.
  unfoldable pub read_convars :
      ℕ → List (List ℕ × List ℕ) → Reader → Outcome Error (List (List ℕ × List ℕ) × Reader)
  read_convars zero convars r = ok (convars, r)
  read_convars (suc left) convars r = do
    (name, r') ← read_string io r 260
    (value, r'') ← read_string io r' 260
    read_convars left (convars ++ (name, value) ∷ []) r''

  read_disconnect : Reader → Outcome Error (Message × Reader)
  read_disconnect r = do
    (reason, r') ← read_string io r 1024
    ok (disconnect (record { reason = reason }), r')

  read_set_con_vars : Reader → Outcome Error (Message × Reader)
  read_set_con_vars r = do
    (num_vars, r') ← read_in 8 r
    (convars, r'') ← read_convars num_vars [] r'
    ok (set_con_vars (record { convars = convars }), r'')

  read_signon_state : Reader → Outcome Error (Message × Reader)
  read_signon_state r = do
    (state, r') ← read_in 8 r
    (count, r'') ← read_in 32 r'
    ok (signon_state (record { signon_state = state; spawn_count = count }), r'')

  read_print : Reader → Outcome Error (Message × Reader)
  read_print r = do (text, r') ← read_string io r 2048; ok (print (record { text = text }), r')

  unfoldable pub read : Reader → ℕ → Outcome Error (Message × Reader)
  unfolding read_disconnect read_set_con_vars read_signon_state read_print
  read r message_type =
      if message_type == message_type_disconnect
      then read_disconnect r
      else if message_type == message_type_set_con_var
      then read_set_con_vars r
      else if message_type == message_type_signon_state
      then read_signon_state r
      else if message_type == message_type_print
      then read_print r
      else err (unhandled_message_type message_type)

  unfoldable pub write : Message → Writer → Outcome Error Writer
  write (string_cmd message) w = do
    w' ← write_out netmsg_type_bits message_type_stringcmd w
    write_string io message.command w'
  write (print message) w = do
    w' ← write_out netmsg_type_bits message_type_print w
    write_string io message.text w'
  write (disconnect message) w = do
    w' ← write_out netmsg_type_bits message_type_disconnect w
    write_string io message.reason w'
  write (set_con_vars message) w = err unhandled_message_for_write
  write (signon_state message) w = err unhandled_message_for_write
