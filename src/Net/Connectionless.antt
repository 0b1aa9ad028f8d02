-- ===== src/Net/Connectionless.antt =====
-- src/net/connectionless.rs: queries and the handshake, before there is a channel.
pub mod Sends
pub mod Challenges
pub mod Connects
use quickplay_server.Base.{
  ℕ, zero, suc, ◌+◌, ◌*◌, ◌^◌, Bool, true, false, not, List, [], ◌∷◌, ◌++◌, Option, none, some,
  Outcome, ok, err, panic, stuck, ltb, ◌==◌, if◌then◌else◌, u32, bytes, eq_bytes, drop, length,
}
use quickplay_server.Errors.{
  Error, io, mismatched_server_challenge, unexpected_protocol_version,
  unexpected_authentication_protocol, wrong_query_string, no_challenge_value, unexpected_challenge,
  no_connectionless_data, unhandled_connectionless_type,
}
use quickplay_server.Configuration.{Configuration}
use quickplay_server.Io.{BitIo}
use quickplay_server.IoUtil.{write_string}
use quickplay_server.Net.Packet.{connectionless_header, get_range, get_from, from_le_bytes}

abbrev pub protocol_version : ℕ
protocol_version = 24

abbrev pub auth_protocol_hashedcdkey : ℕ
auth_protocol_hashedcdkey = 2

abbrev pub a2s_info_query_string : List ℕ
a2s_info_query_string = bytes "Source Engine Query" ++ 0 ∷ []

-- What a handler sends, in order, and how it ends.
abbrev pub Sending : Type 0 → Type 0
Sending A = Outcome Error A × List (List ℕ)

abbrev pub after : {B : Type 0} → List (List ℕ) → Sending B → Sending B
after sent (r, more) = (r, sent ++ more)

abbrev pub and_then : {A B : Type 0} → Outcome Error A → List (List ℕ) → (A → Sending B) → Sending B
and_then (ok a) sent f = after sent (f a)
and_then (err e) sent f = (err e, sent)
and_then panic sent f = (panic, sent)
and_then stuck sent f = (stuck, sent)

infixl 5 ◌>>=◌ ◌>>◌
abbrev pub ◌>>=◌ : {A B : Type 0} → Sending A → (A → Sending B) → Sending B
m >>= f = and_then m.0 m.1 f

abbrev pub ◌>>◌ : {A B : Type 0} → Sending A → Sending B → Sending B
m >> k = m >>= λ _. k

abbrev pub pure : {A : Type 0} → Outcome Error A → Sending A
pure r = (r, [])

-- `hash` is the standard library's hasher on the address of the client, and `reachable` tells
-- whether the socket takes a datagram for that address; all datagrams of a call go there.
module _ (io' : BitIo) (SocketAddr : Type 0) (hash : SocketAddr → ℕ)
    (reachable : SocketAddr → List ℕ → Bool) where
  open io' use {Reader, open_reader, read_in, Writer, new_writer, write_out, into_bytes}

  unfoldable pub get_challenge_for_address : SocketAddr → ℕ
  get_challenge_for_address addr = u32 (hash addr)

  -- `socket.send_to`.
  unfoldable pub send_to : SocketAddr → List ℕ → Sending (Unit {0})
  send_to from packet = if reachable from packet then (ok tt, packet ∷ []) else (err io, [])

  -- A reply is written, and sent.
  unfoldable pub reply : SocketAddr → Outcome Error Writer → Sending (Unit {0})
  unfolding send_to
  reply from written = do w ← pure written; send_to from (into_bytes w)

  -- One field after another.
  abbrev pub field : ℕ → ℕ → Outcome Error Writer → Outcome Error Writer
  field n v (ok w) = write_out n v w
  field n v (err e) = err e
  field n v panic = panic
  field n v stuck = stuck

  abbrev pub string : List ℕ → Outcome Error Writer → Outcome Error Writer
  string s (ok w) = write_string io' s w
  string s (err e) = err e
  string s panic = panic
  string s stuck = stuck

  unfoldable pub reject_connection : SocketAddr → ℕ → List ℕ → Sending (Unit {0})
  unfolding reply
  reject_connection from client_challenge message = reply from (
      string message
        (field 32 client_challenge (field 8 b'9' (field 32 connectionless_header (ok new_writer)))))

  unfoldable pub handle_a2s_get_challenge : SocketAddr → Reader → Sending (Unit {0})
  unfolding reply get_challenge_for_address
  handle_a2s_get_challenge from r = do
    (client_challenge, _) ← pure (read_in 32 r)
    reply from (
        field 32 auth_protocol_hashedcdkey (
          field 32 client_challenge (
            field 32 (get_challenge_for_address from) (
              field 32 0x5a4f_4933
                (field 8 b'A' (field 32 connectionless_header (ok new_writer)))))))

  -- The client is told to switch over to a channel.
  unfoldable pub accept_connection : SocketAddr → ℕ → Sending (Unit {0})
  unfolding reply
  accept_connection from client_challenge = reply from (
      string (bytes "0000000000")
        (field 32 client_challenge (field 8 b'B' (field 32 connectionless_header (ok new_writer)))))

  -- A rejection is sent, and then the call fails.
  abbrev pub reject : SocketAddr → ℕ → List ℕ → Error → Sending ℕ
  reject from client_challenge message e = do
    reject_connection from client_challenge message
    pure (err e)

  -- The checks of the request, and the answer.
  unfoldable pub answer_request : SocketAddr → ℕ → ℕ → ℕ → ℕ → Sending ℕ
  unfolding reject_connection accept_connection get_challenge_for_address
  answer_request from version auth_protocol server_challenge client_challenge =
      let expected = get_challenge_for_address from in
      let accept = accept_connection from client_challenge >> pure (ok server_challenge) in
      if not (server_challenge == expected)
      then reject from client_challenge (bytes "#GameUI_ServerRejectBadChallenge")
          (mismatched_server_challenge server_challenge expected)
      else if not (version == protocol_version)
      then reject from client_challenge (bytes "Unexpected protocol version")
          (unexpected_protocol_version version)
      else if not (auth_protocol == auth_protocol_hashedcdkey)
      then reject from client_challenge (bytes "unexpected authentication protocol")
          (unexpected_authentication_protocol auth_protocol)
      else accept

  unfoldable pub handle_c2s_connect : SocketAddr → Reader → Sending ℕ
  unfolding answer_request
  handle_c2s_connect from r = do
    (version, r1) ← pure (read_in 32 r)
    (auth_protocol, r2) ← pure (read_in 32 r1)
    (server_challenge, r3) ← pure (read_in 32 r2)
    (client_challenge, _) ← pure (read_in 32 r3)
    answer_request from version auth_protocol server_challenge client_challenge

  unfoldable pub send_s2a_info_response : SocketAddr → Configuration → Sending (Unit {0})
  unfolding reply
  send_s2a_info_response from c =
      let names = string c.server.app_desc (
        string (bytes "") (
          string (bytes "") (
            string c.server.server_name (
              field 8 protocol_version
                (field 8 b'I' (field 32 connectionless_header (ok new_writer))))))) in
      reply from (
        string c.server.app_version (
          field 8 0 (
            field 8 0 (
              field 8 b'l' (
                field 8 b'p'
                  (field 8 0 (field 8 0 (field 8 0 (field 16 c.server.app_id names)))))))))

  -- The part after the query string is a challenge that has been sent to the client.
  unfoldable pub check_info_challenge :
      SocketAddr → Configuration → Option (List ℕ) → Sending (Unit {0})
  unfolding send_s2a_info_response get_challenge_for_address
  check_info_challenge from c none = (err no_challenge_value, [])
  check_info_challenge from c (some challenge) =
      if not (from_le_bytes challenge == get_challenge_for_address from)
      then (err unexpected_challenge, [])
      else send_s2a_info_response from c

  abbrev pub is_query_string : Option (List ℕ) → Bool
  is_query_string none = false
  is_query_string (some s) = eq_bytes s a2s_info_query_string

  unfoldable pub handle_a2s_info : SocketAddr → List ℕ → Configuration → Sending (Unit {0})
  unfolding check_info_challenge reply get_challenge_for_address
  handle_a2s_info from query c =
      let n = length a2s_info_query_string in
      let offer = reply from (
        field 32 (get_challenge_for_address from)
          (field 8 b'A' (field 32 connectionless_header (ok new_writer)))) in
      if eq_bytes query a2s_info_query_string
      then offer
      else if not (is_query_string (get_range query 0 n))
      then (err wrong_query_string, [])
      else check_info_challenge from c (get_range query n (n + 4))

  -- A handler that makes no connection.
  abbrev pub no_connection : Sending (Unit {0}) → Sending (Option ℕ)
  no_connection m = do m; pure (ok none)

  abbrev pub connection : Sending ℕ → Sending (Option ℕ)
  connection m = do challenge ← m; pure (ok (some challenge))

  unfoldable pub process_command : SocketAddr → List ℕ → Configuration → Sending (Option ℕ)
  unfolding handle_a2s_get_challenge handle_c2s_connect handle_a2s_info
  process_command from packet c = do
    (command, r) ← pure (read_in 8 (open_reader packet))
    if command == b'q'
        then no_connection (handle_a2s_get_challenge from r)
        else if command == b'k'
        then connection (handle_c2s_connect from r)
        else if command == b'T'
        then no_connection (handle_a2s_info from (drop 1 packet) c)
        else if command == b'U'
        then pure (ok none)
        else pure (err (unhandled_connectionless_type command))

  unfoldable pub process_connectionless_packet :
      SocketAddr → List ℕ → Configuration → Sending (Option ℕ)
  unfolding process_command
  process_connectionless_packet from packet c = elim (get_from packet 4) [
    | none ↦ (err no_connectionless_data, [])
    | some rest ↦ process_command from rest c
  ]
