-- ===== src/Net/Connectionless/Sends.antt =====
-- How many datagrams a connectionless packet can make the server send.
use quickplay_server.Base.{
  ℕ, ◌+◌, ◌≤◌, Bool, true, false, not, List, [], Option, none, some, Outcome, ok, err, panic, stuck,
  ◌==◌, length, length-append, arith, if◌then◌else◌, bytes, eq_bytes, drop,
}
use quickplay_server.Errors.{
  Error, no_connectionless_data, mismatched_server_challenge, unexpected_protocol_version,
  unexpected_authentication_protocol, unexpected_challenge, wrong_query_string,
  unhandled_connectionless_type,
}
use quickplay_server.Configuration.{Configuration}
use quickplay_server.Io.{BitIo}
use quickplay_server.Net.Packet.{get_range, get_from, from_le_bytes}
use quickplay_server.Net.Connectionless.{
  protocol_version, auth_protocol_hashedcdkey, a2s_info_query_string, Sending, ◌>>=◌, pure,
  get_challenge_for_address, send_to, reply, reject_connection, handle_a2s_get_challenge,
  accept_connection, answer_request, handle_c2s_connect, send_s2a_info_response,
  check_info_challenge, is_query_string, handle_a2s_info, process_command,
  process_connectionless_packet, no_connection, connection, reject,
}

-- At most `n` datagrams are sent.
record SendsUpTo {A : Type 0} (n : ℕ) (m : Sending A) : Type 0 where
  few : length m.1 ≤ n

failed-SendsUpTo : {A : Type 0} (r : Outcome Error A) → SendsUpTo {A = A} 1 (r, [])
failed-SendsUpTo r = record { few = omega arith }

bind-SendsUpTo :
    {A B : Type 0} (m : Sending A) (f : A → Sending B) (k n : ℕ)
    → SendsUpTo k m
    → ((a : A) → SendsUpTo n (f a))
    → SendsUpTo (k + n) (m >>= f)
bind-SendsUpTo (ok a, sent) f k n h hf =
    let more = (hf a).few in
    let sent_few = h.few in record { few = omega (arith, length-append sent (f a).1) }
bind-SendsUpTo (err e, sent) f k n h hf = let first = h.few in record { few = omega arith }
bind-SendsUpTo (panic, sent) f k n h hf = let first = h.few in record { few = omega arith }
bind-SendsUpTo (stuck, sent) f k n h hf = let first = h.few in record { few = omega arith }

if-SendsUpTo :
    {A : Type 0} (b : Bool) (x y : Sending A) (n : ℕ)
    → SendsUpTo n x
    → SendsUpTo n y
    → SendsUpTo n (if b then x else y)
if-SendsUpTo true x y n hx hy = hx
if-SendsUpTo false x y n hx hy = hy

-- A step that sends nothing, before one that sends at most `n`.
pure-SendsUpTo :
    {A B : Type 0} (r : Outcome Error A) (f : A → Sending B) (n : ℕ)
    → ((a : A) → SendsUpTo n (f a))
    → SendsUpTo n (pure r >>= f)
pure-SendsUpTo (ok a) f n h = record { few = (h a).few }
pure-SendsUpTo (err e) f n h = record { few = omega arith }
pure-SendsUpTo panic f n h = record { few = omega arith }
pure-SendsUpTo stuck f n h = record { few = omega arith }

-- A step that sends at most one datagram, before one that sends none.
last-SendsUpTo :
    {A B : Type 0} (m : Sending A) (f : A → Outcome Error B)
    → SendsUpTo 1 m
    → SendsUpTo 1 (m >>= λ a. pure (f a))
last-SendsUpTo m f h = bind-SendsUpTo m (λ a. pure (f a)) 1 0 h (λ _. record { few = omega arith })

module _ (io' : BitIo) (SocketAddr : Type 0) (hash : SocketAddr → ℕ)
    (reachable : SocketAddr → List ℕ → Bool) where
  open io' use {Reader, Writer, read_in, into_bytes}

  reply-SendsUpTo :
      (from : SocketAddr) (written : Outcome Error Writer)
      → SendsUpTo 1 (reply io' SocketAddr hash reachable from written)
  unfolding reply
  reply-SendsUpTo from written =
      pure-SendsUpTo written (λ w. send_to io' SocketAddr hash reachable from (into_bytes w)) 1
        (λ w.
          if-SendsUpTo (reachable from (into_bytes w)) _ _ 1 (record { few = omega arith })
            (failed-SendsUpTo _))

  reject-SendsUpTo :
      (from : SocketAddr) (challenge : ℕ) (message : List ℕ) (e : Error)
      → SendsUpTo 1 (reject io' SocketAddr hash reachable from challenge message e)
  unfolding reject_connection
  reject-SendsUpTo from challenge message e =
      last-SendsUpTo (reject_connection io' SocketAddr hash reachable from challenge message)
        (λ _. err e) (reply-SendsUpTo from _)

  handle_a2s_get_challenge-SendsUpTo :
      (from : SocketAddr) (r : Reader)
      → SendsUpTo 1 (handle_a2s_get_challenge io' SocketAddr hash reachable from r)
  unfolding handle_a2s_get_challenge
  handle_a2s_get_challenge-SendsUpTo from r =
      pure-SendsUpTo (read_in 32 r) _ 1 (λ _. reply-SendsUpTo from _)

  answer_request-SendsUpTo :
      (from : SocketAddr) (version auth_protocol server_challenge client_challenge : ℕ)
      → SendsUpTo 1 (
          answer_request io' SocketAddr hash reachable from version auth_protocol server_challenge
            client_challenge)
  unfolding answer_request accept_connection
  answer_request-SendsUpTo from version auth_protocol server_challenge client_challenge =
      let expected = get_challenge_for_address io' SocketAddr hash reachable from in
      let rejects = reject-SendsUpTo from client_challenge in
      let accepts =
        last-SendsUpTo (accept_connection io' SocketAddr hash reachable from client_challenge)
          (λ _. ok server_challenge) (reply-SendsUpTo from _) in
      if-SendsUpTo (not (server_challenge == expected)) _ _ 1
        (rejects (bytes "#GameUI_ServerRejectBadChallenge")
          (mismatched_server_challenge server_challenge expected))
        (if-SendsUpTo (not (version == protocol_version)) _ _ 1
          (rejects (bytes "Unexpected protocol version") (unexpected_protocol_version version))
          (if-SendsUpTo (not (auth_protocol == auth_protocol_hashedcdkey)) _ _ 1
            (rejects (bytes "unexpected authentication protocol")
              (unexpected_authentication_protocol auth_protocol))
            accepts))

  handle_c2s_connect-SendsUpTo :
      (from : SocketAddr) (r : Reader)
      → SendsUpTo 1 (handle_c2s_connect io' SocketAddr hash reachable from r)
  unfolding handle_c2s_connect
  handle_c2s_connect-SendsUpTo from r = pure-SendsUpTo (read_in 32 r) _ 1 λ (version, r1).
      pure-SendsUpTo (read_in 32 r1) _ 1 λ (auth_protocol, r2).
        pure-SendsUpTo (read_in 32 r2) _ 1 λ (server_challenge, r3).
          pure-SendsUpTo (read_in 32 r3) _ 1 λ (client_challenge, _).
            answer_request-SendsUpTo from version auth_protocol server_challenge client_challenge

  check_info_challenge-SendsUpTo :
      (from : SocketAddr) (c : Configuration) (challenge : Option (List ℕ))
      → SendsUpTo 1 (check_info_challenge io' SocketAddr hash reachable from c challenge)
  unfolding check_info_challenge send_s2a_info_response
  check_info_challenge-SendsUpTo from c none = failed-SendsUpTo _
  check_info_challenge-SendsUpTo from c (some challenge) =
      if-SendsUpTo
        (not
          (from_le_bytes challenge == get_challenge_for_address io' SocketAddr hash reachable from))
        _ _ 1 (failed-SendsUpTo (err unexpected_challenge)) (reply-SendsUpTo from _)

  handle_a2s_info-SendsUpTo :
      (from : SocketAddr) (query : List ℕ) (c : Configuration)
      → SendsUpTo 1 (handle_a2s_info io' SocketAddr hash reachable from query c)
  unfolding handle_a2s_info
  handle_a2s_info-SendsUpTo from query c =
      if-SendsUpTo (eq_bytes query a2s_info_query_string) _ _ 1 (reply-SendsUpTo from _) (
        if-SendsUpTo
          (not (
            is_query_string io' SocketAddr hash reachable
              (get_range query 0 (length a2s_info_query_string))))
          _ _ 1 (failed-SendsUpTo (err wrong_query_string))
          (check_info_challenge-SendsUpTo from c
            (get_range query (length a2s_info_query_string) (length a2s_info_query_string + 4))))

  no_connection-SendsUpTo :
      (m : Sending (Unit {0}))
      → SendsUpTo 1 m
      → SendsUpTo 1 (no_connection io' SocketAddr hash reachable m)
  no_connection-SendsUpTo m h = last-SendsUpTo m (λ _. ok none) h

  connection-SendsUpTo :
      (m : Sending ℕ) → SendsUpTo 1 m → SendsUpTo 1 (connection io' SocketAddr hash reachable m)
  connection-SendsUpTo m h = last-SendsUpTo m (λ challenge. ok (some challenge)) h

  process_command-SendsUpTo :
      (from : SocketAddr) (packet : List ℕ) (c : Configuration)
      → SendsUpTo 1 (process_command io' SocketAddr hash reachable from packet c)
  unfolding process_command
  process_command-SendsUpTo from packet c =
      pure-SendsUpTo (read_in 8 (io'.open_reader packet)) _ 1 λ (command, r).
        if-SendsUpTo (command == b'q') _ _ 1
          (no_connection-SendsUpTo _ (handle_a2s_get_challenge-SendsUpTo from r))
          (if-SendsUpTo (command == b'k') _ _ 1
            (connection-SendsUpTo _ (handle_c2s_connect-SendsUpTo from r))
            (if-SendsUpTo (command == b'T') _ _ 1
              (no_connection-SendsUpTo _ (handle_a2s_info-SendsUpTo from (drop 1 packet) c))
              (if-SendsUpTo (command == b'U') _ _ 1 (failed-SendsUpTo (ok none))
                (failed-SendsUpTo (err (unhandled_connectionless_type command))))))

  -- A connectionless packet makes the server send at most one datagram, whether or not it is
  -- handled without an error.
  pub process_connectionless_packet-sends_one :
      (from : SocketAddr) (packet : List ℕ) (c : Configuration)
      → length (process_connectionless_packet io' SocketAddr hash reachable from packet c).1 ≤ 1
  unfolding process_connectionless_packet
  process_connectionless_packet-sends_one from packet c =
      elim (get_from packet 4)
        as (λ o.
          length
            (elim o as (λ _. Sending (Option ℕ)) [
              | none ↦ (err no_connectionless_data, [])
              | some rest ↦ process_command io' SocketAddr hash reachable from rest c
            ]).1
          ≤ 1) [ none ↦ omega arith | some rest ↦ (process_command-SendsUpTo from rest c).few ]
