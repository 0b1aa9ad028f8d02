-- ===== src/Net/Connectionless/Connects.antt =====
-- Which connectionless packets make a connection.
use quickplay_server.Base.{
  ℕ, ◌≡◌, inl, inr, ap, ◌∙◌, Bool, List, none, some, ok, err, ◌==◌, Bool-cases, ==_iff,
  ok-injective, some-injective, if◌then◌else◌, drop, Option-cases,
}
use quickplay_server.Errors.{unhandled_connectionless_type}
use quickplay_server.Configuration.{Configuration}
use quickplay_server.Io.{BitIo}
use quickplay_server.Net.Packet.{get_from}
use quickplay_server.Net.Connectionless.{
  protocol_version, auth_protocol_hashedcdkey, Sending, pure, get_challenge_for_address,
  handle_a2s_get_challenge, handle_c2s_connect, handle_a2s_info, process_command,
  process_connectionless_packet, no_connection, connection,
}
use quickplay_server.Net.Connectionless.Challenges.{
  bind_ok, IsRequest, handle_c2s_connect-IsRequest,
}

module _ (io' : BitIo) (SocketAddr : Type 0) (hash : SocketAddr → ℕ)
    (reachable : SocketAddr → List ℕ → Bool) where
  open io' use {Reader, open_reader, read_in}

  -- A handler that makes no connection makes none.
  no_connection-none :
      (m : Sending (Unit {0})) (n : ℕ)
      → (no_connection io' SocketAddr hash reachable m).0 ≡ ok (some n)
      → ⊥
  no_connection-none m n h =
      let (_, _, e) = bind_ok m (λ _. pure (ok none)) h in cc (ok-injective e)

  connection-ok :
      (m : Sending ℕ) (n : ℕ)
      → (connection io' SocketAddr hash reachable m).0 ≡ ok (some n)
      → m.0 ≡ ok n
  connection-ok m n h =
      let (k, made, e) = bind_ok m (λ challenge. pure (ok (some challenge))) h in
      made ∙ ap ok (some-injective (ok-injective e))

  -- The packet is a connection request with the challenge of the sender's address.
  abbrev pub IsConnect : SocketAddr → List ℕ → ℕ → Type 0
  IsConnect from packet challenge =
      (challenge ≡ get_challenge_for_address io' SocketAddr hash reachable from)
      × (r : Reader) × (read_in 8 (open_reader packet) ≡ ok (b'k', r))
      × IsRequest io' SocketAddr hash reachable r protocol_version auth_protocol_hashedcdkey
          challenge

  answer_command :
      (from : SocketAddr) (packet : List ℕ) (c : Configuration) (challenge command : ℕ) (r : Reader)
      → read_in 8 (open_reader packet) ≡ ok (command, r)
      → (if command == b'q'
          then no_connection io' SocketAddr hash reachable
              (handle_a2s_get_challenge io' SocketAddr hash reachable from r)
          else if command == b'k'
          then connection io' SocketAddr hash reachable
              (handle_c2s_connect io' SocketAddr hash reachable from r)
          else if command == b'T'
          then no_connection io' SocketAddr hash reachable
              (handle_a2s_info io' SocketAddr hash reachable from (drop 1 packet) c)
          else if command == b'U'
          then pure (ok none)
          else pure (err (unhandled_connectionless_type command))).0
        ≡ ok (some challenge)
      → IsConnect from packet challenge
  answer_command from packet c challenge command r e h = elim (Bool-cases (command == b'q')) [
    | inl is_q ↦ absurd (no_connection-none _ challenge (rw is_q at h))
    | inr not_q ↦ elim (Bool-cases (command == b'k')) [
      | inl is_k ↦
          let made = connection-ok _ challenge (rw (not_q, is_k) at h) in
          let (right, request) =
            handle_c2s_connect-IsRequest io' SocketAddr hash reachable from r challenge made in
          (right, r, e ∙ ap (λ b. ok (b, r)) ((==_iff command b'k').0 is_k), request)
      | inr not_k ↦ elim (Bool-cases (command == b'T')) [
        | inl is_t ↦ absurd (no_connection-none _ challenge (rw (not_q, not_k, is_t) at h))
        | inr not_t ↦ elim (Bool-cases (command == b'U')) [
          | inl is_u ↦ cc (ok-injective (rw (not_q, not_k, not_t, is_u) at h))
          | inr not_u ↦ cc (rw (not_q, not_k, not_t, not_u) at h)
        ]
      ]
    ]
  ]

  process_command-IsConnect :
      (from : SocketAddr) (packet : List ℕ) (c : Configuration) (challenge : ℕ)
      → (process_command io' SocketAddr hash reachable from packet c).0 ≡ ok (some challenge)
      → IsConnect from packet challenge
  unfolding process_command
  process_command-IsConnect from packet c challenge h =
      let ((command, r), e, h') = bind_ok (pure (read_in 8 (open_reader packet))) _ h in
      answer_command from packet c challenge command r e h'

  -- A connectionless packet makes a connection only if it is, after its first four bytes, a
  -- connection request with the challenge that belongs to the sender's address, with the protocol
  -- version and the authentication protocol of the server; the connection has that challenge.
  pub process_connectionless_packet-IsConnect :
      (from : SocketAddr) (packet : List ℕ) (c : Configuration) (challenge : ℕ)
      → (process_connectionless_packet io' SocketAddr hash reachable from packet c).0
        ≡ ok (some challenge)
      → (rest : List ℕ) × (get_from packet 4 ≡ some rest) × IsConnect from rest challenge
  unfolding process_connectionless_packet
  process_connectionless_packet-IsConnect from packet c challenge h =
      elim (Option-cases (get_from packet 4)) [
        | inl short ↦ cc (rw (process_connectionless_packet, short) at h)
        | inr (rest, e) ↦ (
          rest,
          e,
          process_command-IsConnect from rest c challenge
              (rw (process_connectionless_packet, e) at h),
        )
      ]
