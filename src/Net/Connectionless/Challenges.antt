-- ===== src/Net/Connectionless/Challenges.antt =====
-- What it takes to get a connection, or an answer to a query.
use quickplay_server.Base.{
  ℕ, ◌+◌, Bool, true, ◌≡◌, ◌⊎◌, inl, inr, refl, sym, ap, ◌∙◌, List, Option, none, some, ok,
  ok-injective, err, panic, stuck, ◌==◌, length, Bool-cases, arith, eq_bytes, eq_bytes→eq,
}
use quickplay_server.Errors.{Error}
use quickplay_server.Configuration.{Configuration}
use quickplay_server.Io.{BitIo}
use quickplay_server.Net.Packet.{get_range, from_le_bytes}
use quickplay_server.Net.Connectionless.{
  protocol_version, auth_protocol_hashedcdkey, a2s_info_query_string, Sending, ◌>>=◌, pure,
  get_challenge_for_address, reject_connection, accept_connection, answer_request,
  handle_c2s_connect, check_info_challenge, is_query_string, handle_a2s_info, reject,
}

err-ok : {A : Type 0} {e : Error} {a : A} → err e ≡ ok a → ⊥
err-ok h = cc h

==→eq : (a b : ℕ) → (a == b) ≡ true → a ≡ b
==→eq a b h = ground arith

-- What succeeded went on from a success.
pub bind_ok :
    {A B : Type 0} (m : Sending A) (f : A → Sending B) {b : B}
    → (m >>= f).0 ≡ ok b
    → (a : A) × (m.0 ≡ ok a) × ((f a).0 ≡ ok b)
bind_ok (ok a, sent) f h = (a, refl, h)
bind_ok (err e, sent) f h = cc h
bind_ok (panic, sent) f h = cc h
bind_ok (stuck, sent) f h = cc h

module _ (io' : BitIo) (SocketAddr : Type 0) (hash : SocketAddr → ℕ)
    (reachable : SocketAddr → List ℕ → Bool) where
  open io' use {Reader, Writer, read_in, into_bytes}

  -- The four numbers of a connection request.
  abbrev pub IsRequest : Reader → ℕ → ℕ → ℕ → Type 0
  IsRequest r version auth_protocol server_challenge =
      (r1 : Reader) × (r2 : Reader) × (r3 : Reader) × (read_in 32 r ≡ ok (version, r1))
      × (read_in 32 r1 ≡ ok (auth_protocol, r2))
      × (read_in 32 r2 ≡ ok (server_challenge, r3))

  reject-fails :
      (from : SocketAddr) (client_challenge : ℕ) (message : List ℕ) (e : Error) (n : ℕ)
      → (reject io' SocketAddr hash reachable from client_challenge message e).0 ≡ ok n
      → ⊥
  reject-fails from client_challenge message e n h =
      let (_, _, fails) =
        bind_ok (reject_connection io' SocketAddr hash reachable from client_challenge message)
          (λ _. pure (err e)) h in
      err-ok fails

  answer_request_ok :
      (from : SocketAddr) (version auth_protocol server_challenge client_challenge n : ℕ)
      → (answer_request io' SocketAddr hash reachable from version auth_protocol server_challenge
          client_challenge).0
        ≡ ok n
      → (server_challenge ≡ get_challenge_for_address io' SocketAddr hash reachable from)
        × (version ≡ protocol_version)
        × (auth_protocol ≡ auth_protocol_hashedcdkey)
        × (n ≡ server_challenge)
  unfolding answer_request
  answer_request_ok from version auth_protocol server_challenge client_challenge n h =
      let expected = get_challenge_for_address io' SocketAddr hash reachable from in
      elim (Bool-cases (server_challenge == expected)) [
        | inr wrong ↦ absurd (reject-fails from client_challenge _ _ n (rw wrong at h))
        | inl right ↦ elim (Bool-cases (version == protocol_version)) [
          | inr wrong ↦ absurd (reject-fails from client_challenge _ _ n (rw (right, wrong) at h))
          | inl same ↦ elim (Bool-cases (auth_protocol == auth_protocol_hashedcdkey)) [
            | inr wrong ↦
                absurd (reject-fails from client_challenge _ _ n (rw (right, same, wrong) at h))
            | inl known ↦
                let (_, _, done) =
                  bind_ok (accept_connection io' SocketAddr hash reachable from client_challenge)
                    (λ _. pure (ok server_challenge)) (rw (right, same, known) at h) in
                (
                  ==→eq server_challenge expected right,
                  ==→eq version protocol_version same,
                  ==→eq auth_protocol auth_protocol_hashedcdkey known,
                  sym (ok-injective done),
                )
          ]
        ]
      ]

  -- A connection request succeeds only with the challenge that belongs to the sender's address,
  -- which it returns, and with the protocol version and the authentication protocol of the server.
  pub handle_c2s_connect-IsRequest :
      (from : SocketAddr) (r : Reader) (challenge : ℕ)
      → (handle_c2s_connect io' SocketAddr hash reachable from r).0 ≡ ok challenge
      → (challenge ≡ get_challenge_for_address io' SocketAddr hash reachable from)
        × IsRequest r protocol_version auth_protocol_hashedcdkey challenge
  unfolding handle_c2s_connect
  handle_c2s_connect-IsRequest from r challenge h =
      let ((version, r1), e1, h1) = bind_ok (pure (read_in 32 r)) _ h in
      let ((auth_protocol, r2), e2, h2) = bind_ok (pure (read_in 32 r1)) _ h1 in
      let ((server_challenge, r3), e3, h3) = bind_ok (pure (read_in 32 r2)) _ h2 in
      let ((client_challenge, r4), e4, h4) = bind_ok (pure (read_in 32 r3)) _ h3 in
      let (right, v, a, same) =
        answer_request_ok from version auth_protocol server_challenge client_challenge challenge
          h4 in
      (
        same ∙ right,
        (
          r1,
          r2,
          r3,
          e1 ∙ ap (λ x. ok (x, r1)) v,
          e2 ∙ ap (λ x. ok (x, r2)) a,
          e3 ∙ ap (λ x. ok (x, r3)) (sym same),
        ),
      )

  is_query_string-eq :
      (o : Option (List ℕ))
      → is_query_string io' SocketAddr hash reachable o ≡ true
      → o ≡ some a2s_info_query_string
  is_query_string-eq none h = cc h
  is_query_string-eq (some s) h = ap some (eq_bytes→eq s a2s_info_query_string h)

  check_info_challenge_ok :
      (from : SocketAddr) (c : Configuration) (o : Option (List ℕ))
      → (check_info_challenge io' SocketAddr hash reachable from c o).0 ≡ ok tt
      → (challenge : List ℕ) × (o ≡ some challenge)
        × (from_le_bytes challenge ≡ get_challenge_for_address io' SocketAddr hash reachable from)
  unfolding check_info_challenge
  check_info_challenge_ok from c none h = absurd (err-ok h)
  check_info_challenge_ok from c (some challenge) h =
      let expected = get_challenge_for_address io' SocketAddr hash reachable from in
      elim (Bool-cases (from_le_bytes challenge == expected)) [
        | inl right ↦ (challenge, refl, ==→eq (from_le_bytes challenge) expected right)
        | inr wrong ↦ absurd (err-ok (rw wrong at h))
      ]

  -- A server query that is handled without an error is the bare query string, or begins with the
  -- query string and has the challenge of the sender's address after it, least byte first.
  pub handle_a2s_info-challenge :
      (from : SocketAddr) (query : List ℕ) (c : Configuration)
      → (handle_a2s_info io' SocketAddr hash reachable from query c).0 ≡ ok tt
      → (query ≡ a2s_info_query_string)
        ⊎ ((challenge : List ℕ) × (get_range query 0 (length a2s_info_query_string)
              ≡ some a2s_info_query_string)
            × (get_range query (length a2s_info_query_string) (length a2s_info_query_string + 4)
                ≡ some challenge)
            × (from_le_bytes challenge
                ≡ get_challenge_for_address io' SocketAddr hash reachable from))
  unfolding handle_a2s_info
  handle_a2s_info-challenge from query c h =
      let n = length a2s_info_query_string in
      elim (Bool-cases (eq_bytes query a2s_info_query_string)) [
        | inl bare ↦ inl (eq_bytes→eq query a2s_info_query_string bare)
        | inr more ↦
            let known = is_query_string io' SocketAddr hash reachable (get_range query 0 n) in
            elim (Bool-cases known) [
              | inl right ↦
                  let (challenge, present, same) =
                    check_info_challenge_ok from c (get_range query n (n + 4))
                      (rw (more, right) at h) in
                  inr (challenge, is_query_string-eq (get_range query 0 n) right, present, same)
              | inr wrong ↦ absurd (err-ok (rw (more, wrong) at h))
            ]
      ]
