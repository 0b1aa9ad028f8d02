-- ===== src/Server/Effects.antt =====
-- What a datagram does to the server: one of three things.
use quickplay_server.Base.{
  ℕ, ◌≡◌, refl, inl, inr, Bool, true, List, Option, none, some, Outcome, ok, err, panic, stuck,
  get_elem?, set, Option-cases, Bool-cases, map_err,
}
use quickplay_server.Errors.{Error, decoder}
use quickplay_server.Io.{BitIo}
use quickplay_server.Net.Packet.{Packet, connectionless, regular, get_from, decode_raw_packet}
use quickplay_server.Net.Connectionless.{process_connectionless_packet}
use quickplay_server.Net.Connectionless.Connects.{
  IsConnect, process_connectionless_packet-IsConnect,
}
use quickplay_server.Server.Table.{
  Task, Server, get_connection, create_connection, push_packet, send_packet, handle_regular,
  finish_handshake, handle_decoded, handle_datagram,
}

module _ {SocketAddr : Type 0} (same_addr : Discrete SocketAddr) (io : BitIo)
    (hash : SocketAddr → ℕ) (reachable : SocketAddr → List ℕ → Bool) where
  -- The server `u` after a datagram that is decoded as `decoded`, from `from`.
  pub data Effect (from : SocketAddr) (decoded : Outcome Error Packet) (s u : Server SocketAddr)
      : Type 0 where
    dropped : u ≡ s → Effect from decoded s u
    delivered :
        (packet : List ℕ) (i : ℕ) (t : Task SocketAddr)
        → decoded ≡ ok (regular packet)
        → get_connection same_addr from s.connections ≡ some i
        → get_elem? s.tasks i ≡ some t
        → t.connection.is_running ≡ true
        → u ≡ record s {
          tasks = set s.tasks i (record t { connection = push_packet packet t.connection });
        }
        → Effect from decoded s u
    created :
        (packet rest : List ℕ) (challenge : ℕ)
        → decoded ≡ ok (connectionless packet)
        → get_from packet 4 ≡ some rest
        → IsConnect io SocketAddr hash reachable from rest challenge
        → u ≡ create_connection same_addr from challenge s
        → Effect from decoded s u

  send_packet-Effect :
      (from : SocketAddr) (packet : List ℕ) (s : Server SocketAddr) (i : ℕ)
      → get_connection same_addr from s.connections ≡ some i
      → (o : Option (Task SocketAddr)) → get_elem? s.tasks i ≡ o
      → Effect from (ok (regular packet)) s (send_packet same_addr i packet o s).1
  unfolding send_packet
  send_packet-Effect from packet s i known none found = dropped refl
  send_packet-Effect from packet s i known (some t) found =
      elim (Bool-cases t.connection.is_running) [
        | inl running ↦ rw running (delivered packet i t refl known found running (rw running refl))
        | inr ended ↦ rw ended (dropped refl)
      ]

  handle_regular-Effect :
      (from : SocketAddr) (packet : List ℕ) (s : Server SocketAddr)
      → Effect from (ok (regular packet)) s (handle_regular same_addr from packet s).1
  unfolding handle_regular
  handle_regular-Effect from packet s =
      elim (Option-cases (get_connection same_addr from s.connections)) [
        | inl unknown ↦ rw (handle_regular, unknown) (dropped refl)
        | inr (i, known) ↦
            rw (handle_regular, known) (send_packet-Effect from packet s i known _ refl)
      ]

  finish_handshake-Effect :
      (from : SocketAddr) (packet : List ℕ) (result : Outcome Error (Option ℕ))
      (s : Server SocketAddr)
      → ((challenge : ℕ)
          → result ≡ ok (some challenge)
          → (rest : List ℕ) × (get_from packet 4 ≡ some rest)
            × IsConnect io SocketAddr hash reachable from rest challenge)
      → Effect from (ok (connectionless packet)) s (finish_handshake same_addr from result s).1
  unfolding finish_handshake
  finish_handshake-Effect from packet (ok (some challenge)) s connects =
      let (rest, long, request) = connects challenge refl in
      created packet rest challenge refl long request refl
  finish_handshake-Effect from packet (ok none) s connects = dropped refl
  finish_handshake-Effect from packet (err e) s connects = dropped refl
  finish_handshake-Effect from packet panic s connects = dropped refl
  finish_handshake-Effect from packet stuck s connects = dropped refl

  handle_decoded-Effect :
      (decompress_vec : List ℕ → Option (List ℕ)) (from : SocketAddr)
      (decoded : Outcome Error Packet) (s : Server SocketAddr)
      → Effect from decoded s
          (handle_decoded same_addr io hash reachable decompress_vec from decoded s).0.1
  handle_decoded-Effect decompress_vec from (ok (connectionless packet)) s =
      finish_handshake-Effect from packet
        (process_connectionless_packet io SocketAddr hash reachable from packet s.configuration).0 s
        (process_connectionless_packet-IsConnect io SocketAddr hash reachable from packet
          s.configuration)
  handle_decoded-Effect decompress_vec from (ok (regular packet)) s =
      handle_regular-Effect from packet s
  handle_decoded-Effect decompress_vec from (err e) s = dropped refl
  handle_decoded-Effect decompress_vec from panic s = dropped refl
  handle_decoded-Effect decompress_vec from stuck s = dropped refl

  -- A datagram leaves the server as it is; or it is a regular packet, and is appended to what waits
  -- for the running connection that the map has for its sender; or it is a connection request with
  -- the challenge of its sender's address and the versions of the server, and makes a connection
  -- with this challenge.
  pub handle_datagram-Effect :
      (decompress_vec : List ℕ → Option (List ℕ)) (from : SocketAddr) (packet_data : List ℕ)
      (s : Server SocketAddr)
      → Effect from
          (map_err decoder (decode_raw_packet decompress_vec packet_data))
          s
          (handle_datagram same_addr io hash reachable decompress_vec from packet_data s).0.1
  unfolding handle_datagram
  handle_datagram-Effect decompress_vec from packet_data s =
      handle_decoded-Effect decompress_vec from _ s
