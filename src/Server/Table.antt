-- ===== src/Server/Table.antt =====
-- `Server` of src/main.rs: what the server does with a datagram, and the tasks that it starts.
use quickplay_server.Base.{
  ℕ, Bool, List, [], ◌∷◌, ◌++◌, Option, none, some, Outcome, ok, err, panic, stuck, length,
  get_elem?, set, if◌then◌else◌, map_err,
}
use quickplay_server.Errors.{Error, decoder, connection_closed}
use quickplay_server.Configuration.{Configuration}
use quickplay_server.Io.{BitIo}
use quickplay_server.Net.Packet.{Packet, connectionless, regular, decode_raw_packet}
use quickplay_server.Net.Connectionless.{process_connectionless_packet}
use quickplay_server.Net.NetChannel.State.{new}
use quickplay_server.Server.Connection.{Connection, new_connection}

-- Where the task `remove_dead_connection` of a connection is: it waits in its `select!`, or it goes
-- on to the map, or it has removed the entry and is done.
pub data Stage : Type 0 where
  waiting leaving removed : Stage

-- A connection with its task `remove_dead_connection`.
pub record Task (SocketAddr : Type 0) : Type 0 where
  pub connection : Connection SocketAddr
  pub stage : Stage

-- The connections that were ever made, in their order; `connections` is the map of the server,
-- from an address to the number of a connection.
pub record Server (SocketAddr : Type 0) : Type 0 where
  pub connections : List (SocketAddr × ℕ)
  pub tasks : List (Task SocketAddr)
  pub configuration : Configuration

unfoldable pub new_server : {SocketAddr : Type 0} → Configuration → Server SocketAddr
new_server configuration = record { connections = []; tasks = []; configuration = configuration }

-- The sender of a connection's packets.
abbrev pub push_packet :
    {SocketAddr : Type 0} → List ℕ → Connection SocketAddr → Connection SocketAddr
push_packet packet c = record c { packet_receiver = c.packet_receiver ++ packet ∷ [] }

-- `==` on addresses is that of the standard library.
module _ {SocketAddr : Type 0} (same_addr : Discrete SocketAddr) where
  -- `HashMap::get`.
  unfoldable pub get_connection : SocketAddr → List (SocketAddr × ℕ) → Option ℕ
  get_connection a [] = none
  get_connection a ((b, i) ∷ rest) = elim (same_addr a b) [
    | yes _ ↦ some i
    | no _ ↦ get_connection a rest
  ]

  -- `HashMap::remove`.
  unfoldable pub remove_connection : SocketAddr → List (SocketAddr × ℕ) → List (SocketAddr × ℕ)
  remove_connection a [] = []
  remove_connection a ((b, i) ∷ rest) = elim (same_addr a b) [
    | yes _ ↦ remove_connection a rest
    | no _ ↦ (b, i) ∷ remove_connection a rest
  ]

  -- `HashMap::insert`, which replaces the entry of the address.
  unfoldable pub insert_connection : SocketAddr → ℕ → List (SocketAddr × ℕ) → List (SocketAddr × ℕ)
  unfolding remove_connection
  insert_connection a i entries = (a, i) ∷ remove_connection a entries

  -- `create_connection`: the two tasks are started, and the map refers to them.
  unfoldable pub create_connection : SocketAddr → ℕ → Server SocketAddr → Server SocketAddr
  unfolding insert_connection
  create_connection from challenge s =
      let c = new_connection from (new challenge s.configuration) s.configuration in
      record s {
        connections = insert_connection from (length s.tasks) s.connections;
        tasks = s.tasks ++ record { connection = c; stage = waiting } ∷ [];
      }

  -- The sender of connection `i`: it fails where the task has ended, and with it the receiver.
  unfoldable pub send_packet :
      ℕ
      → List ℕ
      → Option (Task SocketAddr)
      → Server SocketAddr
      → Outcome Error (Unit {0}) × Server SocketAddr
  send_packet i packet none s = (panic, s)
  send_packet i packet (some t) s =
      if t.connection.is_running
      then (
        ok tt,
        record s {
          tasks = set s.tasks i (record t { connection = push_packet packet t.connection });
        },
      )
      else (err connection_closed, s)

  -- A packet without a connection is dropped.
  unfoldable pub handle_regular :
      SocketAddr → List ℕ → Server SocketAddr → Outcome Error (Unit {0}) × Server SocketAddr
  unfolding send_packet
  handle_regular from packet s = elim (get_connection from s.connections) [
    | none ↦ (ok tt, s)
    | some i ↦ send_packet i packet (get_elem? s.tasks i) s
  ]

  -- A finished handshake makes a connection.
  unfoldable pub finish_handshake :
      SocketAddr
      → Outcome Error (Option ℕ)
      → Server SocketAddr
      → Outcome Error (Unit {0}) × Server SocketAddr
  unfolding create_connection
  finish_handshake from (ok (some challenge)) s = (ok tt, create_connection from challenge s)
  finish_handshake from (ok none) s = (ok tt, s)
  finish_handshake from (err e) s = (err e, s)
  finish_handshake from panic s = (panic, s)
  finish_handshake from stuck s = (stuck, s)

  module _ (io : BitIo) (hash : SocketAddr → ℕ) (reachable : SocketAddr → List ℕ → Bool)
      (decompress_vec : List ℕ → Option (List ℕ)) where
    -- What a datagram does to the server, and the datagrams that it sends to the sender.
    abbrev pub handle_decoded :
        SocketAddr
        → Outcome Error Packet
        → Server SocketAddr
        → (Outcome Error (Unit {0}) × Server SocketAddr) × List (List ℕ)
    handle_decoded from (ok (connectionless packet)) s =
        let (result, sent) =
          process_connectionless_packet io SocketAddr hash reachable from packet s.configuration in
        (finish_handshake from result s, sent)
    handle_decoded from (ok (regular packet)) s = (handle_regular from packet s, [])
    handle_decoded from (err e) s = ((err e, s), [])
    handle_decoded from panic s = ((panic, s), [])
    handle_decoded from stuck s = ((stuck, s), [])

    unfoldable pub handle_datagram :
        SocketAddr
        → List ℕ
        → Server SocketAddr
        → (Outcome Error (Unit {0}) × Server SocketAddr) × List (List ℕ)
    unfolding finish_handshake handle_regular
    handle_datagram from packet_data s =
        handle_decoded from (map_err decoder (decode_raw_packet decompress_vec packet_data)) s
