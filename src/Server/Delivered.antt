-- ===== src/Server/Delivered.antt =====
-- The regular packets of a client, from its connection on: where the server queues them.
use quickplay_server.Base.{
  ℕ, ◌≡◌, ◌≢◌, refl, sym, ap, subst, ◌∙◌, true, List, [], ◌∷◌, ◌++◌, Option, some, ok, length,
  get_elem?, set, get_elem?-set_same, get_elem?-set_other, get_elem?-append_last, append-nil,
  append_assoc, get_elem?-append, get_elem?-end, Bool,
}
use quickplay_server.Io.{BitIo}
use quickplay_server.Net.Packet.{regular, decode_raw_packet}
use quickplay_server.Server.Connection.{new_connection}
use quickplay_server.Server.Table.{
  Task, Server, waiting, get_connection, create_connection, handle_regular, handle_datagram,
}
use quickplay_server.Net.NetChannel.State.{new}
use quickplay_server.Server.Entries.{get_connection-insert_same}

-- The number of the next connection is not that of one that is there.
new_index : {A : Type 0} (xs : List A) (j : ℕ) {v : A} → length xs ≡ j → get_elem? xs j ≡ some v → ⊥
new_index xs j e found = cc (sym (get_elem?-end xs) ∙ ap (get_elem? xs) e ∙ found)

module _ {SocketAddr : Type 0} (same_addr : Discrete SocketAddr) (io : BitIo)
    (hash : SocketAddr → ℕ) (reachable : SocketAddr → List ℕ → Bool)
    (decompress_vec : List ℕ → Option (List ℕ)) where
  -- The datagrams of one client, one after the other, without another step between them.
  unfoldable pub receive_all : SocketAddr → List (List ℕ) → Server SocketAddr → Server SocketAddr
  receive_all from [] s = s
  receive_all from (d ∷ ds) s =
      receive_all from ds (handle_datagram same_addr io hash reachable decompress_vec from d s).0.1

  -- The datagrams are decoded as these regular packets.
  abbrev pub AreRegular : List (List ℕ) → List (List ℕ) → Type 0
  AreRegular [] [] = Unit {0}
  AreRegular (d ∷ ds) (p ∷ ps) =
      (decode_raw_packet decompress_vec d ≡ ok (regular p)) × AreRegular ds ps
  AreRegular [] (p ∷ ps) = ⊥
  AreRegular (d ∷ ds) [] = ⊥

  -- Packets that wait behind the others.
  abbrev pub queue_packets : List (List ℕ) → Task SocketAddr → Task SocketAddr
  queue_packets packets t = record t {
    connection = record (t.connection) {
      packet_receiver = t.connection.packet_receiver ++ packets;
    };
  }

  -- One datagram of a client whose connection runs.
  handle_datagram-queued :
      (from : SocketAddr) (datagram packet : List ℕ) (s : Server SocketAddr) (i : ℕ)
      (t : Task SocketAddr)
      → decode_raw_packet decompress_vec datagram ≡ ok (regular packet)
      → get_connection same_addr from s.connections ≡ some i
      → get_elem? s.tasks i ≡ some t
      → t.connection.is_running ≡ true
      → (handle_datagram same_addr io hash reachable decompress_vec from datagram s).0.1
        ≡ record s { tasks = set s.tasks i (queue_packets (packet ∷ []) t) }
  unfolding handle_datagram handle_regular
  handle_datagram-queued from datagram packet s i t decoded known found running =
      rw (handle_datagram, decoded, handle_regular, known, found, running) refl

  -- The task of connection `i` is `t`, which runs and is the one for the address.
  pub record Serves (from : SocketAddr) (i : ℕ) (t : Task SocketAddr) (s : Server SocketAddr)
      : Type 0 where
    pub known : get_connection same_addr from s.connections ≡ some i
    pub found : get_elem? s.tasks i ≡ some t
    pub running : t.connection.is_running ≡ true

  receive_all-Serves :
      (from : SocketAddr) (ds ps : List (List ℕ)) (i : ℕ) (t : Task SocketAddr)
      (s : Server SocketAddr)
      → AreRegular ds ps
      → Serves from i t s
      → Serves from i (queue_packets ps t) (receive_all from ds s)
        × ((j : ℕ) → i ≢ j → get_elem? (receive_all from ds s).tasks j ≡ get_elem? s.tasks j)
  unfolding receive_all
  receive_all-Serves from [] [] i t s h serves = (rw append-nil serves, λ j ne. refl)
  receive_all-Serves from [] (p ∷ ps) i t s h serves = absurd h
  receive_all-Serves from (d ∷ ds) [] i t s h serves = absurd h
  receive_all-Serves from (d ∷ ds) (p ∷ ps) i t s h serves =
      let t' = queue_packets (p ∷ []) t in
      let s' : Server SocketAddr = record s { tasks = set s.tasks i t' } in
      let one =
        handle_datagram-queued from d p s i t h.0 serves.known serves.found serves.running in
      let (later, others) = receive_all-Serves from ds ps i t' s' h.1 (record {
        known = serves.known;
        found = get_elem?-set_same s.tasks i t' serves.found;
        running = serves.running;
      }) in
      subst
        (λ x.
          Serves from i (queue_packets (p ∷ ps) t) (receive_all from ds x)
          × ((j : ℕ) → i ≢ j → get_elem? (receive_all from ds x).tasks j ≡ get_elem? s.tasks j))
        (sym one)
        (rw append_assoc at later, λ j ne. others j ne ∙ get_elem?-set_other s.tasks i j t' ne)

  -- Once a connection is made for a client, the regular packets that its datagrams bring, without
  -- another step before or between them, wait for this connection in the order in which they came,
  -- all of them, and the map still leads from the client's address to it; the connections that were
  -- there before are as they were.
  pub receive_all-create_connection :
      (from : SocketAddr) (challenge : ℕ) (s : Server SocketAddr) (ds ps : List (List ℕ))
      → AreRegular ds ps
      → (t : Task SocketAddr) × (get_connection same_addr from
            (receive_all from ds (create_connection same_addr from challenge s)).connections
          ≡ some (length s.tasks))
        × (get_elem?
              (receive_all from ds (create_connection same_addr from challenge s)).tasks
              (length s.tasks)
            ≡ some t)
        × (t.connection.client_addr ≡ from)
        × (t.connection.packet_receiver ≡ ps)
        × ((j : ℕ) (v : Task SocketAddr)
            → get_elem? s.tasks j ≡ some v
            → get_elem? (receive_all from ds (create_connection same_addr from challenge s)).tasks j
              ≡ some v)
  unfolding create_connection new_connection
  receive_all-create_connection from challenge s ds ps h =
      let t : Task SocketAddr = record {
        connection = new_connection from (new challenge s.configuration) s.configuration;
        stage = waiting;
      } in
      let (serves, others) =
        receive_all-Serves from ds ps (length s.tasks) t
          (create_connection same_addr from challenge s) h
          (record {
            known = get_connection-insert_same same_addr from (length s.tasks) s.connections;
            found = get_elem?-append_last s.tasks t;
            running = refl;
          }) in
      (
        queue_packets ps t,
        serves.known,
        serves.found,
        refl,
        refl,
        λ j v old.
            others j (λ e. new_index s.tasks j e old) ∙ get_elem?-append s.tasks (t ∷ []) j old,
      )
