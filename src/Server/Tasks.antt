-- ===== src/Server/Tasks.antt =====
-- The steps of the server and of its tasks, in any order.
use quickplay_server.Base.{ℕ, ◌≡◌, Bool, true, List, Option, some, get_elem?, set}
use quickplay_server.Io.{BitIo}
use quickplay_server.Quickplay.Floats.{Floats}
use quickplay_server.Quickplay.Session
use quickplay_server.Server.Connection.{background_round}
use quickplay_server.Server.Table.{
  Task, Server, waiting, leaving, removed, remove_connection, handle_datagram,
}

module _ {SocketAddr : Type 0} (same_addr : Discrete SocketAddr) where
  -- `remove_dead_connection`, the arm of `select!` at the end of the timeout: the token is cancelled.
  unfoldable pub expire : ℕ → Task SocketAddr → Server SocketAddr → Server SocketAddr
  expire i t s = record s {
    tasks =
        set s.tasks i
          (record t { connection = record (t.connection) { cancelled = true }; stage = leaving });
  }

  -- The other arm, of a token that was cancelled: nothing.
  unfoldable pub notice : ℕ → Task SocketAddr → Server SocketAddr → Server SocketAddr
  notice i t s = record s { tasks = set s.tasks i (record t { stage = leaving }) }

  -- What follows the `select!`: the entry of the address is removed.
  unfoldable pub remove_dead : ℕ → Task SocketAddr → Server SocketAddr → Server SocketAddr
  remove_dead i t s = record s {
    connections = remove_connection same_addr t.connection.client_addr s.connections;
    tasks = set s.tasks i (record t { stage = removed });
  }

  module _ (io : BitIo) (crc : List ℕ → ℕ) (floats : Floats) (display : SocketAddr → List ℕ)
      (hash : SocketAddr → ℕ) (reachable : SocketAddr → List ℕ → Bool)
      (decompress_vec : List ℕ → Option (List ℕ)) where
    -- A round of the task of connection `i`.
    unfoldable pub work :
        (ℕ → List (Session.Server floats SocketAddr))
        → ℕ
        → Task SocketAddr
        → Server SocketAddr
        → Server SocketAddr
    unfolding background_round
    work server_lists i t s =
        let (c, _) = background_round io crc floats SocketAddr display server_lists t.connection in
        record s { tasks = set s.tasks i (record t { connection = c }) }

    -- One step: the loop of `run` receives a datagram, whose handling may fail without an effect on
    -- the loop; a task that runs makes a round; a task that waits for the end of a connection leaves
    -- its `select!` at the end of the timeout, or when it sees that the token is cancelled; a task
    -- that has left it removes the connection. The server lists, like the datagrams, are the
    -- environment's choice.
    pub data Step (s u : Server SocketAddr) : Type 0 where
      datagram :
          (from : SocketAddr) (packet_data : List ℕ)
          → u ≡ (handle_datagram same_addr io hash reachable decompress_vec from packet_data s).0.1
          → Step s u
      round :
          (server_lists : ℕ → List (Session.Server floats SocketAddr)) (i : ℕ) (t : Task SocketAddr)
          → get_elem? s.tasks i ≡ some t
          → t.connection.is_running ≡ true
          → u ≡ work server_lists i t s
          → Step s u
      timeout :
          (i : ℕ) (t : Task SocketAddr)
          → get_elem? s.tasks i ≡ some t
          → t.stage ≡ waiting
          → u ≡ expire i t s
          → Step s u
      cancellation :
          (i : ℕ) (t : Task SocketAddr)
          → get_elem? s.tasks i ≡ some t
          → t.stage ≡ waiting
          → t.connection.cancelled ≡ true
          → u ≡ notice i t s
          → Step s u
      removal :
          (i : ℕ) (t : Task SocketAddr)
          → get_elem? s.tasks i ≡ some t
          → t.stage ≡ leaving
          → u ≡ remove_dead i t s
          → Step s u

    pub data Reach (s : Server SocketAddr) : Server SocketAddr → Type 0 where
      here : Reach s s
      next : {t u : Server SocketAddr} → Reach s t → Step t u → Reach s u
