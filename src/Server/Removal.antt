-- ===== src/Server/Removal.antt =====
-- The end of a connection: the timer, the removal of its entry, and what comes after.
use quickplay_server.Base.{
  ℕ, ◌≡◌, ◌⊎◌, inl, inr, subst, refl, Bool, true, false, List, [], Option, none, some, ok,
  get_elem?, get_elem?-set_same,
}
use quickplay_server.Configuration.{Configuration}
use quickplay_server.Io.{BitIo}
use quickplay_server.Quickplay.Floats.{Floats}
use quickplay_server.Quickplay.Session
use quickplay_server.Server.Connection.{background_round}
use quickplay_server.Server.Table.{
  Task, Server, leaving, removed, new_server, get_connection, handle_regular,
}
use quickplay_server.Server.Tasks.{Step, Reach, here, next, expire, remove_dead}
use quickplay_server.Server.Invariant.{IsPresent-cases, left_wait}
use quickplay_server.Server.Reachable.{Reach-IsServer}
use quickplay_server.Server.Entries.{get_connection-remove_same, get_connection-remove_dec}

module _ {SocketAddr : Type 0} (same_addr : Discrete SocketAddr) where
  -- Right after a task has removed its connection the server drops any regular packet of the client,
  -- whichever connection the entry of the address led to: another connection that the same client
  -- has made in the meantime has lost its entry as well. The entries of other addresses stay.
  pub handle_regular-remove_dead :
      (i : ℕ) (t : Task SocketAddr) (s : Server SocketAddr) (packet : List ℕ)
      → (handle_regular same_addr t.connection.client_addr packet (remove_dead same_addr i t s)
          ≡ (ok tt, remove_dead same_addr i t s))
        × ((b : SocketAddr)
            → (t.connection.client_addr ≡ b)
              ⊎ (get_connection same_addr b (remove_dead same_addr i t s).connections
                  ≡ get_connection same_addr b s.connections))
  unfolding handle_regular remove_dead
  handle_regular-remove_dead i t s packet = (
    rw (handle_regular, get_connection-remove_same same_addr t.connection.client_addr s.connections)
        refl,
    λ b. get_connection-remove_dec same_addr t.connection.client_addr b s.connections,
  )

  module _ (io : BitIo) (crc : List ℕ → ℕ) (floats : Floats) (display : SocketAddr → List ℕ)
      (hash : SocketAddr → ℕ) (reachable : SocketAddr → List ℕ → Bool)
      (decompress_vec : List ℕ → Option (List ℕ)) where
    -- The server has no entry for the address, and connection `i` is removed and at its next round
    -- ends without sending.
    pub record IsGone (a : SocketAddr) (i : ℕ) (s : Server SocketAddr) : Type 0 where
      pub no_entry : get_connection same_addr a s.connections ≡ none
      pub task : Task SocketAddr
      pub there : get_elem? s.tasks i ≡ some task
      pub is_removed : task.stage ≡ removed
      pub last_round :
          (server_lists : ℕ → List (Session.Server floats SocketAddr))
          → background_round io crc floats SocketAddr display server_lists task.connection
            ≡ (record (task.connection) { is_running = false }, [])

    -- The last step, of a task that has left its wait.
    removal-IsGone :
        (i : ℕ) (t : Task SocketAddr) (s : Server SocketAddr)
        → get_elem? s.tasks i ≡ some t
        → t.connection.cancelled ≡ true
        → IsGone t.connection.client_addr i (remove_dead same_addr i t s)
    unfolding remove_dead background_round
    removal-IsGone i t s found cancelled = record {
      no_entry = get_connection-remove_same same_addr t.connection.client_addr s.connections;
      task = record t { stage = removed };
      there = get_elem?-set_same s.tasks i _ found;
      is_removed = refl;
      last_round = λ server_lists. rw cancelled refl;
    }

    -- From every reachable state in which the map leads from an address to a connection, the server
    -- can go on, by the end of the connection's timer, where its task still waits for it, and by its
    -- removal, to a state that has no entry for the address and in which the connection's task ends
    -- at its next round without sending anything; the entries of the other addresses are the same in
    -- this state.
    pub timeout-IsGone :
        (configuration : Configuration) (s : Server SocketAddr) (a : SocketAddr) (i : ℕ)
        → Reach same_addr io crc floats display hash reachable decompress_vec
            (new_server configuration)
            s
        → get_connection same_addr a s.connections ≡ some i
        → (u : Server SocketAddr) × Reach same_addr io crc floats display hash reachable
            decompress_vec s u
          × IsGone a i u
          × ((b : SocketAddr)
              → (a ≡ b)
                ⊎ (get_connection same_addr b u.connections
                    ≡ get_connection same_addr b s.connections))
    unfolding expire remove_dead
    timeout-IsGone configuration s a i reached known =
        let valid =
          Reach-IsServer same_addr io hash reachable configuration crc floats display decompress_vec
            s reached in
        let (t, found, client, present) = valid.entries a i known in
        elim (IsPresent-cases t.stage present) [
          | inl waits ↦
              let t' : Task SocketAddr = record {
                connection = record (t.connection) { cancelled = true };
                stage = leaving;
              } in
              let s' = expire same_addr i t s in
              let found' = get_elem?-set_same s.tasks i t' found in
              (
                remove_dead same_addr i t' s',
                next (next here (Step.timeout i t found waits refl))
                    (Step.removal i t' found' refl refl),
                subst (λ x. IsGone x i (remove_dead same_addr i t' s')) client
                    (removal-IsGone i t' s' found' refl),
                λ b. rw client (get_connection-remove_dec same_addr a b s.connections),
              )
          | inr left ↦
              let cancelled =
                left_wait same_addr io hash reachable configuration t left
                  (valid.tasks_valid i t found) in
              (
                remove_dead same_addr i t s,
                next here (Step.removal i t found left refl),
                subst (λ x. IsGone x i (remove_dead same_addr i t s)) client
                    (removal-IsGone i t s found cancelled),
                λ b. rw client (get_connection-remove_dec same_addr a b s.connections),
              )
        ]
