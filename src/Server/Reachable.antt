-- ===== src/Server/Reachable.antt =====
-- What holds of the server in every state that it can reach.
use quickplay_server.Base.{
  ℕ, ◌≡◌, refl, sym, ap, ap₂, ◌∙◌, subst, inl, inr, Bool, true, List, [], ◌∷◌, ◌++◌, Option, some,
  Outcome, length, get_elem?, some-injective, get_elem?-set_other, get_elem?-append,
  get_elem?-append_last, get_elem?-extended,
}
use quickplay_server.Errors.{Error}
use quickplay_server.Configuration.{Configuration}
use quickplay_server.Io.{BitIo}
use quickplay_server.Net.Packet.{Packet}
use quickplay_server.Net.Connectionless.{get_challenge_for_address}
use quickplay_server.Net.NetChannel.State.{new}
use quickplay_server.Net.NetChannel.Invariant.{IsChannel, new-IsChannel}
use quickplay_server.Quickplay.Floats.{Floats}
use quickplay_server.Server.Connection.{new_connection}
use quickplay_server.Server.Table.{
  Task, Server, waiting, leaving, removed, push_packet, new_server, get_connection,
  insert_connection, create_connection,
}
use quickplay_server.Server.Tasks.{Step, Reach, here, next, expire, notice, remove_dead, work}
use quickplay_server.Server.Kept.{push_packet-Keeps, background_round-Keeps}
use quickplay_server.Server.Effects.{Effect, handle_datagram-Effect}
use quickplay_server.Server.Entries.{
  get_connection-remove_same, get_connection-remove_other, get_connection-insert_same,
  get_connection-insert_other,
}
use quickplay_server.Server.Invariant.{
  IsTask, IsServer, set-IsTask, set_task-IsServer, Keeps-IsTask, advance-IsTask, left_wait,
}

module _ {SocketAddr : Type 0} (same_addr : Discrete SocketAddr) (io : BitIo)
    (hash : SocketAddr → ℕ) (reachable : SocketAddr → List ℕ → Bool)
    (configuration : Configuration) where
  create_connection-IsServer :
      (from : SocketAddr) (challenge : ℕ) (s : Server SocketAddr)
      → challenge ≡ get_challenge_for_address io SocketAddr hash reachable from
      → IsServer same_addr io hash reachable configuration s
      → IsServer same_addr io hash reachable configuration
          (create_connection same_addr from challenge s)
  unfolding create_connection new_connection
  create_connection-IsServer from challenge s right h =
      let t : Task SocketAddr = record {
        connection = new_connection from (new challenge s.configuration) s.configuration;
        stage = waiting;
      } in
      record {
        configured = h.configured;
        tasks_valid = λ i u found. elim (get_elem?-extended s.tasks t i found) [
          | inl old ↦ h.tasks_valid i u old
          | inr (_, same) ↦
              subst (IsTask same_addr io hash reachable configuration) (sym same) (record {
                channel =
                    subst (λ k. IsChannel k t.connection.netchan)
                      (ap₂ (λ x y. record { challenge = x; configuration = y }) right h.configured)
                      (new-IsChannel challenge s.configuration);
                same_configuration = h.configured;
                left_cancelled = inl refl;
              })
        ];
        entries = λ a i known. elim (same_addr from a) [
          | yes e ↦
              let i≡n : length s.tasks ≡ i = some-injective (
                sym (get_connection-insert_same same_addr from (length s.tasks) s.connections)
                ∙ subst
                    (λ x.
                      get_connection same_addr x
                        (insert_connection same_addr from (length s.tasks) s.connections)
                      ≡ some i)
                    (sym e) known) in
              (
                t,
                subst (λ n. get_elem? (s.tasks ++ t ∷ []) n ≡ some t) i≡n
                    (get_elem?-append_last s.tasks t),
                e,
                tt,
              )
          | no ne ↦
              let old =
                sym (get_connection-insert_other same_addr from a (length s.tasks) s.connections ne)
                ∙ known in
              let (u, there, client, waits) = h.entries a i old in
              (u, get_elem?-append s.tasks (t ∷ []) i there, client, waits)
        ];
      }

  remove_dead-IsServer :
      (i : ℕ) (t : Task SocketAddr) (s : Server SocketAddr)
      → get_elem? s.tasks i ≡ some t
      → t.stage ≡ leaving
      → IsServer same_addr io hash reachable configuration s
      → IsServer same_addr io hash reachable configuration (remove_dead same_addr i t s)
  unfolding remove_dead
  remove_dead-IsServer i t s found left h = record {
    configured = h.configured;
    tasks_valid = set-IsTask same_addr io hash reachable configuration s.tasks i _ h.tasks_valid (
        advance-IsTask same_addr io hash reachable configuration t removed t.connection.cancelled
          (left_wait same_addr io hash reachable configuration t left (h.tasks_valid i t found))
          (h.tasks_valid i t found));
    entries = λ a j known. elim (same_addr t.connection.client_addr a) [
      | yes e ↦
          cc (get_connection-remove_same same_addr t.connection.client_addr s.connections, e, known)
      | no ne ↦
          let old =
            sym (get_connection-remove_other same_addr t.connection.client_addr a s.connections ne)
            ∙ known in
          let (u, there, client, waits) = h.entries a j old in
          (
            u,
            get_elem?-set_other s.tasks i j _ (λ e. ne (
                  ap (λ x. x.connection.client_addr)
                    (some-injective (sym found ∙ ap (get_elem? s.tasks) e ∙ there))
                  ∙ client))
                ∙ there,
            client,
            waits,
          )
    ];
  }

  Effect-IsServer :
      {from : SocketAddr} {decoded : Outcome Error Packet} (s u : Server SocketAddr)
      → Effect same_addr io hash reachable from decoded s u
      → IsServer same_addr io hash reachable configuration s
      → IsServer same_addr io hash reachable configuration u
  Effect-IsServer s u (Effect.dropped e) h =
      subst (IsServer same_addr io hash reachable configuration) (sym e) h
  Effect-IsServer s u (Effect.delivered packet i t _ _ found _ e) h = rw e (
      set_task-IsServer same_addr io hash reachable configuration s i t _ found refl (λ p. p)
        (Keeps-IsTask same_addr io hash reachable configuration t (push_packet packet t.connection)
          (push_packet-Keeps packet t.connection))
        h)
  Effect-IsServer {from} s u (Effect.created packet rest challenge _ _ request e) h =
      rw e (create_connection-IsServer from challenge s request.0 h)

  module _ (crc : List ℕ → ℕ) (floats : Floats) (display : SocketAddr → List ℕ)
      (decompress_vec : List ℕ → Option (List ℕ)) where
    pub Step-IsServer :
        (s u : Server SocketAddr)
        → Step same_addr io crc floats display hash reachable decompress_vec s u
        → IsServer same_addr io hash reachable configuration s
        → IsServer same_addr io hash reachable configuration u
    unfolding expire notice work
    Step-IsServer s u (Step.datagram from packet_data e) h = rw e (
        Effect-IsServer s _
          (handle_datagram-Effect same_addr io hash reachable decompress_vec from packet_data s) h)
    Step-IsServer s u (Step.round server_lists i t found _ e) h =
        let kept =
          background_round-Keeps io crc floats SocketAddr display server_lists t.connection in
        rw e (
          set_task-IsServer same_addr io hash reachable configuration s i t _ found kept.same_client
            (λ p. p) (Keeps-IsTask same_addr io hash reachable configuration t _ kept) h)
    Step-IsServer s u (Step.timeout i t found _ e) h = rw e (
        set_task-IsServer same_addr io hash reachable configuration s i t _ found refl (λ _. tt)
          (advance-IsTask same_addr io hash reachable configuration t leaving true refl) h)
    Step-IsServer s u (Step.cancellation i t found _ cancelled e) h = rw e (
        set_task-IsServer same_addr io hash reachable configuration s i t _ found refl (λ _. tt)
          (advance-IsTask same_addr io hash reachable configuration t leaving t.connection.cancelled
            cancelled)
          h)
    Step-IsServer s u (Step.removal i t found left e) h =
        rw e (remove_dead-IsServer i t s found left h)

    new_server-IsServer :
        IsServer same_addr io hash reachable configuration (new_server configuration)
    unfolding new_server get_connection
    new_server-IsServer = record {
      configured = refl;
      tasks_valid = λ i t found. cc found;
      entries = λ a i known. cc known;
    }

    -- In every state that the server reaches, whatever datagrams come and in whatever order the tasks
    -- run, it has the configuration that it began with; every connection that was made has this
    -- configuration too, and a channel with it that satisfies its invariant, with the challenge of its
    -- client's address; a connection is removed, or about to be, only with its token cancelled; and
    -- every entry of the map leads to a connection with the entry's address that was not removed.
    pub Reach-IsServer :
        (s : Server SocketAddr)
        → Reach same_addr io crc floats display hash reachable decompress_vec
            (new_server configuration)
            s
        → IsServer same_addr io hash reachable configuration s
    Reach-IsServer s here = new_server-IsServer
    Reach-IsServer s (next {t} reached step) = Step-IsServer t s step (Reach-IsServer t reached)
