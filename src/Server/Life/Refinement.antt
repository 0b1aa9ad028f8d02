-- ===== src/Server/Life/Refinement.antt =====
-- Every step of the server and its tasks is a step in the life of the connections.
use quickplay_server.Base.{
  ℕ, ◌≡◌, length, length-map, refl, sym, ap, ap₂, subst, Outcome, ◌∙◌, inl, inr, Bool, true, false,
  List, Option, some, get_elem?, set, map-set, map-append_one, get_elem?-map, Bool-cases,
}
use quickplay_server.Errors.{Error}
use quickplay_server.Net.Packet.{Packet}
use quickplay_server.Io.{BitIo}
use quickplay_server.Quickplay.Floats.{Floats}
use quickplay_server.Server.Connection.{Connection, new_connection}
use quickplay_server.Server.Table.{Task, Server, new_server, create_connection}
use quickplay_server.Server.Tasks.{Step, Reach, expire, notice, remove_dead, work}
use quickplay_server.Server.Kept.{Keeps, background_round-Keeps}
use quickplay_server.Server.Reachable.{Reach-IsServer}
use quickplay_server.Server.Invariant.{left_wait}
use quickplay_server.Server.Entries.{
  get_connection-remove_same, get_connection-remove_other, get_connection-insert_same,
  get_connection-insert_other,
}
use quickplay_server.Configuration.{Configuration}
use quickplay_server.Server.Effects.{Effect, handle_datagram-Effect}
use quickplay_server.Server.Life.{
  Phase, Moves, Evolves, stays, cancels, ends, idle, opens, moves, removes, is_done, phase_of, life,
}

module _ {SocketAddr : Type 0} where
  cancelled_move :
      (p : Phase SocketAddr) (c r : Bool)
      → (p.cancelled ≡ true → c ≡ true)
      → (p.is_running ≡ false → r ≡ false)
      → Moves p (record p { cancelled = c; is_running = r })
  cancelled_move p true true hc hr = elim (Bool-cases p.is_running) [
    | inl running ↦
        cancels p (stays refl)
          (ap (λ b. record p { cancelled = true; is_running = b }) (sym running))
    | inr ended ↦ cc (hr ended)
  ]
  cancelled_move p true false hc hr =
      ends (record p { cancelled = true }) (cancels p (stays refl) refl) refl
  cancelled_move p false r hc hr = elim (Bool-cases p.cancelled) [
    | inl cancelled ↦ cc (hc cancelled)
    | inr going ↦ elim (Bool-cases r) [
      | inl running ↦ elim (Bool-cases p.is_running) [
        | inl ran ↦ stays (
            ap₂ (λ b d. record p { cancelled = b; is_running = d }) (sym going) (running ∙ sym ran))
        | inr ended ↦ absurd (cc (hr ended, running))
      ]
      | inr ended ↦
          ends p (stays refl)
            (ap₂ (λ b d. record p { cancelled = b; is_running = d }) (sym going) ended)
    ]
  ]

  Keeps-Moves :
      (t : Task SocketAddr) (d : Connection SocketAddr)
      → Keeps t.connection d
      → Moves (phase_of t) (phase_of (record t { connection = d }))
  Keeps-Moves t d h =
      subst
        (λ a. Moves (phase_of t) (record {
          client = a;
          cancelled = d.cancelled;
          is_running = d.is_running;
          is_removed = is_done t.stage;
        }))
        (sym h.same_client)
        (cancelled_move (phase_of t) d.cancelled d.is_running h.stays_cancelled h.stays_ended)

module _ {SocketAddr : Type 0} (same_addr : Discrete SocketAddr) where
  -- One task that is replaced, while the map is kept.
  set-Evolves :
      (s : Server SocketAddr) (i : ℕ) (t t' : Task SocketAddr)
      → get_elem? s.tasks i ≡ some t
      → Moves (phase_of t) (phase_of t')
      → Evolves (life same_addr s) (life same_addr (record s { tasks = set s.tasks i t' }))
  set-Evolves s i t t' found move =
      moves i (phase_of t) (phase_of t') (get_elem?-map phase_of s.tasks i found) move
        (map-set phase_of s.tasks i t') (λ b. refl)

  create_connection-Evolves :
      (from : SocketAddr) (challenge : ℕ) (s : Server SocketAddr)
      → Evolves (life same_addr s) (life same_addr (create_connection same_addr from challenge s))
  unfolding create_connection new_connection
  create_connection-Evolves from challenge s =
      opens from (map-append_one phase_of s.tasks _)
        (get_connection-insert_same same_addr from (length s.tasks) s.connections
          ∙ ap some (sym (length-map phase_of s.tasks)))
        (λ b ne. get_connection-insert_other same_addr from b (length s.tasks) s.connections ne)

  remove_dead-Evolves :
      (i : ℕ) (t : Task SocketAddr) (s : Server SocketAddr)
      → get_elem? s.tasks i ≡ some t
      → t.connection.cancelled ≡ true
      → Evolves (life same_addr s) (life same_addr (remove_dead same_addr i t s))
  unfolding remove_dead
  remove_dead-Evolves i t s found cancelled =
      let a = t.connection.client_addr in
      removes i (phase_of t) (get_elem?-map phase_of s.tasks i found) cancelled
        (map-set phase_of s.tasks i _) (get_connection-remove_same same_addr a s.connections)
        (λ b ne. get_connection-remove_other same_addr a b s.connections ne)

module _ {SocketAddr : Type 0} (same_addr : Discrete SocketAddr) (io : BitIo) (crc : List ℕ → ℕ)
    (floats : Floats) (display : SocketAddr → List ℕ) (hash : SocketAddr → ℕ)
    (reachable : SocketAddr → List ℕ → Bool) (decompress_vec : List ℕ → Option (List ℕ)) where
  Effect-Evolves :
      {from : SocketAddr} {decoded : Outcome Error Packet} (s u : Server SocketAddr)
      → Effect same_addr io hash reachable from decoded s u
      → Evolves (life same_addr s) (life same_addr u)
  Effect-Evolves s u (Effect.dropped e) = rw e (idle refl (λ b. refl))
  Effect-Evolves s u (Effect.delivered packet i t _ _ found _ e) =
      rw e (set-Evolves same_addr s i t _ found (stays refl))
  Effect-Evolves {from} s u (Effect.created packet rest challenge _ _ _ e) =
      rw e (create_connection-Evolves same_addr from challenge s)

  -- In every reachable state, each step of the server or of a task is a step in the life of the
  -- connections, as it is told without the map's representation and the tasks: nothing happens; or
  -- one more connection is made, which was not told to end, and whose task runs, and its client's
  -- entry leads to it; or one connection moves on, without undoing a cancellation or an end, and
  -- the entries are kept; or one is removed that was told to end, and its client has no entry. The
  -- entries of other addresses are kept.
  pub Step-Evolves :
      (configuration : Configuration) (s u : Server SocketAddr)
      → Reach same_addr io crc floats display hash reachable decompress_vec
          (new_server configuration)
          s
      → Step same_addr io crc floats display hash reachable decompress_vec s u
      → Evolves (life same_addr s) (life same_addr u)
  unfolding expire notice work
  Step-Evolves configuration s u reached (Step.datagram from packet_data e) = rw e (
      Effect-Evolves s _
        (handle_datagram-Effect same_addr io hash reachable decompress_vec from packet_data s))
  Step-Evolves configuration s u reached (Step.round server_lists i t found _ e) = rw e (
      set-Evolves same_addr s i t _ found (
        Keeps-Moves t _
          (background_round-Keeps io crc floats SocketAddr display server_lists t.connection)))
  Step-Evolves configuration s u reached (Step.timeout i t found waits e) = rw e (
      set-Evolves same_addr s i t _ found (
        cancels (phase_of t) (stays refl)
          (ap (λ x. record (phase_of t) { cancelled = true; is_removed = is_done x }) (sym waits))))
  Step-Evolves configuration s u reached (Step.cancellation i t found waits _ e) = rw e (
      set-Evolves same_addr s i t _ found
        (stays (ap (λ x. record (phase_of t) { is_removed = is_done x }) (sym waits))))
  Step-Evolves configuration s u reached (Step.removal i t found left e) =
      let valid =
        Reach-IsServer same_addr io hash reachable configuration crc floats display decompress_vec s
          reached in
      let cancelled =
        left_wait same_addr io hash reachable configuration t left (valid.tasks_valid i t found) in
      rw e (remove_dead-Evolves same_addr i t s found cancelled)
