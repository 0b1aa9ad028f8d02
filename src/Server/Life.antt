-- ===== src/Server/Life.antt =====
-- The life of the connections, as it is seen from outside: what a step may do to them, and the view
-- of the server that forgets the representation of the map and the tasks.
pub mod Refinement
use quickplay_server.Base.{
  ℕ, ◌≡◌, ◌≢◌, none, length, length-map, refl, sym, ap, ap₂, subst, Outcome, ◌∙◌, inl, inr, Bool,
  true, false, List, [], ◌∷◌, ◌++◌, map, Option, some, get_elem?, set, map-set, map-append_one,
  get_elem?-map, Bool-cases,
}
use quickplay_server.Errors.{Error}
use quickplay_server.Net.Packet.{Packet}
use quickplay_server.Io.{BitIo}
use quickplay_server.Quickplay.Floats.{Floats}
use quickplay_server.Server.Connection.{Connection, new_connection}
use quickplay_server.Server.Table.{
  Task, Server, Stage, waiting, leaving, removed, new_server, get_connection, create_connection,
}
use quickplay_server.Server.Tasks.{Step, Reach, expire, notice, remove_dead, work}
use quickplay_server.Server.Kept.{Keeps, background_round-Keeps}
use quickplay_server.Server.Reachable.{Reach-IsServer}
use quickplay_server.Server.Invariant.{left_wait}
use quickplay_server.Server.Entries.{
  get_connection-remove_same, get_connection-remove_other, get_connection-insert_same,
  get_connection-insert_other,
}
use quickplay_server.Configuration.{Configuration}
use quickplay_server.Server.Effects.{Effect, handle_datagram-Effect}

-- What there is to a connection for others than its client: whether it was told to end, whether its
-- task runs, and whether it was removed from the map.
pub record Phase (SocketAddr : Type 0) : Type 0 where
  pub client : SocketAddr
  pub cancelled : Bool
  pub is_running : Bool
  pub is_removed : Bool

abbrev pub opened : {SocketAddr : Type 0} → SocketAddr → Phase SocketAddr
opened a = record { client = a; cancelled = false; is_running = true; is_removed = false }

-- Any number of changes, of which none is undone.
pub data Moves {SocketAddr : Type 0} (p : Phase SocketAddr) : Phase SocketAddr → Type 0 where
  stays : {q : Phase SocketAddr} → q ≡ p → Moves p q
  cancels :
      {q : Phase SocketAddr} (r : Phase SocketAddr)
      → Moves p r
      → q ≡ record r { cancelled = true }
      → Moves p q
  ends :
      {q : Phase SocketAddr} (r : Phase SocketAddr)
      → Moves p r
      → q ≡ record r { is_running = false }
      → Moves p q

-- The connections that were made, and the number of the one that packets of an address go to.
pub record Life (SocketAddr : Type 0) : Type 0 where
  pub phases : List (Phase SocketAddr)
  pub entry : SocketAddr → Option ℕ

abbrev pub SameEntries : {SocketAddr : Type 0} → Life SocketAddr → Life SocketAddr → Type 0
SameEntries {SocketAddr} l m = (b : SocketAddr) → m.entry b ≡ l.entry b

abbrev pub OtherEntries :
    {SocketAddr : Type 0} → SocketAddr → Life SocketAddr → Life SocketAddr → Type 0
OtherEntries {SocketAddr} a l m = (b : SocketAddr) → a ≢ b → m.entry b ≡ l.entry b

-- A step: nothing happens; or one more connection is made, and has the entry of its client; or one
-- moves on; or one that was told to end is removed, and its client has no entry.
pub data Evolves {SocketAddr : Type 0} (l m : Life SocketAddr) : Type 0 where
  idle : m.phases ≡ l.phases → SameEntries l m → Evolves l m
  opens :
      (a : SocketAddr)
      → m.phases ≡ l.phases ++ opened a ∷ []
      → m.entry a ≡ some (length l.phases)
      → OtherEntries a l m
      → Evolves l m
  moves :
      (i : ℕ) (p q : Phase SocketAddr)
      → get_elem? l.phases i ≡ some p
      → Moves p q
      → m.phases ≡ set l.phases i q
      → SameEntries l m
      → Evolves l m
  removes :
      (i : ℕ) (p : Phase SocketAddr)
      → get_elem? l.phases i ≡ some p
      → p.cancelled ≡ true
      → m.phases ≡ set l.phases i (record p { is_removed = true })
      → m.entry p.client ≡ none
      → OtherEntries p.client l m
      → Evolves l m

abbrev pub is_done : Stage → Bool
is_done waiting = false
is_done leaving = false
is_done removed = true

abbrev pub phase_of : {SocketAddr : Type 0} → Task SocketAddr → Phase SocketAddr
phase_of t = record {
  client = t.connection.client_addr;
  cancelled = t.connection.cancelled;
  is_running = t.connection.is_running;
  is_removed = is_done t.stage;
}

abbrev pub life : {SocketAddr : Type 0} → Discrete SocketAddr → Server SocketAddr → Life SocketAddr
life same_addr s = record {
  phases = map phase_of s.tasks;
  entry = λ a. get_connection same_addr a s.connections;
}
