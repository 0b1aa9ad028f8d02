-- ===== src/Server/Invariant.antt =====
-- What holds of the server between two steps, and of a task that is replaced.
use quickplay_server.Base.{
  ℕ, ◌≡◌, refl, sym, ap, ◌⊎◌, ◌∙◌, subst, inl, inr, Bool, true, List, some, get_elem?, set,
  some-injective, get_elem?-set, get_elem?-set_same, get_elem?-set_other, ℕ_discrete,
}
use quickplay_server.Configuration.{Configuration}
use quickplay_server.Io.{BitIo}
use quickplay_server.Net.Connectionless.{get_challenge_for_address}
use quickplay_server.Net.NetChannel.Invariant.{Origin, IsChannel}
use quickplay_server.Server.Connection.{Connection}
use quickplay_server.Server.Table.{Task, Server, Stage, waiting, leaving, removed, get_connection}
use quickplay_server.Server.Kept.{Keeps}

-- The task has yet to remove the connection.
abbrev pub IsPresent : Stage → Type 0
IsPresent waiting = Unit {0}
IsPresent leaving = Unit {0}
IsPresent removed = ⊥

pub IsPresent-cases : (x : Stage) → IsPresent x → (x ≡ waiting) ⊎ (x ≡ leaving)
IsPresent-cases waiting h = inl refl
IsPresent-cases leaving h = inr refl
IsPresent-cases removed h = absurd h

module _ {SocketAddr : Type 0} (same_addr : Discrete SocketAddr) (io : BitIo)
    (hash : SocketAddr → ℕ) (reachable : SocketAddr → List ℕ → Bool)
    (configuration : Configuration) where
  -- The origin of the channels of a client.
  abbrev pub origin : SocketAddr → Origin
  origin a = record {
    challenge = get_challenge_for_address io SocketAddr hash reachable a;
    configuration = configuration;
  }

  -- The channel satisfies the invariant, with the challenge of the client's address and the
  -- configuration, which is that of the connection too; and a task that has left its wait has done
  -- so with the token cancelled.
  pub record IsTask (t : Task SocketAddr) : Type 0 where
    pub channel : IsChannel (origin t.connection.client_addr) t.connection.netchan
    pub same_configuration : t.connection.configuration ≡ configuration
    pub left_cancelled : (t.stage ≡ waiting) ⊎ (t.connection.cancelled ≡ true)

  -- Every task satisfies this, and every entry of the map is that of a task for the address that
  -- has yet to remove its connection.
  pub record IsServer (s : Server SocketAddr) : Type 0 where
    pub configured : s.configuration ≡ configuration
    pub tasks_valid : (i : ℕ) (t : Task SocketAddr) → get_elem? s.tasks i ≡ some t → IsTask t
    pub entries :
        (a : SocketAddr) (i : ℕ)
        → get_connection same_addr a s.connections ≡ some i
        → (t : Task SocketAddr) × (get_elem? s.tasks i ≡ some t)
          × (t.connection.client_addr ≡ a)
          × IsPresent t.stage

  pub set-IsTask :
      (tasks : List (Task SocketAddr)) (i : ℕ) (t : Task SocketAddr)
      → ((j : ℕ) (u : Task SocketAddr) → get_elem? tasks j ≡ some u → IsTask u)
      → IsTask t
      → (j : ℕ) (u : Task SocketAddr) → get_elem? (set tasks i t) j ≡ some u
      → IsTask u
  set-IsTask tasks i t h ht j u found = elim (get_elem?-set tasks i j t found) [
    | inl (_, same) ↦ subst IsTask (sym same) ht
    | inr (_, old) ↦ h j u old
  ]

  -- A task that is replaced by one for the same client.
  pub set_task-IsServer :
      (s : Server SocketAddr) (i : ℕ) (t u : Task SocketAddr)
      → get_elem? s.tasks i ≡ some t
      → u.connection.client_addr ≡ t.connection.client_addr
      → (IsPresent t.stage → IsPresent u.stage)
      → (IsTask t → IsTask u)
      → IsServer s
      → IsServer (record s { tasks = set s.tasks i u })
  set_task-IsServer s i t u found same present kept h = record {
    configured = h.configured;
    tasks_valid = set-IsTask s.tasks i u h.tasks_valid (kept (h.tasks_valid i t found));
    entries = λ a j known.
        let (v, there, client, waits) = h.entries a j known in
        elim (ℕ_discrete i j) [
          | yes e ↦
              let v≡t : v ≡ t =
                some-injective (sym there ∙ sym (ap (get_elem? s.tasks) e) ∙ found) in
              (
                u,
                subst (λ n. get_elem? (set s.tasks i u) n ≡ some u) e
                    (get_elem?-set_same s.tasks i u found),
                same ∙ sym (ap (λ x. x.connection.client_addr) v≡t) ∙ client,
                present (subst (λ x. IsPresent x.stage) v≡t waits),
              )
          | no ne ↦ (v, get_elem?-set_other s.tasks i j u ne ∙ there, client, waits)
        ];
  }

  -- What a round keeps of a connection is enough for its task.
  pub Keeps-IsTask :
      (t : Task SocketAddr) (d : Connection SocketAddr)
      → Keeps t.connection d
      → IsTask t
      → IsTask (record t { connection = d })
  Keeps-IsTask t d kept h = record {
    channel =
        subst (λ a. IsChannel (origin a) d.netchan) (sym kept.same_client)
          (kept.channel (origin t.connection.client_addr) h.channel);
    same_configuration = kept.same_configuration ∙ h.same_configuration;
    left_cancelled = elim h.left_cancelled [
      | inl waits ↦ inl waits
      | inr cancelled ↦ inr (kept.stays_cancelled cancelled)
    ];
  }

  -- The connection of a task, with its token cancelled, and the next stage of the task.
  pub advance-IsTask :
      (t : Task SocketAddr) (next_stage : Stage) (b : Bool)
      → b ≡ true
      → IsTask t
      → IsTask
          (record t { connection = record (t.connection) { cancelled = b }; stage = next_stage })
  advance-IsTask t next_stage b cancelled h = record {
    channel = h.channel;
    same_configuration = h.same_configuration;
    left_cancelled = inr cancelled;
  }

  -- A task that has left its wait.
  pub left_wait :
      (t : Task SocketAddr) → t.stage ≡ leaving → IsTask t → t.connection.cancelled ≡ true
  left_wait t left h = elim h.left_cancelled [
    | inl waits ↦ cc (waits, left)
    | inr cancelled ↦ cancelled
  ]
