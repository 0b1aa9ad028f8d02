-- ===== src/Server/Started.antt =====
-- The server that `main` starts.
use quickplay_server.Base.{
  ℕ, ◌≡◌, sym, ap, ◌∙◌, subst, inl, inr, Bool, true, false, List, Option, none, some, ok, ◌>>=◌,
  ok_or, ok-injective, bind_ok, Bool-cases, Option-cases, if◌then◌else◌,
}
use quickplay_server.Configuration.{Configuration, load_default, load_from_file}
use quickplay_server.Io.{BitIo}
use quickplay_server.Quickplay.Floats.{Floats}
use quickplay_server.Server.Table.{Server, new_server}
use quickplay_server.Server.Tasks.{Reach}
use quickplay_server.Server.Main.{
  Arguments, Started, dumped, serving, toml, start_server, choose_configuration, main,
}
use quickplay_server.Server.Reachable.{Reach-IsServer}
use quickplay_server.Server.Invariant.{IsServer}

module _ {SocketAddr : Type 0} (parse_addr : List ℕ → Option SocketAddr)
    (can_bind : SocketAddr → Bool) (read_to_string : List ℕ → Option (List ℕ))
    (from_str : List ℕ → Option Configuration)
    (to_string_pretty : Configuration → Option (List ℕ)) where
  -- Without a path the configuration is the default one; a path leads to a text that is read as the
  -- configuration.
  abbrev pub IsChosen : Option (List ℕ) → Configuration → Type 0
  IsChosen none configuration = configuration ≡ load_default
  IsChosen (some path) configuration =
      (text : List ℕ) × (read_to_string path ≡ some text) × (from_str text ≡ some configuration)

  -- The configuration, and the address that it names.
  pub record IsStarted (args : Arguments) (address : SocketAddr) (s : Server SocketAddr)
      : Type 0 where
    pub configuration : Configuration
    pub chosen : IsChosen args.configuration configuration
    pub no_dump : args.dump_configuration ≡ false
    pub named : parse_addr configuration.server.bind_address ≡ some address
    pub can_be_bound : can_bind address ≡ true
    pub is_new : s ≡ new_server configuration

  serving-injective :
      {a b : SocketAddr} {s t : Server SocketAddr}
      → ◌≡◌ {A = Started SocketAddr} (serving a s) (serving b t)
      → (a ≡ b) × (s ≡ t)
  serving-injective e = (cc e, cc e)

  choose_configuration-IsChosen :
      (path : Option (List ℕ)) (c : Configuration)
      → choose_configuration parse_addr can_bind read_to_string from_str to_string_pretty path
        ≡ ok c
      → IsChosen path c
  unfolding choose_configuration load_from_file
  choose_configuration-IsChosen none c e = sym (ok-injective e)
  choose_configuration-IsChosen (some path) c e = elim (Option-cases (read_to_string path)) [
    | inl missing ↦ cc (rw (choose_configuration, missing) at e)
    | inr (text, found) ↦ elim (Option-cases (from_str text)) [
      | inl invalid ↦ cc (rw (choose_configuration, found, invalid) at e)
      | inr (c', parsed) ↦ (
        text,
        found,
        parsed ∙ ap some (ok-injective (rw (choose_configuration, found, parsed) at e)),
      )
    ]
  ]

  start_server-IsStarted :
      (args : Arguments) (c : Configuration) (address : SocketAddr) (s : Server SocketAddr)
      → IsChosen args.configuration c
      → args.dump_configuration ≡ false
      → start_server parse_addr can_bind read_to_string from_str to_string_pretty c
        ≡ ok (serving address s)
      → IsStarted args address s
  unfolding start_server
  start_server-IsStarted args c address s chosen no_dump e =
      elim (Option-cases (parse_addr c.server.bind_address)) [
        | inl none_named ↦ cc (rw (start_server, none_named) at e)
        | inr (a, named) ↦ elim (Bool-cases (can_bind a)) [
          | inr taken ↦ cc (rw (start_server, named, taken) at e)
          | inl free ↦
              let (same, server) =
                serving-injective (ok-injective (rw (start_server, named, free) at e)) in
              record {
                configuration = c;
                chosen = chosen;
                no_dump = no_dump;
                named = named ∙ ap some same;
                can_be_bound = subst (λ x. can_bind x ≡ true) same free;
                is_new = sym server;
              }
        ]
      ]

  main-IsStarted :
      (args : Arguments) (address : SocketAddr) (s : Server SocketAddr)
      → main parse_addr can_bind read_to_string from_str to_string_pretty args
        ≡ ok (serving address s)
      → IsStarted args address s
  unfolding main
  main-IsStarted args address s e =
      let (c, chosen, e1) =
        bind_ok
          (choose_configuration parse_addr can_bind read_to_string from_str to_string_pretty
            args.configuration)
          (λ c.
            if args.dump_configuration
            then (ok_or (to_string_pretty c) toml >>= λ text. ok (dumped text))
            else start_server parse_addr can_bind read_to_string from_str to_string_pretty c)
          e in
      elim (Bool-cases args.dump_configuration) [
        | inl dump ↦
            let (text, _, e2) =
              bind_ok (ok_or (to_string_pretty c) toml) (λ text. ok (dumped text))
                (rw dump at e1) in
            cc (ok-injective e2)
        | inr no_dump ↦
            start_server-IsStarted args c address s
              (choose_configuration-IsChosen args.configuration c chosen) no_dump (rw no_dump at e1)
      ]

  module _ (same_addr : Discrete SocketAddr) (io : BitIo) (crc : List ℕ → ℕ) (floats : Floats)
      (display : SocketAddr → List ℕ) (hash : SocketAddr → ℕ)
      (reachable : SocketAddr → List ℕ → Bool) (decompress_vec : List ℕ → Option (List ℕ)) where
    -- If the program comes to serve, it does so with the configuration of the file that it was given,
    -- which could be read and parsed, or with the default one without a file; at the address which
    -- that names, which was free; and was not asked to dump it. In every state that its server then
    -- reaches this is the configuration of the server, of every connection that was made and of its
    -- channel, and the connections and the map satisfy their invariant.
    pub main-IsServer :
        (args : Arguments) (address : SocketAddr) (s u : Server SocketAddr)
        → main parse_addr can_bind read_to_string from_str to_string_pretty args
          ≡ ok (serving address s)
        → Reach same_addr io crc floats display hash reachable decompress_vec s u
        → (started : IsStarted args address s) × IsServer same_addr io hash reachable
            started.configuration u
    main-IsServer args address s u e reached =
        let started = main-IsStarted args address s e in
        (
          started,
          Reach-IsServer same_addr io hash reachable started.configuration crc floats display
              decompress_vec u
              (subst (λ x. Reach same_addr io crc floats display hash reachable decompress_vec x u)
                started.is_new reached),
        )
