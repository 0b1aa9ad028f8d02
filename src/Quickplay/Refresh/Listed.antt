-- ===== src/Quickplay/Refresh/Listed.antt =====
-- What holds of every server that the server list ever has.
use quickplay_server.Base.{
  ℕ, ◌<◌, ◌≡◌, ◌^◌, refl, inl, inr, bit_or, Bool, true, false, List, [], ◌∷◌, Option, some, Outcome,
  ok, err, panic, stuck, if◌then◌else◌, ltb, Bool-cases, Option-cases, some-injective, ok-injective,
  bind_ok, ok_or, eq_bytes, bytes, All, or-lt, ltb→lt, arith, subst, ◌>>=◌,
}
use quickplay_server.Configuration.{Configuration}
use quickplay_server.Quickplay.Floats.{Floats}
use quickplay_server.Quickplay.Gamemodes
use quickplay_server.Quickplay.Global.{
  HashMap, ServerInfoJson, ServerInfo, lookup, parse_schema, tag_flag, tags_loop,
  string_tags_to_flags, try_u8, parse_server, parse_server_infos,
}
use quickplay_server.Quickplay.Refresh.{
  RefreshError, json, io, Files, parse_schema_from_json, parse_server_infos_from_json,
  update_schema, update_server_info, or_kept, refresh, run_background, server_list,
}

-- The flags are those of `ServerTags`.
if-lt :
    (b : Bool) (x : ℕ) (rest : Option ℕ)
    → x < 2 ^ 7
    → ((f : ℕ) → rest ≡ some f → f < 2 ^ 7)
    → (f : ℕ) → (if b then some x else rest) ≡ some f
    → f < 2 ^ 7
if-lt true x rest lt h f e = subst (λ n. n < 2 ^ 7) (some-injective e) lt
if-lt false x rest lt h f e = h f e

tag_flag-lt : (str_tag : List ℕ) (f : ℕ) → tag_flag str_tag ≡ some f → f < 2 ^ 7
unfolding tag_flag
tag_flag-lt str_tag = if-lt (eq_bytes str_tag (bytes "nocrits")) _ _ (omega arith) (
    if-lt (eq_bytes str_tag (bytes "norespawntime")) _ _ (omega arith) (
      if-lt (eq_bytes str_tag (bytes "respawntimes")) _ _ (omega arith) (
        if-lt (eq_bytes str_tag (bytes "rtd")) _ _ (omega arith) (
          if-lt (eq_bytes str_tag (bytes "classlimits")) _ _ (omega arith) (
            if-lt (eq_bytes str_tag (bytes "classbans")) _ _ (omega arith)
              (if-lt (eq_bytes str_tag (bytes "nocap")) _ _ (omega arith) (λ f e. cc e)))))))

tags_loop-lt :
    (str_tags : List (List ℕ)) (tags : ℕ) → tags < 2 ^ 7 → tags_loop tags str_tags < 2 ^ 7
unfolding tags_loop
tags_loop-lt [] tags lt = lt
tags_loop-lt (t ∷ ts) tags lt = elim (Option-cases (tag_flag t)) [
  | inl unknown ↦ rw (tags_loop, unknown) (tags_loop-lt ts tags lt)
  | inr (flag, known) ↦
      rw (tags_loop, known)
        (tags_loop-lt ts (bit_or tags flag) (or-lt 7 tags flag lt (tag_flag-lt t flag known)))
]

-- A mode of the schema is that of a name.
abbrev IsMode : HashMap ℕ → Type 0
IsMode m =
    (k : List ℕ) (g : ℕ)
    → lookup k m ≡ some g
    → (name : List ℕ) × (Gamemodes.from_str name ≡ some g)

lookup-IsMode :
    (k' v : List ℕ) (g' : ℕ) (m : HashMap ℕ)
    → Gamemodes.from_str v ≡ some g'
    → IsMode m
    → IsMode ((k', g') ∷ m)
unfolding lookup
lookup-IsMode k' v g' m known h k g found = elim (Bool-cases (eq_bytes k' k)) [
  | inl same ↦ (
    v,
    subst (λ x. Gamemodes.from_str v ≡ some x) (some-injective (rw (lookup, same) at found)) known,
  )
  | inr other ↦ h k g (rw (lookup, other) at found)
]

parse_schema-IsMode : (m : HashMap (List ℕ)) → IsMode (parse_schema m)
unfolding parse_schema lookup
parse_schema-IsMode [] = λ k g found. cc found
parse_schema-IsMode ((k', v) ∷ m) = elim (Option-cases (Gamemodes.from_str v)) [
  | inl unknown ↦ rw (parse_schema, unknown) (parse_schema-IsMode m)
  | inr (g', known) ↦
      rw (parse_schema, known)
        (lookup-IsMode k' v g' (parse_schema m) known (parse_schema-IsMode m))
]

try_u8-lt : (n m : ℕ) → try_u8 n ≡ some m → m < 256
try_u8-lt n m e = elim (Bool-cases (ltb n 256)) [
  | inl fits ↦ subst (λ x. x < 256) (some-injective (rw fits at e)) (ltb→lt n 256 fits)
  | inr large ↦ cc (rw large at e)
]

module _ (floats : Floats) (SocketAddr : Type 0) (parse_addr : List ℕ → Option SocketAddr) where
  -- The numbers of players are bytes, the mode is one of those that have a name, and the tags are
  -- among the seven flags.
  pub record IsListed (s : ServerInfo floats SocketAddr) : Type 0 where
    pub few_players : s.players < 256
    pub few_places : s.max_players < 256
    pub name : List ℕ
    pub known_mode : Gamemodes.from_str name ≡ some s.gamemode
    pub known_tags : s.tags < 2 ^ 7

  parse_server-IsListed :
      (m : HashMap ℕ) (raw : ServerInfoJson floats) (s : ServerInfo floats SocketAddr)
      → IsMode m
      → parse_server floats SocketAddr parse_addr m raw ≡ some s
      → IsListed s
  unfolding parse_server string_tags_to_flags
  parse_server-IsListed m raw s modes e = elim (Option-cases (lookup raw.map m)) [
    | inl no_mode ↦ cc (rw (parse_server, no_mode) at e)
    | inr (gamemode, mode) ↦ elim (Option-cases (parse_addr raw.addr)) [
      | inl no_addr ↦ cc (rw (parse_server, mode, no_addr) at e)
      | inr (addr, address) ↦ elim (Option-cases (try_u8 raw.players)) [
        | inl many ↦ cc (rw (parse_server, mode, address, many) at e)
        | inr (players, few) ↦ elim (Option-cases (try_u8 raw.max_players)) [
          | inl many ↦ cc (rw (parse_server, mode, address, few, many) at e)
          | inr (max_players, bounded) ↦
              let (name, known) = modes raw.map gamemode mode in
              subst IsListed (some-injective (rw (parse_server, mode, address, few, bounded) at e))
                (record {
                  few_players = try_u8-lt raw.players players few;
                  few_places = try_u8-lt raw.max_players max_players bounded;
                  name = name;
                  known_mode = known;
                  known_tags = tags_loop-lt raw.gametype 0 (omega arith);
                })
        ]
      ]
    ]
  ]

  parse_server_infos-IsListed :
      (m : HashMap ℕ) (raws : List (ServerInfoJson floats))
      → IsMode m
      → All IsListed (parse_server_infos floats SocketAddr parse_addr m raws)
  unfolding parse_server_infos
  parse_server_infos-IsListed m [] modes = tt
  parse_server_infos-IsListed m (raw ∷ raws) modes =
      elim (Option-cases (parse_server floats SocketAddr parse_addr m raw)) [
        | inl left_out ↦
            rw (parse_server_infos, left_out) (parse_server_infos-IsListed m raws modes)
        | inr (s, parsed) ↦
            rw (parse_server_infos, parsed)
              (parse_server-IsListed m raw s modes parsed, parse_server_infos-IsListed m raws modes)
      ]

  module _ (schema_from_slice : List ℕ → Option (HashMap (List ℕ)))
      (servers_from_slice : List ℕ → Option (List (ServerInfoJson floats))) where
    or_kept-IsListed :
        (r : Outcome RefreshError (List (ServerInfo floats SocketAddr)))
        (servers : List (ServerInfo floats SocketAddr))
        → ((server_list : List (ServerInfo floats SocketAddr))
            → r ≡ ok server_list
            → All IsListed server_list)
        → All IsListed servers
        → All IsListed
            (or_kept floats SocketAddr parse_addr schema_from_slice servers_from_slice r servers)
    or_kept-IsListed (ok server_list) servers new old = new server_list refl
    or_kept-IsListed (err e) servers new old = old
    or_kept-IsListed panic servers new old = old
    or_kept-IsListed stuck servers new old = old

    update_schema-IsMode :
        (configuration : Configuration) (files : Files) (schema : HashMap ℕ)
        → update_schema floats SocketAddr parse_addr schema_from_slice servers_from_slice files
            configuration
          ≡ ok schema
        → IsMode schema
    unfolding update_schema parse_schema_from_json
    update_schema-IsMode configuration files schema e =
        let (schema_data, _, e1) =
          bind_ok (ok_or (files configuration.quickplay.schema_path) io)
            (parse_schema_from_json floats SocketAddr parse_addr schema_from_slice
              servers_from_slice)
            e in
        let (raw_schema, _, e2) =
          bind_ok (ok_or (schema_from_slice schema_data) json) (λ raw. ok (parse_schema raw)) e1 in
        subst IsMode (ok-injective e2) (parse_schema-IsMode raw_schema)

    update_server_info-IsListed :
        (configuration : Configuration) (files : Files) (schema : HashMap ℕ)
        (server_list : List (ServerInfo floats SocketAddr))
        → IsMode schema
        → update_server_info floats SocketAddr parse_addr schema_from_slice servers_from_slice files
            configuration schema
          ≡ ok server_list
        → All IsListed server_list
    unfolding update_server_info parse_server_infos_from_json
    update_server_info-IsListed configuration files schema server_list modes e =
        let (data', _, e1) =
          bind_ok (ok_or (files configuration.quickplay.server_list_path) io)
            (λ x.
              parse_server_infos_from_json floats SocketAddr parse_addr schema_from_slice
                servers_from_slice x schema)
            e in
        let (raw_servers, _, e2) =
          bind_ok (ok_or (servers_from_slice data') json)
            (λ raw. ok (parse_server_infos floats SocketAddr parse_addr schema raw)) e1 in
        subst (All IsListed) (ok-injective e2)
          (parse_server_infos-IsListed schema raw_servers modes)

    refresh-IsListed :
        (configuration : Configuration) (files : Files × Files)
        (servers : List (ServerInfo floats SocketAddr))
        → All IsListed servers
        → All IsListed (
            refresh floats SocketAddr parse_addr schema_from_slice servers_from_slice configuration
              files servers)
    unfolding refresh
    refresh-IsListed configuration (first, second) servers old =
        let updated =
          update_schema floats SocketAddr parse_addr schema_from_slice servers_from_slice first
            configuration in
        let info =
          update_server_info floats SocketAddr parse_addr schema_from_slice servers_from_slice
            second configuration in
        or_kept-IsListed (updated >>= info) servers
          (λ server_list e.
            let (schema, e1, e2) = bind_ok updated info e in
            update_server_info-IsListed configuration second schema server_list
              (update_schema-IsMode configuration first schema e1) e2)
          old

    run_background-IsListed :
        (configuration : Configuration) (rounds : List (Files × Files))
        (servers : List (ServerInfo floats SocketAddr))
        → All IsListed servers
        → All IsListed (
            run_background floats SocketAddr parse_addr schema_from_slice servers_from_slice
              configuration rounds servers)
    unfolding run_background
    run_background-IsListed configuration [] servers h = h
    run_background-IsListed configuration (files ∷ later) servers h =
        run_background-IsListed configuration later _
          (refresh-IsListed configuration files servers h)

    -- Whatever the two files hold from time to time, and whether or not they can be read and parsed,
    -- every server of the list has at most 255 players and places, a game mode that has a name, and
    -- no tags but the seven of the program.
    pub server_list-IsListed :
        (configuration : Configuration) (rounds : List (Files × Files))
        → All IsListed (
            server_list floats SocketAddr parse_addr schema_from_slice servers_from_slice
              configuration rounds)
    unfolding server_list
    server_list-IsListed configuration rounds = run_background-IsListed configuration rounds [] tt
