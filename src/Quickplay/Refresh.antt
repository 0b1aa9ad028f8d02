-- ===== src/Quickplay/Refresh.antt =====
-- `QuickplayGlobal` of src/quickplay/global.rs: the task that reads the schema and the server list
-- from their files, every ten seconds.
pub mod Listed
use quickplay_server.Base.{
  ℕ, List, [], ◌∷◌, Option, none, some, Outcome, ok, err, panic, stuck, ◌>>=◌, ok_or,
}
use quickplay_server.Configuration.{Configuration}
use quickplay_server.Quickplay.Floats.{Floats}
use quickplay_server.Quickplay.Global.{
  HashMap, ServerInfoJson, ServerInfo, parse_schema, parse_server_infos,
}

-- A file that cannot be read, or that is no JSON of the type that is asked for.
pub data RefreshError : Type 0 where
  io json : RefreshError

-- What the files of the system hold at one time.
abbrev pub Files : Type 0
Files = List ℕ → Option (List ℕ)

-- `serde_json::from_slice`, at its two types, is the crate's.
module _ (floats : Floats) (SocketAddr : Type 0) (parse_addr : List ℕ → Option SocketAddr)
    (schema_from_slice : List ℕ → Option (HashMap (List ℕ)))
    (servers_from_slice : List ℕ → Option (List (ServerInfoJson floats))) where
  unfoldable pub parse_schema_from_json : List ℕ → Outcome RefreshError (HashMap ℕ)
  parse_schema_from_json schema_data = do
    raw_schema ← ok_or (schema_from_slice schema_data) json
    ok (parse_schema raw_schema)

  unfoldable pub parse_server_infos_from_json :
      List ℕ → HashMap ℕ → Outcome RefreshError (List (ServerInfo floats SocketAddr))
  parse_server_infos_from_json data' schema = do
    raw_servers ← ok_or (servers_from_slice data') json
    ok (parse_server_infos floats SocketAddr parse_addr schema raw_servers)

  unfoldable pub update_schema : Files → Configuration → Outcome RefreshError (HashMap ℕ)
  unfolding parse_schema_from_json
  update_schema files configuration = do
    schema_data ← ok_or (files configuration.quickplay.schema_path) io
    parse_schema_from_json schema_data

  unfoldable pub update_server_info :
      Files → Configuration → HashMap ℕ → Outcome RefreshError (List (ServerInfo floats SocketAddr))
  unfolding parse_server_infos_from_json
  update_server_info files configuration schema = do
    server_list_data ← ok_or (files configuration.quickplay.server_list_path) io
    parse_server_infos_from_json server_list_data schema

  -- The list after a round, which an error leaves as it was.
  abbrev pub or_kept :
      Outcome RefreshError (List (ServerInfo floats SocketAddr))
      → List (ServerInfo floats SocketAddr)
      → List (ServerInfo floats SocketAddr)
  or_kept (ok server_list) servers = server_list
  or_kept (err e) servers = servers
  or_kept panic servers = servers
  or_kept stuck servers = servers

  -- One round; the two files are read one after the other, so they may be of different times.
  unfoldable pub refresh :
      Configuration
      → Files × Files
      → List (ServerInfo floats SocketAddr)
      → List (ServerInfo floats SocketAddr)
  unfolding update_schema update_server_info
  refresh configuration (first, second) servers =
      or_kept
        (do
          schema ← update_schema first configuration
          update_server_info second configuration schema)
        servers

  -- The rounds of `run_background` up to now, on the list that `new` starts from.
  unfoldable pub run_background :
      Configuration
      → List (Files × Files)
      → List (ServerInfo floats SocketAddr)
      → List (ServerInfo floats SocketAddr)
  unfolding refresh
  run_background configuration [] servers = servers
  run_background configuration (files ∷ later) servers =
      run_background configuration later (refresh configuration files servers)

  unfoldable pub server_list :
      Configuration → List (Files × Files) → List (ServerInfo floats SocketAddr)
  unfolding run_background
  server_list configuration rounds = run_background configuration rounds []
