-- ===== src/Server/Main.antt =====
-- `main` of src/main.rs: the choice of the configuration, and the server that it starts.
use quickplay_server.Base.{
  ℕ, Bool, List, Option, none, some, Outcome, ok, err, ◌>>=◌, ok_or, map_err, if◌then◌else◌,
}
use quickplay_server.Configuration.{Configuration, LoadError, load_default, load_from_file}
use quickplay_server.Server.Table.{Server, new_server}

pub record Arguments : Type 0 where
  pub configuration : Option (List ℕ)
  pub dump_configuration : Bool

-- The calls of `main` that can fail.
pub data StartError : Type 0 where
  load : LoadError → StartError
  toml addr_parse bind : StartError

-- What the program comes to: a text on the standard output, or a server at an address.
pub data Started (SocketAddr : Type 0) : Type 0 where
  dumped : List ℕ → Started SocketAddr
  serving : SocketAddr → Server SocketAddr → Started SocketAddr

-- `can_bind` tells whether the system has the address free; `to_string_pretty` is that of toml.
module _ {SocketAddr : Type 0} (parse_addr : List ℕ → Option SocketAddr)
    (can_bind : SocketAddr → Bool) (read_to_string : List ℕ → Option (List ℕ))
    (from_str : List ℕ → Option Configuration)
    (to_string_pretty : Configuration → Option (List ℕ)) where
  -- `Server::new`.
  unfoldable pub start_server : Configuration → Outcome StartError (Started SocketAddr)
  unfolding new_server
  start_server configuration = do
    bind_address ← ok_or (parse_addr configuration.server.bind_address) addr_parse
    if can_bind bind_address then ok (serving bind_address (new_server configuration)) else err bind

  unfoldable pub choose_configuration : Option (List ℕ) → Outcome StartError Configuration
  unfolding load_from_file
  choose_configuration (some path) = map_err load (load_from_file read_to_string from_str path)
  choose_configuration none = ok load_default

  unfoldable pub main : Arguments → Outcome StartError (Started SocketAddr)
  unfolding start_server choose_configuration
  main args = do
    configuration ← choose_configuration args.configuration
    let dump = do text ← ok_or (to_string_pretty configuration) toml; ok (dumped text)
    if args.dump_configuration then dump else start_server configuration
