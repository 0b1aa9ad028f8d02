-- ===== src/Configuration.antt =====
-- src/configuration.rs. Reading the file and its TOML is left to the crates that do it.
use quickplay_server.Base.{ℕ, List, Option, Outcome, ◌>>=◌, ok_or, bytes}

pub record QuickplayConfiguration : Type 0 where
  pub preference_convar_prefix : List ℕ
  pub server_list_path : List ℕ
  pub schema_path : List ℕ

pub record ServerConfiguration : Type 0 where
  pub bind_address : List ℕ
  pub connection_update_delay : ℕ
  pub connection_timeout : ℕ
  pub max_reliable_packet_size : ℕ
  pub max_packets_dropped : ℕ
  pub app_id : ℕ
  pub app_desc : List ℕ
  pub app_version : List ℕ
  pub server_name : List ℕ

pub record Configuration : Type 0 where
  pub server : ServerConfiguration
  pub quickplay : QuickplayConfiguration

abbrev pub load_default : Configuration
load_default = record {
  server = record {
    bind_address = bytes "127.0.0.2:4444";
    connection_update_delay = 150;
    connection_timeout = 20_000;
    max_reliable_packet_size = 1024;
    max_packets_dropped = 5000;
    app_id = 440;
    app_desc = bytes "Team Fortress 2";
    app_version = bytes "";
    server_name = bytes "Quickplay";
  };
  quickplay = record {
    preference_convar_prefix = bytes "rqp_";
    server_list_path = bytes "/invalid/path.json";
    schema_path = bytes "/invalid/path.json";
  };
}

-- A file that cannot be read, or that is no configuration.
pub data LoadError : Type 0 where
  io toml : LoadError

-- `std::fs::read_to_string`, at the time of the call, and `toml::from_str`.
module _ (read_to_string : List ℕ → Option (List ℕ))
    (from_str : List ℕ → Option Configuration) where
  unfoldable pub load_from_file : List ℕ → Outcome LoadError Configuration
  load_from_file path = do data' ← ok_or (read_to_string path) io; ok_or (from_str data') toml
