-- ===== src/Quickplay/Tests.antt =====
-- The choice of a server on concrete values.
use quickplay_server.Base.{
  ℕ, ◌≡◌, ◌⊎◌, refl, List, [], ◌∷◌, some, none, bytes, arith, All, Option, length, map,
}
use mathlib.Core.List.{Memᴰ}
use quickplay_server.Quickplay.Floats.Whole.{whole_numbers}
use quickplay_server.Quickplay.Preferences.{default_preferences}
use quickplay_server.Quickplay.Gamemodes
use quickplay_server.Quickplay.Global.{
  HashMap, ServerInfoJson, lookup, parse_schema, parse_server, parse_server_infos,
  string_tags_to_flags,
}
use quickplay_server.Quickplay.Refresh.{Files, server_list}
use quickplay_server.Quickplay.Refresh.Listed.{IsListed, server_list-IsListed}
use quickplay_server.Quickplay.Filter.{build_filter_tags, tags_pass, filter_server}
use quickplay_server.Quickplay.Score.{recalculate_server_score}
use quickplay_server.Quickplay.Filter.Tags.{tags_allowed, tags_pass-build_filter_tags}
use quickplay_server.Configuration.{load_default}
use quickplay_server.Quickplay.Session.Convars.{
  EndsWithSlots, update_preferences_from_convars-EndsWithSlots,
}
use quickplay_server.Quickplay.Session.{
  update_preferences_from_convars, Server, score_of, find_server,
}
use quickplay_server.Quickplay.Session.Search.{IsCandidate, IsUnbeaten, find_server-Optimal}

abbrev server : ℕ → ℕ → Server whole_numbers ℕ
server addr score = record {
  addr = addr;
  players = 12;
  max_players = 24;
  map = bytes "cp_dustbowl";
  gamemode = 1;
  tags = 0;
  score = score;
  ping = 0;
}

abbrev servers : List (Server whole_numbers ℕ)
servers = server 1 3 ∷ server 2 9 ∷ server 3 5 ∷ []

find_server-Optimal_example :
    ((find_server whole_numbers ℕ default_preferences servers ≡ none)
      × All
          (λ s.
            ¬ IsCandidate whole_numbers ℕ default_preferences
              (build_filter_tags default_preferences)
              s)
          servers)
    ⊎ ((r : Server whole_numbers ℕ) × (find_server whole_numbers ℕ default_preferences servers
          ≡ some r.addr)
        × IsCandidate whole_numbers ℕ default_preferences (build_filter_tags default_preferences) r
        × Memᴰ r servers
        × IsUnbeaten whole_numbers ℕ default_preferences
            (build_filter_tags default_preferences)
            (score_of whole_numbers ℕ default_preferences r)
            servers)
find_server-Optimal_example = find_server-Optimal whole_numbers ℕ default_preferences servers

found : find_server whole_numbers ℕ default_preferences servers ≡ some 2
unfolding find_server filter_server build_filter_tags recalculate_server_score
found = refl

tags_pass-build_filter_tags_example :
    tags_pass 32 (build_filter_tags default_preferences) ≡ tags_allowed default_preferences 32
tags_pass-build_filter_tags_example =
    tags_pass-build_filter_tags default_preferences 32 (omega arith)

-- A ban, a value that is no preference's, and a convar of something else.
abbrev some_convars : List (List ℕ × List ℕ)
some_convars =
    (bytes "rqp_map_ban_2", bytes "cp_dustbowl")
    ∷ (bytes "name", bytes "player")
    ∷ (bytes "rqp_rtd", bytes "7")
    ∷ []

update_preferences_from_convars-EndsWithSlots_example :
    EndsWithSlots 6 (update_preferences_from_convars load_default some_convars default_preferences)
update_preferences_from_convars-EndsWithSlots_example =
    update_preferences_from_convars-EndsWithSlots load_default some_convars default_preferences

-- Files of which each is the schema and the server list at the same time.
abbrev files : Files
files path = some path

abbrev one_mode : List ℕ → Option (HashMap (List ℕ))
one_mode data' = some ((bytes "koth_king", bytes "koth") ∷ [])

abbrev one_server : List ℕ → Option (List (ServerInfoJson whole_numbers))
one_server data' = some (
    record {
      addr = bytes "1";
      players = 12;
      max_players = 24;
      map = bytes "koth_king";
      gametype = bytes "nocrits" ∷ bytes "koth" ∷ [];
      score = 3;
      ping = 20;
    }
    ∷ [])

abbrev parse_addr : List ℕ → Option ℕ
parse_addr text = some (length text)

server_list-IsListed_example :
    All (IsListed whole_numbers ℕ parse_addr) (
      server_list whole_numbers ℕ parse_addr one_mode one_server load_default ((files, files) ∷ []))
server_list-IsListed_example =
    server_list-IsListed whole_numbers ℕ parse_addr one_mode one_server load_default
      ((files, files) ∷ [])

listed_tags :
    map
      (λ s. s.tags)
      (server_list whole_numbers ℕ parse_addr one_mode one_server load_default
        ((files, files) ∷ []))
    ≡ 1 ∷ []
unfolding server_list parse_server_infos parse_server string_tags_to_flags parse_schema lookup
    Gamemodes.from_str
listed_tags = refl
