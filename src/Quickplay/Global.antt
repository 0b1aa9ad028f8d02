-- ===== src/Quickplay/Global.antt =====
-- src/quickplay/global.rs: tags and game modes as bit sets, the schema and the server list, from
-- the values that serde_json makes of the two files.
use quickplay_server.Base.{
  ℕ, bit_or, List, [], ◌∷◌, Option, none, some, ltb, if◌then◌else◌, bytes, eq_bytes,
}
use quickplay_server.Quickplay.Floats.{Floats}
use quickplay_server.Quickplay.Gamemodes
use quickplay_server.Quickplay.ServerTags

-- A `HashMap` with texts as keys.
abbrev pub HashMap : Type 0 → Type 0
HashMap V = List (List ℕ × V)

unfoldable pub lookup : {V : Type 0} → List ℕ → HashMap V → Option V
lookup k [] = none
lookup k ((j, v) ∷ m) = let later = lookup k m in if eq_bytes j k then some v else later

-- The entries of the schema whose mode is known.
unfoldable pub parse_schema : HashMap (List ℕ) → HashMap ℕ
parse_schema [] = []
parse_schema ((k, v) ∷ m) = elim (Gamemodes.from_str v) [
  | none ↦ parse_schema m
  | some g ↦ (k, g) ∷ parse_schema m
]

-- The flag of a tag, if it has one.
unfoldable pub tag_flag : List ℕ → Option ℕ
tag_flag str_tag =
    if eq_bytes str_tag (bytes "nocrits")
    then some ServerTags.no_crits
    else if eq_bytes str_tag (bytes "norespawntime")
    then some ServerTags.no_respawn_times
    else if eq_bytes str_tag (bytes "respawntimes")
    then some ServerTags.respawn_times
    else if eq_bytes str_tag (bytes "rtd")
    then some ServerTags.rtd
    else if eq_bytes str_tag (bytes "classlimits")
    then some ServerTags.class_limits
    else if eq_bytes str_tag (bytes "classbans")
    then some ServerTags.class_bans
    else if eq_bytes str_tag (bytes "nocap")
    then some ServerTags.no_objectives
    else none

abbrev add_tag : ℕ → Option ℕ → ℕ
add_tag tags none = tags
add_tag tags (some flag) = bit_or tags flag

-- The loop of `string_tags_to_flags`, with the flags found so far.
unfoldable pub tags_loop : ℕ → List (List ℕ) → ℕ
tags_loop tags [] = tags
tags_loop tags (t ∷ ts) = tags_loop (add_tag tags (tag_flag t)) ts

unfoldable pub string_tags_to_flags : List (List ℕ) → ℕ
unfolding tags_loop tag_flag
string_tags_to_flags str_tags = tags_loop 0 str_tags

-- `SocketAddr` and its parser, below, are the standard library's.
module _ (floats : Floats) where
  open floats use {F}

  pub record ServerInfoJson : Type 0 where
    pub addr : List ℕ
    pub players : ℕ
    pub max_players : ℕ
    pub map : List ℕ
    pub gametype : List (List ℕ)
    pub score : F
    pub ping : F

  pub record ServerInfo (SocketAddr : Type 0) : Type 0 where
    pub addr : SocketAddr
    pub players : ℕ
    pub max_players : ℕ
    pub map : List ℕ
    pub gamemode : ℕ
    pub tags : ℕ
    pub score : F
    pub ping : F

-- `u8::try_from`.
abbrev pub try_u8 : ℕ → Option ℕ
try_u8 n = if ltb n 256 then some n else none

infixl 5 ◌>>=◌
abbrev ◌>>=◌ : {A B : Type 0} → Option A → (A → Option B) → Option B
none >>= f = none
some a >>= f = f a

module _ (floats : Floats) (SocketAddr : Type 0) (parse_addr : List ℕ → Option SocketAddr) where
  -- One server, left out where the `?` of the closure returns early.
  unfoldable pub parse_server :
      HashMap ℕ → ServerInfoJson floats → Option (ServerInfo floats SocketAddr)
  unfolding lookup
  parse_server map_gamemodes raw = do
    gamemode ← lookup raw.map map_gamemodes
    addr ← parse_addr raw.addr
    players ← try_u8 raw.players
    max_players ← try_u8 raw.max_players
    some (record {
      addr = addr;
      players = players;
      max_players = max_players;
      map = raw.map;
      gamemode = gamemode;
      tags = string_tags_to_flags raw.gametype;
      score = raw.score;
      ping = raw.ping;
    })

  unfoldable pub parse_server_infos :
      HashMap ℕ → List (ServerInfoJson floats) → List (ServerInfo floats SocketAddr)
  parse_server_infos map_gamemodes [] = []
  parse_server_infos map_gamemodes (raw ∷ raws) = elim (parse_server map_gamemodes raw) [
    | none ↦ parse_server_infos map_gamemodes raws
    | some server ↦ server ∷ parse_server_infos map_gamemodes raws
  ]
