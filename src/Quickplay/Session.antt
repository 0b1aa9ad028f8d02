-- ===== src/Quickplay/Session.antt =====
-- src/quickplay/session.rs: a session updates its preferences from convars and chooses a server.
pub mod Search
pub mod Convars
use quickplay_server.Base.{
  ℕ, Bool, true, false, not, List, [], ◌∷◌, ◌++◌, Option, none, some, Outcome, ok, err, panic,
  stuck, if◌then◌else◌, bytes, strip_prefix,
}
use quickplay_server.Configuration.{Configuration}
use quickplay_server.Quickplay.Floats.{Floats}
use quickplay_server.Quickplay.Global.{ServerInfo}
use quickplay_server.Quickplay.Preferences.{
  PreferenceDecodeError, unparseable_value, invalid_value, unknown_preference, QuickplayPreferences,
  update_preference,
}
use quickplay_server.Quickplay.Filter.{FilterTags, build_filter_tags, filter_server}
use quickplay_server.Quickplay.Score.{recalculate_server_score}

-- `{name}` and `{value}` in quotes.
abbrev quoted : List ℕ → List ℕ
quoted s = bytes "\"" ++ (s ++ bytes "\"")

unfoldable pub error_message : PreferenceDecodeError → List ℕ → List ℕ → List ℕ
error_message unparseable_value name value =
    bytes "Could not decode value for preference " ++ (quoted name ++ (bytes ": " ++ quoted value))
error_message invalid_value name value =
    bytes "Invalid value for preference " ++ (quoted name ++ (bytes ": " ++ quoted value))
error_message unknown_preference name value = bytes "Unknown preference " ++ quoted name

abbrev is_empty : List ℕ → Bool
is_empty [] = true
is_empty (c ∷ cs) = false

-- One convar: the name of the preference, if it is one that has a value.
unfoldable pub preference_name : List ℕ → List ℕ × List ℕ → Option (List ℕ)
preference_name prefix (name, value) = if is_empty value then none else strip_prefix prefix name

-- The loop over the convars; the preferences stay as the convars before an error left them.
unfoldable pub update_preferences :
    List ℕ
    → List (List ℕ × List ℕ)
    → QuickplayPreferences
    → Outcome (List ℕ) (Unit {0}) × QuickplayPreferences
update_preferences prefix [] p = (ok tt, p)
update_preferences prefix ((name, value) ∷ convars) p =
    elim (preference_name prefix (name, value)) [
      | none ↦ update_preferences prefix convars p
      | some pref ↦ elim (update_preference p pref value) [
        | ok p' ↦ update_preferences prefix convars p'
        | err e ↦ (err (error_message e pref value), p)
        | panic ↦ (panic, p)
        | stuck ↦ (stuck, p)
      ]
    ]

unfoldable pub update_preferences_from_convars :
    Configuration
    → List (List ℕ × List ℕ)
    → QuickplayPreferences
    → Outcome (List ℕ) (Unit {0}) × QuickplayPreferences
unfolding update_preferences
update_preferences_from_convars c convars p =
    update_preferences c.quickplay.preference_convar_prefix convars p

module _ (floats : Floats) (SocketAddr : Type 0) where
  open floats use {F, decimal, gt, le}

  abbrev pub Server : Type 0
  Server = ServerInfo floats SocketAddr

  abbrev pub score_of : QuickplayPreferences → Server → F
  score_of p s = recalculate_server_score floats s.score p.party_size s.players s.max_players

  abbrev pub passes : QuickplayPreferences → FilterTags → Server → Bool
  passes p t s = filter_server p s.gamemode s.tags s.map t

  -- The server that is kept of the best one so far and `s`.
  unfoldable pub better : QuickplayPreferences → Option (Server × F) → Server → Option (Server × F)
  better p none s = some (s, score_of p s)
  better p (some (b, best_score)) s =
      if gt (score_of p s) best_score then some (s, score_of p s) else some (b, best_score)

  -- The loop over the servers.
  unfoldable pub search_servers :
      QuickplayPreferences → FilterTags → Option (Server × F) → List Server → Option (Server × F)
  unfolding better
  search_servers p t best [] = best
  search_servers p t best (s ∷ servers) =
      let skip = search_servers p t best servers in
      let keep = search_servers p t (better p best s) servers in
      if not (passes p t s) then skip else if le (score_of p s) (decimal 1 0) then skip else keep

  -- The address of the server that was found.
  abbrev pub address_of : Option (Server × F) → Option SocketAddr
  address_of none = none
  address_of (some (s, _)) = some s.addr

  unfoldable pub find_server : QuickplayPreferences → List Server → Option SocketAddr
  unfolding search_servers
  find_server p server_list = address_of (search_servers p (build_filter_tags p) none server_list)
