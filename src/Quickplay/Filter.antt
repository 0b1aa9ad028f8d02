-- ===== src/Quickplay/Filter.antt =====
-- src/quickplay/session.rs: which servers a user's preferences let through.
pub mod Tags
use quickplay_server.Base.{
  ℕ, bit_and, bit_or, Bool, true, false, not, ◌&&◌, List, [], ◌∷◌, Option, none, some, ◌==◌,
  if◌then◌else◌, eq_bytes,
}
use quickplay_server.Quickplay.ServerTags
use quickplay_server.Quickplay.Preferences.{
  RandomCritsPreference, RespawnTimesPreference, RtdPreference, ClassRestrictionsPreference,
  ObjectivesPreference, QuickplayPreferences,
}

-- `must_match_tags` and `must_not_match_tags`.
pub record FilterTags : Type 0 where
  pub must : ℕ
  pub must_not : ℕ

abbrev require : ℕ → FilterTags → FilterTags
require tags t = record t { must = bit_or t.must tags }

abbrev forbid : ℕ → FilterTags → FilterTags
forbid tags t = record t { must_not = bit_or t.must_not tags }

abbrev crits_tags : RandomCritsPreference → FilterTags → FilterTags
crits_tags RandomCritsPreference.enabled t = forbid ServerTags.no_crits t
crits_tags RandomCritsPreference.disabled t = require ServerTags.no_crits t
crits_tags RandomCritsPreference.dont_care t = t

abbrev respawn_tags : RespawnTimesPreference → FilterTags → FilterTags
respawn_tags RespawnTimesPreference.default t =
    forbid (bit_or ServerTags.respawn_times ServerTags.no_respawn_times) t
respawn_tags RespawnTimesPreference.instant t = require ServerTags.no_respawn_times t
respawn_tags RespawnTimesPreference.dont_care t = t

abbrev rtd_tags : RtdPreference → FilterTags → FilterTags
rtd_tags RtdPreference.enabled t = require ServerTags.rtd t
rtd_tags RtdPreference.disabled t = forbid ServerTags.rtd t
rtd_tags RtdPreference.dont_care t = t

abbrev class_tags : ClassRestrictionsPreference → FilterTags → FilterTags
class_tags ClassRestrictionsPreference.unrestricted t =
    forbid (bit_or ServerTags.class_limits ServerTags.class_bans) t
class_tags ClassRestrictionsPreference.limits t = require ServerTags.class_bans t
class_tags ClassRestrictionsPreference.limits_and_bans t = t

abbrev objectives_tags : ObjectivesPreference → FilterTags → FilterTags
objectives_tags ObjectivesPreference.enabled t = forbid ServerTags.no_objectives t
objectives_tags ObjectivesPreference.disabled t = require ServerTags.no_objectives t
objectives_tags ObjectivesPreference.dont_care t = t

unfoldable pub build_filter_tags : QuickplayPreferences → FilterTags
build_filter_tags p = objectives_tags p.objectives (
    class_tags p.class_restrictions (
      rtd_tags p.rtd (
        respawn_tags p.respawn_times
          (crits_tags p.random_crits (record { must = 0; must_not = 0 })))))

-- Some slot holds the map.
unfoldable pub is_banned : List ℕ → List (Option (List ℕ)) → Bool
is_banned map [] = false
is_banned map (none ∷ bans) = is_banned map bans
is_banned map (some banned_map ∷ bans) =
    let later = is_banned map bans in if eq_bytes map banned_map then true else later

-- The two tests of the tags.
unfoldable pub tags_pass : ℕ → FilterTags → Bool
tags_pass tags t =
    if not (bit_and tags t.must == t.must) then false else bit_and tags t.must_not == 0

-- `filter_server`, of a server by its game mode, its tags and its map.
unfoldable pub filter_server : QuickplayPreferences → ℕ → ℕ → List ℕ → FilterTags → Bool
unfolding tags_pass is_banned
filter_server p gamemode tags map t =
    if not (bit_and p.gamemodes gamemode == gamemode)
    then false
    else if not (tags_pass tags t)
    then false
    else not (is_banned map p.map_bans)
