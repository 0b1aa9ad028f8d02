-- ===== src/Quickplay/Preferences.antt =====
-- src/quickplay/session.rs: a user's preferences, how a convar changes them, and the tags that they
-- ask for.
pub mod Kept
use quickplay_server.Base.{
  ℕ, zero, suc, ◌+◌, ◌-◌, ◌*◌, ◌^◌, bit_and, bit_or, bit_xor, Bool, ◌&&◌, List, [], ◌∷◌, Option,
  none, some, Outcome, ok, err, panic, ◌>>=◌, ok_or, ltb, leb, ◌==◌, if◌then◌else◌, bytes, eq_bytes,
  strip_prefix, set, length, replicate,
}
use quickplay_server.Quickplay.Gamemodes

abbrev pub max_map_bans : ℕ
max_map_bans = 6

pub data RandomCritsPreference : Type 0 where
  disabled enabled dont_care : RandomCritsPreference

unfoldable pub random_crits_from : ℕ → Option RandomCritsPreference
random_crits_from zero = some RandomCritsPreference.disabled
random_crits_from (suc zero) = some RandomCritsPreference.enabled
random_crits_from (suc (suc zero)) = some RandomCritsPreference.dont_care
random_crits_from (suc (suc (suc n))) = none

pub data RespawnTimesPreference : Type 0 where
  default instant dont_care : RespawnTimesPreference

unfoldable pub respawn_times_from : ℕ → Option RespawnTimesPreference
respawn_times_from zero = some RespawnTimesPreference.default
respawn_times_from (suc zero) = some RespawnTimesPreference.instant
respawn_times_from (suc (suc zero)) = some RespawnTimesPreference.dont_care
respawn_times_from (suc (suc (suc n))) = none

pub data RtdPreference : Type 0 where
  disabled enabled dont_care : RtdPreference

unfoldable pub rtd_from : ℕ → Option RtdPreference
rtd_from zero = some RtdPreference.disabled
rtd_from (suc zero) = some RtdPreference.enabled
rtd_from (suc (suc zero)) = some RtdPreference.dont_care
rtd_from (suc (suc (suc n))) = none

pub data ClassRestrictionsPreference : Type 0 where
  unrestricted limits limits_and_bans : ClassRestrictionsPreference

unfoldable pub class_restrictions_from : ℕ → Option ClassRestrictionsPreference
class_restrictions_from zero = some ClassRestrictionsPreference.unrestricted
class_restrictions_from (suc zero) = some ClassRestrictionsPreference.limits
class_restrictions_from (suc (suc zero)) = some ClassRestrictionsPreference.limits_and_bans
class_restrictions_from (suc (suc (suc n))) = none

pub data ObjectivesPreference : Type 0 where
  disabled enabled dont_care : ObjectivesPreference

unfoldable pub objectives_from : ℕ → Option ObjectivesPreference
objectives_from zero = some ObjectivesPreference.disabled
objectives_from (suc zero) = some ObjectivesPreference.enabled
objectives_from (suc (suc zero)) = some ObjectivesPreference.dont_care
objectives_from (suc (suc (suc n))) = none

pub data PreferenceDecodeError : Type 0 where
  unparseable_value invalid_value unknown_preference : PreferenceDecodeError

pub record QuickplayPreferences : Type 0 where
  pub random_crits : RandomCritsPreference
  pub respawn_times : RespawnTimesPreference
  pub rtd : RtdPreference
  pub class_restrictions : ClassRestrictionsPreference
  pub objectives : ObjectivesPreference
  pub party_size : ℕ
  pub map_bans : List (Option (List ℕ))
  pub gamemodes : ℕ

-- `QuickplayPreferences::default`.
abbrev pub default_preferences : QuickplayPreferences
default_preferences = record {
  random_crits = RandomCritsPreference.dont_care;
  respawn_times = RespawnTimesPreference.default;
  rtd = RtdPreference.disabled;
  class_restrictions = ClassRestrictionsPreference.unrestricted;
  objectives = ObjectivesPreference.enabled;
  party_size = 1;
  map_bans = replicate max_map_bans none;
  gamemodes = bit_xor Gamemodes.all (bit_or Gamemodes.alternative Gamemodes.arena);
}

abbrev pub Result : Type 0 → Type 0
Result A = Outcome PreferenceDecodeError A

-- `str::parse` of an unsigned number below `limit`: an optional plus sign, then digits.
abbrev is_digit : ℕ → Bool
is_digit c = leb b'0' c && leb c b'9'

unfoldable pub parse_digits : ℕ → ℕ → List ℕ → Option ℕ
parse_digits limit n [] = some n
parse_digits limit n (c ∷ cs) =
    let n' = n * 10 + (c - b'0') in
    let more = parse_digits limit n' cs in if is_digit c && ltb n' limit then more else none

unfoldable pub parse_unsigned : ℕ → List ℕ → Option ℕ
unfolding parse_digits
parse_unsigned limit [] = none
parse_unsigned limit (c ∷ []) = parse_digits limit 0 (c ∷ [])
parse_unsigned limit (c ∷ d ∷ cs) =
    if c == b'+' then parse_digits limit 0 (d ∷ cs) else parse_digits limit 0 (c ∷ d ∷ cs)

-- `decode_enum_preference`, given `try_from_primitive` of the type.
unfoldable pub decode_enum_preference : {P : Type 0} → (ℕ → Option P) → List ℕ → Result P
unfolding parse_unsigned
decode_enum_preference try_from value = do
  n ← ok_or (parse_unsigned 256 value) unparseable_value
  ok_or (try_from n) invalid_value

-- The assignment to an element of the array `map_bans`, which panics out of range.
unfoldable pub set_map_ban : List (Option (List ℕ)) → ℕ → List ℕ → Result (List (Option (List ℕ)))
set_map_ban slots slot_index value =
    if leb (length slots) slot_index then panic else ok (set slots slot_index (some value))

-- `map_ban_<slot>`.
unfoldable pub update_map_ban : QuickplayPreferences → List ℕ → List ℕ → Result QuickplayPreferences
unfolding parse_unsigned set_map_ban
update_map_ban p slot_index_str value = do
  slot_index ← ok_or (parse_unsigned (2 ^ 64) slot_index_str) unknown_preference
  let assigned = do
    slots ← set_map_ban p.map_bans slot_index value
    ok (record p { map_bans = slots })
  if leb (length p.map_bans) slot_index then err unknown_preference else assigned

-- `gamemode_<mode>`: off or on.
unfoldable pub update_gamemode :
    QuickplayPreferences → List ℕ → List ℕ → Result QuickplayPreferences
update_gamemode p name value = do
  gamemode ← ok_or (Gamemodes.from_str name) unknown_preference
  if eq_bytes value (bytes "0")
      then ok (record p { gamemodes = bit_and p.gamemodes (bit_xor gamemode Gamemodes.all) })
      else if eq_bytes value (bytes "1")
      then ok (record p { gamemodes = bit_or p.gamemodes gamemode })
      else err invalid_value

-- The preferences with a name of their own.
unfoldable pub update_named : QuickplayPreferences → List ℕ → List ℕ → Result QuickplayPreferences
unfolding decode_enum_preference
update_named p name value =
    let crits = do
      x ← decode_enum_preference random_crits_from value
      ok (record p { random_crits = x })
    in let respawn = do
      x ← decode_enum_preference respawn_times_from value
      ok (record p { respawn_times = x })
      in let dice = do x ← decode_enum_preference rtd_from value; ok (record p { rtd = x })
        in let classes = do
          x ← decode_enum_preference class_restrictions_from value
          ok (record p { class_restrictions = x })
          in let goals = do
            x ← decode_enum_preference objectives_from value
            ok (record p { objectives = x })
            in let party = do
              n ← ok_or (parse_unsigned 256 value) unparseable_value
              ok (record p { party_size = n })
              in if eq_bytes name (bytes "random_crits")
                then crits
                else if eq_bytes name (bytes "respawn_times")
                then respawn
                else if eq_bytes name (bytes "rtd")
                then dice
                else if eq_bytes name (bytes "class_restrictions")
                then classes
                else if eq_bytes name (bytes "objectives")
                then goals
                else if eq_bytes name (bytes "party_size")
                then party
                else err unknown_preference

unfoldable pub update_preference :
    QuickplayPreferences → List ℕ → List ℕ → Result QuickplayPreferences
unfolding update_map_ban update_gamemode update_named
update_preference p name value = elim (strip_prefix (bytes "map_ban_") name) [
  | some slot_index_str ↦ update_map_ban p slot_index_str value
  | none ↦ elim (strip_prefix (bytes "gamemode_") name) [
    | some gamemode ↦ update_gamemode p gamemode value
    | none ↦ update_named p name value
  ]
]
