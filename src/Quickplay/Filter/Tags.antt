-- ===== src/Quickplay/Filter/Tags.antt =====
-- What the tags that the preferences ask for mean, preference by preference.
use quickplay_server.Base.{
  [], ℕ, ◌/◌, ◌%◌, ◌^◌, ◌<◌, Bool, true, false, not, ◌&&◌, ◌≡◌, refl, ◌==◌, every_below,
  passes_below, arith,
}
use quickplay_server.Quickplay.Preferences.{
  RandomCritsPreference, RespawnTimesPreference, RtdPreference, ClassRestrictionsPreference,
  ObjectivesPreference, QuickplayPreferences,
}
use quickplay_server.Quickplay.Filter.{build_filter_tags, tags_pass}

-- Bit `i` of the tags, by division.
abbrev pub has_tag : ℕ → ℕ → Bool
has_tag tags i = tags / 2 ^ i % 2 == 1

abbrev crits_allow : RandomCritsPreference → ℕ → Bool
crits_allow RandomCritsPreference.enabled tags = not (has_tag tags 0)
crits_allow RandomCritsPreference.disabled tags = has_tag tags 0
crits_allow RandomCritsPreference.dont_care tags = true

abbrev respawn_allow : RespawnTimesPreference → ℕ → Bool
respawn_allow RespawnTimesPreference.default tags = not (has_tag tags 1) && not (has_tag tags 2)
respawn_allow RespawnTimesPreference.instant tags = has_tag tags 1
respawn_allow RespawnTimesPreference.dont_care tags = true

abbrev rtd_allow : RtdPreference → ℕ → Bool
rtd_allow RtdPreference.enabled tags = has_tag tags 3
rtd_allow RtdPreference.disabled tags = not (has_tag tags 3)
rtd_allow RtdPreference.dont_care tags = true

abbrev class_allow : ClassRestrictionsPreference → ℕ → Bool
class_allow ClassRestrictionsPreference.unrestricted tags =
    not (has_tag tags 4) && not (has_tag tags 5)
class_allow ClassRestrictionsPreference.limits tags = has_tag tags 5
class_allow ClassRestrictionsPreference.limits_and_bans tags = true

abbrev objectives_allow : ObjectivesPreference → ℕ → Bool
objectives_allow ObjectivesPreference.enabled tags = not (has_tag tags 6)
objectives_allow ObjectivesPreference.disabled tags = has_tag tags 6
objectives_allow ObjectivesPreference.dont_care tags = true

-- Each preference allows the tags by itself.
unfoldable pub tags_allowed : QuickplayPreferences → ℕ → Bool
tags_allowed p tags =
    crits_allow p.random_crits tags
    && (respawn_allow p.respawn_times tags
        && (rtd_allow p.rtd tags
            && (class_allow p.class_restrictions tags && objectives_allow p.objectives tags)))

-- Preferences with these five.
abbrev of_five :
    RandomCritsPreference
    → RespawnTimesPreference
    → RtdPreference
    → ClassRestrictionsPreference
    → ObjectivesPreference
    → QuickplayPreferences
of_five c r d k o = record {
  random_crits = c;
  respawn_times = r;
  rtd = d;
  class_restrictions = k;
  objectives = o;
  party_size = 0;
  map_bans = [];
  gamemodes = 0;
}

eq_bool : Bool → Bool → Bool
eq_bool true b = b
eq_bool false b = not b

eq_bool→eq : (a b : Bool) → eq_bool a b ≡ true → a ≡ b
unfolding eq_bool
eq_bool→eq true b h = ground arith
eq_bool→eq false b h = ground arith

-- The code and the description agree on tags of eight bits.
agree : QuickplayPreferences → ℕ → Bool
agree p tags = eq_bool (tags_pass tags (build_filter_tags p)) (tags_allowed p tags)

-- The checks over each preference in turn.
each_crits : (RandomCritsPreference → Bool) → Bool
each_crits f =
    f RandomCritsPreference.disabled
    && (f RandomCritsPreference.enabled && f RandomCritsPreference.dont_care)

each_respawn : (RespawnTimesPreference → Bool) → Bool
each_respawn f =
    f RespawnTimesPreference.default
    && (f RespawnTimesPreference.instant && f RespawnTimesPreference.dont_care)

each_rtd : (RtdPreference → Bool) → Bool
each_rtd f = f RtdPreference.disabled && (f RtdPreference.enabled && f RtdPreference.dont_care)

each_class : (ClassRestrictionsPreference → Bool) → Bool
each_class f =
    f ClassRestrictionsPreference.unrestricted
    && (f ClassRestrictionsPreference.limits && f ClassRestrictionsPreference.limits_and_bans)

each_objectives : (ObjectivesPreference → Bool) → Bool
each_objectives f =
    f ObjectivesPreference.disabled
    && (f ObjectivesPreference.enabled && f ObjectivesPreference.dont_care)

each_crits_sound :
    (f : RandomCritsPreference → Bool) (x : RandomCritsPreference)
    → each_crits f ≡ true
    → f x ≡ true
unfolding each_crits
each_crits_sound f RandomCritsPreference.disabled h = ground arith
each_crits_sound f RandomCritsPreference.enabled h = ground arith
each_crits_sound f RandomCritsPreference.dont_care h = ground arith

each_respawn_sound :
    (f : RespawnTimesPreference → Bool) (x : RespawnTimesPreference)
    → each_respawn f ≡ true
    → f x ≡ true
unfolding each_respawn
each_respawn_sound f RespawnTimesPreference.default h = ground arith
each_respawn_sound f RespawnTimesPreference.instant h = ground arith
each_respawn_sound f RespawnTimesPreference.dont_care h = ground arith

each_rtd_sound : (f : RtdPreference → Bool) (x : RtdPreference) → each_rtd f ≡ true → f x ≡ true
unfolding each_rtd
each_rtd_sound f RtdPreference.disabled h = ground arith
each_rtd_sound f RtdPreference.enabled h = ground arith
each_rtd_sound f RtdPreference.dont_care h = ground arith

each_class_sound :
    (f : ClassRestrictionsPreference → Bool) (x : ClassRestrictionsPreference)
    → each_class f ≡ true
    → f x ≡ true
unfolding each_class
each_class_sound f ClassRestrictionsPreference.unrestricted h = ground arith
each_class_sound f ClassRestrictionsPreference.limits h = ground arith
each_class_sound f ClassRestrictionsPreference.limits_and_bans h = ground arith

each_objectives_sound :
    (f : ObjectivesPreference → Bool) (x : ObjectivesPreference)
    → each_objectives f ≡ true
    → f x ≡ true
unfolding each_objectives
each_objectives_sound f ObjectivesPreference.disabled h = ground arith
each_objectives_sound f ObjectivesPreference.enabled h = ground arith
each_objectives_sound f ObjectivesPreference.dont_care h = ground arith

abbrev table : RandomCritsPreference → RespawnTimesPreference → Bool
table c r =
    each_rtd λ d. each_class λ k. each_objectives λ o. every_below (agree (of_five c r d k o)) 256

agree_table : each_crits (λ c. each_respawn (table c)) ≡ true
unfolding each_crits each_respawn each_rtd each_class each_objectives agree every_below eq_bool
    tags_pass build_filter_tags tags_allowed
agree_table = refl

-- For any preferences and any server tags of 8 bits, the two masks that are built of all the
-- preferences pass exactly the tags that each of the five preferences allows by itself.
pub tags_pass-build_filter_tags :
    (p : QuickplayPreferences) (tags : ℕ)
    → tags < 256
    → tags_pass tags (build_filter_tags p) ≡ tags_allowed p tags
unfolding build_filter_tags tags_allowed
tags_pass-build_filter_tags p tags lt =
    unfold agree in eq_bool→eq _ _ (passes_below (agree q) 256 tags lt five)
  where
    q : QuickplayPreferences
    q = of_five p.random_crits p.respawn_times p.rtd p.class_restrictions p.objectives

    five : every_below (agree q) 256 ≡ true
    five = each_objectives_sound _ p.objectives (
        each_class_sound _ p.class_restrictions (
          each_rtd_sound _ p.rtd
            (each_respawn_sound _ p.respawn_times (each_crits_sound _ p.random_crits agree_table))))
