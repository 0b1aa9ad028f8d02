-- ===== src/Quickplay/Preferences/Kept.antt =====
-- What no change of the preferences touches.
use quickplay_server.Base.{
  ℕ, ◌≡◌, refl, Bool, true, false, List, Option, none, some, ok, err, panic, stuck, ◌>>=◌, ok_or,
  ◌^◌, bit_and, bit_or, bit_xor, leb, length, length-set, if◌then◌else◌, bytes, eq_bytes,
  strip_prefix, inl, inr, Bool-cases,
}
use quickplay_server.Quickplay.Gamemodes
use quickplay_server.Quickplay.Preferences.{
  PreferenceDecodeError, QuickplayPreferences, Result, parse_unsigned, decode_enum_preference,
  random_crits_from, respawn_times_from, rtd_from, class_restrictions_from, objectives_from,
  set_map_ban, update_map_ban, update_gamemode, update_named, update_preference, unknown_preference,
  invalid_value, unparseable_value,
}

-- A success has as many slots for map bans as `n`, and there is no panic.
abbrev pub KeepsSlots : ℕ → Result QuickplayPreferences → Type 0
KeepsSlots n (ok p) = length p.map_bans ≡ n
KeepsSlots n (err e) = Unit {0}
KeepsSlots n panic = ⊥
KeepsSlots n stuck = ⊥

-- A value that may be missing, before a step that keeps the slots.
ok_or-KeepsSlots :
    {A : Type 0} (o : Option A) (e : PreferenceDecodeError) (n : ℕ)
    (f : A → Result QuickplayPreferences)
    → ((a : A) → KeepsSlots n (f a))
    → KeepsSlots n (ok_or o e >>= f)
ok_or-KeepsSlots none e n f h = tt
ok_or-KeepsSlots (some a) e n f h = h a

if-KeepsSlots :
    (b : Bool) (x y : Result QuickplayPreferences) (n : ℕ)
    → KeepsSlots n x
    → KeepsSlots n y
    → KeepsSlots n (if b then x else y)
if-KeepsSlots true x y n hx hy = hx
if-KeepsSlots false x y n hx hy = hy

decode-KeepsSlots :
    {P : Type 0} (from : ℕ → Option P) (value : List ℕ) (n : ℕ)
    (f : P → Result QuickplayPreferences)
    → ((x : P) → KeepsSlots n (f x))
    → KeepsSlots n (decode_enum_preference from value >>= f)
unfolding decode_enum_preference
decode-KeepsSlots from value n f h =
    elim (parse_unsigned 256 value)
      as (λ o.
        KeepsSlots n ((ok_or o unparseable_value >>= λ v. ok_or (from v) invalid_value) >>= f)) [
          | none ↦ tt
          | some v ↦ ok_or-KeepsSlots (from v) invalid_value n f h
        ]

update_map_ban-KeepsSlots :
    (p : QuickplayPreferences) (slot value : List ℕ)
    → KeepsSlots (length p.map_bans) (update_map_ban p slot value)
unfolding update_map_ban set_map_ban
update_map_ban-KeepsSlots p slot value =
    ok_or-KeepsSlots (parse_unsigned (2 ^ 64) slot) unknown_preference (length p.map_bans) _ λ i.
      elim (Bool-cases (leb (length p.map_bans) i)) [
        | inl beyond ↦ rw beyond tt
        | inr within ↦ rw within (length-set p.map_bans i (some value))
      ]

update_gamemode-KeepsSlots :
    (p : QuickplayPreferences) (name value : List ℕ)
    → KeepsSlots (length p.map_bans) (update_gamemode p name value)
unfolding update_gamemode
update_gamemode-KeepsSlots p name value =
    let n = length p.map_bans in
    ok_or-KeepsSlots (Gamemodes.from_str name) unknown_preference n _ λ mode.
      if-KeepsSlots (eq_bytes value (bytes "0"))
        (ok (record p { gamemodes = bit_and p.gamemodes (bit_xor mode Gamemodes.all) })) _ n refl
        (if-KeepsSlots (eq_bytes value (bytes "1"))
          (ok (record p { gamemodes = bit_or p.gamemodes mode })) (err invalid_value) n refl tt)

update_named-KeepsSlots :
    (p : QuickplayPreferences) (name value : List ℕ)
    → KeepsSlots (length p.map_bans) (update_named p name value)
unfolding update_named
update_named-KeepsSlots p name value =
    let n = length p.map_bans in
    if-KeepsSlots (eq_bytes name (bytes "random_crits")) _ _ n
      (decode-KeepsSlots random_crits_from value n _ (λ x. refl))
      (if-KeepsSlots (eq_bytes name (bytes "respawn_times")) _ _ n
        (decode-KeepsSlots respawn_times_from value n _ (λ x. refl))
        (if-KeepsSlots (eq_bytes name (bytes "rtd")) _ _ n
          (decode-KeepsSlots rtd_from value n _ (λ x. refl))
          (if-KeepsSlots (eq_bytes name (bytes "class_restrictions")) _ _ n
            (decode-KeepsSlots class_restrictions_from value n _ (λ x. refl))
            (if-KeepsSlots (eq_bytes name (bytes "objectives")) _ _ n
              (decode-KeepsSlots objectives_from value n _ (λ x. refl))
              (if-KeepsSlots (eq_bytes name (bytes "party_size")) _ _ n
                (ok_or-KeepsSlots (parse_unsigned 256 value) unparseable_value n _ (λ x. refl))
                tt)))))

pub update_preference-KeepsSlots :
    (p : QuickplayPreferences) (name value : List ℕ)
    → KeepsSlots (length p.map_bans) (update_preference p name value)
unfolding update_preference
update_preference-KeepsSlots p name value =
    elim (strip_prefix (bytes "map_ban_") name)
      as (λ o. KeepsSlots (length p.map_bans) (elim o as (λ _. Result QuickplayPreferences) [
        | some slot ↦ update_map_ban p slot value
        | none ↦
            elim (strip_prefix (bytes "gamemode_") name) as (λ _. Result QuickplayPreferences) [
              | some mode ↦ update_gamemode p mode value
              | none ↦ update_named p name value
            ]
      ])) [
        | some slot ↦ update_map_ban-KeepsSlots p slot value
        | none ↦
            elim (strip_prefix (bytes "gamemode_") name)
              as (λ o.
                KeepsSlots (length p.map_bans) (elim o as (λ _. Result QuickplayPreferences) [
                  | some mode ↦ update_gamemode p mode value
                  | none ↦ update_named p name value
                ])) [
                  | some mode ↦ update_gamemode-KeepsSlots p mode value
                  | none ↦ update_named-KeepsSlots p name value
                ]
      ]
