-- ===== src/Quickplay/Session/Convars.antt =====
-- What the convars of a client can do to the preferences.
use quickplay_server.Base.{
  ℕ, ◌≡◌, ◌⊎◌, inl, inr, refl, List, [], ◌∷◌, Option, none, some, Outcome, ok, err, panic, stuck,
  length, subst,
}
use quickplay_server.Configuration.{Configuration}
use quickplay_server.Quickplay.Preferences.{QuickplayPreferences, Result, update_preference}
use quickplay_server.Quickplay.Preferences.Kept.{KeepsSlots, update_preference-KeepsSlots}
use quickplay_server.Quickplay.Session.{
  error_message, preference_name, update_preferences, update_preferences_from_convars,
}

-- The call ends with a success or an error, and there are `n` slots for map bans.
abbrev pub EndsWithSlots : ℕ → Outcome (List ℕ) (Unit {0}) × QuickplayPreferences → Type 0
EndsWithSlots n (r, p) = ((r ≡ ok tt) ⊎ ((e : List ℕ) × (r ≡ err e))) × (length p.map_bans ≡ n)

-- One step of the loop, given what becomes of the later convars.
step-EndsWithSlots :
    (n : ℕ) (p : QuickplayPreferences) (pref value : List ℕ) (r : Result QuickplayPreferences)
    (rest : QuickplayPreferences → Outcome (List ℕ) (Unit {0}) × QuickplayPreferences)
    → length p.map_bans ≡ n
    → KeepsSlots n r
    → ((p' : QuickplayPreferences) → length p'.map_bans ≡ n → EndsWithSlots n (rest p'))
    → EndsWithSlots n (elim r as (λ _. Outcome (List ℕ) (Unit {0}) × QuickplayPreferences) [
      | ok p' ↦ rest p'
      | err e ↦ (err (error_message e pref value), p)
      | panic ↦ (panic, p)
      | stuck ↦ (stuck, p)
    ])
step-EndsWithSlots n p pref value (ok p') rest same kept h = h p' kept
step-EndsWithSlots n p pref value (err e) rest same kept h =
    (inr (error_message e pref value, refl), same)
step-EndsWithSlots n p pref value panic rest same kept h = absurd kept
step-EndsWithSlots n p pref value stuck rest same kept h = absurd kept

-- One convar, given the preference that it names.
convar-EndsWithSlots :
    (n : ℕ) (p : QuickplayPreferences) (value : List ℕ) (named : Option (List ℕ))
    (rest : QuickplayPreferences → Outcome (List ℕ) (Unit {0}) × QuickplayPreferences)
    → length p.map_bans ≡ n
    → ((p' : QuickplayPreferences) → length p'.map_bans ≡ n → EndsWithSlots n (rest p'))
    → EndsWithSlots n (elim named as (λ _. Outcome (List ℕ) (Unit {0}) × QuickplayPreferences) [
      | none ↦ rest p
      | some pref ↦
          elim (update_preference p pref value)
            as (λ _. Outcome (List ℕ) (Unit {0}) × QuickplayPreferences) [
              | ok p' ↦ rest p'
              | err e ↦ (err (error_message e pref value), p)
              | panic ↦ (panic, p)
              | stuck ↦ (stuck, p)
            ]
    ])
convar-EndsWithSlots n p value none rest same h = h p same
convar-EndsWithSlots n p value (some pref) rest same h =
    step-EndsWithSlots n p pref value (update_preference p pref value) rest same
      (subst (λ k. KeepsSlots k (update_preference p pref value)) same
        (update_preference-KeepsSlots p pref value))
      h

update_preferences-EndsWithSlots :
    (n : ℕ) (prefix : List ℕ) (convars : List (List ℕ × List ℕ)) (p : QuickplayPreferences)
    → length p.map_bans ≡ n
    → EndsWithSlots n (update_preferences prefix convars p)
unfolding update_preferences
update_preferences-EndsWithSlots n prefix [] p same = (inl refl, same)
update_preferences-EndsWithSlots n prefix ((name, value) ∷ convars) p same =
    convar-EndsWithSlots n p value (preference_name prefix (name, value))
      (update_preferences prefix convars) same
      (λ p' same'. update_preferences-EndsWithSlots n prefix convars p' same')

-- Whatever convars a client sends, the update of its preferences ends with a success or an error
-- message, without a panic, and the preferences keep their number of slots for map bans.
pub update_preferences_from_convars-EndsWithSlots :
    (c : Configuration) (convars : List (List ℕ × List ℕ)) (p : QuickplayPreferences)
    → EndsWithSlots (length p.map_bans) (update_preferences_from_convars c convars p)
unfolding update_preferences_from_convars
update_preferences_from_convars-EndsWithSlots c convars p =
    update_preferences-EndsWithSlots (length p.map_bans) c.quickplay.preference_convar_prefix
      convars p refl
