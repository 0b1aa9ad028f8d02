-- ===== src/Quickplay/Gamemodes.antt =====
-- `Gamemodes` of src/quickplay/global.rs, a `u8`.
use quickplay_server.Base.{ℕ, ◌^◌, List, Option, none, some, if◌then◌else◌, bytes, eq_bytes}

abbrev pub payload : ℕ
payload = 2 ^ 0

abbrev pub koth : ℕ
koth = 2 ^ 1

abbrev pub attack_defense : ℕ
attack_defense = 2 ^ 2

abbrev pub ctf : ℕ
ctf = 2 ^ 3

abbrev pub capture_point : ℕ
capture_point = 2 ^ 4

abbrev pub payload_race : ℕ
payload_race = 2 ^ 5

abbrev pub alternative : ℕ
alternative = 2 ^ 6

abbrev pub arena : ℕ
arena = 2 ^ 7

abbrev pub all : ℕ
all = 255

unfoldable pub from_str : List ℕ → Option ℕ
from_str gamemode =
    if eq_bytes gamemode (bytes "attack_defense")
    then some attack_defense
    else if eq_bytes gamemode (bytes "ctf")
    then some ctf
    else if eq_bytes gamemode (bytes "capture_point")
    then some capture_point
    else if eq_bytes gamemode (bytes "koth")
    then some koth
    else if eq_bytes gamemode (bytes "payload")
    then some payload
    else if eq_bytes gamemode (bytes "payload_race")
    then some payload_race
    else if eq_bytes gamemode (bytes "arena")
    then some arena
    else if eq_bytes gamemode (bytes "alternative")
    then some alternative
    else none
