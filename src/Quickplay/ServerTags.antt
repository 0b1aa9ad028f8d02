-- ===== src/Quickplay/ServerTags.antt =====
-- `ServerTags` of src/quickplay/global.rs, a `u8`.
use quickplay_server.Base.{ℕ, ◌^◌}

abbrev pub no_crits : ℕ
no_crits = 2 ^ 0

abbrev pub no_respawn_times : ℕ
no_respawn_times = 2 ^ 1

abbrev pub respawn_times : ℕ
respawn_times = 2 ^ 2

abbrev pub rtd : ℕ
rtd = 2 ^ 3

abbrev pub class_limits : ℕ
class_limits = 2 ^ 4

abbrev pub class_bans : ℕ
class_bans = 2 ^ 5

abbrev pub no_objectives : ℕ
no_objectives = 2 ^ 6
