-- ===== src/Quickplay/Score.antt =====
-- src/quickplay/session.rs: how well a server suits a party of some size.
use quickplay_server.Base.{ℕ, leb, if◌then◌else◌}
use quickplay_server.Quickplay.Floats.{Floats}

abbrev pub server_headroom : ℕ
server_headroom = 1

abbrev pub full_players : ℕ
full_players = 24

module _ (floats : Floats) where
  open floats use {F, from_ℕ, decimal, neg, add, sub, mul, div, round, gt, le, eq}

  unfoldable pub lerp : F → F → F → F → F → F
  lerp in_a in_b out_a out_b x =
      add out_a (div (mul (sub out_b out_a) (sub x in_a)) (sub in_b in_a))

  unfoldable pub to_nearest_even : F → F
  to_nearest_even num = mul (decimal 2 0) (round (div num (decimal 2 0)))

  abbrev pub score_low : F
  score_low = decimal 1 1

  abbrev pub score_ideal : F
  score_ideal = decimal 16 1

  abbrev pub score_fuller : F
  score_fuller = decimal 2 1

  -- The curve of the score, once the party is known to fit.
  unfoldable pub players_curve : F → F → F
  unfolding lerp to_nearest_even
  players_curve max_players new_player_count =
      let new_max_players =
        if gt max_players (from_ℕ full_players)
        then sub max_players (from_ℕ full_players)
        else max_players in
      let count_low = to_nearest_even (div max_players (decimal 3 0)) in
      let count_ideal = to_nearest_even (mul max_players (decimal 72 2)) in
      if le new_player_count count_low
      then lerp (decimal 0 0) count_low (decimal 0 0) score_low new_player_count
      else if le new_player_count count_ideal
      then lerp count_low count_ideal score_low score_ideal new_player_count
      else if le new_player_count new_max_players
      then lerp count_ideal new_max_players score_ideal score_fuller new_player_count
      else lerp new_max_players max_players score_fuller score_low new_player_count

  unfoldable pub score_server_by_players : ℕ → ℕ → ℕ → F
  unfolding players_curve
  score_server_by_players players max_players party_size =
      let new_player_count = add (from_ℕ players) (from_ℕ party_size) in
      if gt (add new_player_count (from_ℕ server_headroom)) (from_ℕ max_players)
      then neg (decimal 100 0)
      else if eq (from_ℕ players) (decimal 0 0)
      then neg (decimal 3 1)
      else players_curve (from_ℕ max_players) new_player_count

  -- `score_server`, by the size of the party and the players of the server.
  unfoldable pub score_server : ℕ → ℕ → ℕ → F
  unfolding score_server_by_players
  score_server party_size players max_players =
      if leb party_size 1
      then decimal 0 0
      else sub (score_server_by_players players max_players party_size)
          (score_server_by_players players max_players 1)

  unfoldable pub score_server_for_user : F
  score_server_for_user = decimal 0 0

  unfoldable pub recalculate_server_score : F → ℕ → ℕ → ℕ → F
  unfolding score_server score_server_for_user
  recalculate_server_score score party_size players max_players =
      add (add score score_server_for_user) (score_server party_size players max_players)
