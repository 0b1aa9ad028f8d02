-- ===== src/Quickplay/Floats/Whole.antt =====
-- Whole numbers in the place of the floats, for runs on concrete values.
use quickplay_server.Base.{ℕ, ◌+◌, ◌-◌, ◌*◌, ◌/◌, ◌^◌, ◌≡◌, true, false, ltb, leb, ◌==◌, arith}
use quickplay_server.Quickplay.Floats.{Floats}

pub gt_trans : (a b c : ℕ) → ltb b a ≡ true → ltb c b ≡ true → ltb c a ≡ true
gt_trans a b c h k = ground arith

pub gt_irrefl : (a : ℕ) → ltb a a ≡ false
gt_irrefl a = ground arith

-- Whole numbers in the place of the floats.
abbrev pub whole_numbers : Floats
whole_numbers = record {
  F = ℕ;
  from_ℕ = λ n. n;
  decimal = λ m k. m / 10 ^ k;
  neg = λ x. 0;
  add = λ x y. x + y;
  sub = λ x y. x - y;
  mul = λ x y. x * y;
  div = λ x y. x / y;
  round = λ x. x;
  gt = λ x y. ltb y x;
  le = λ x y. leb x y;
  eq = λ x y. x == y;
  gt_trans = gt_trans;
  gt_irrefl = gt_irrefl;
}
