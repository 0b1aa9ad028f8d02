-- ===== src/Quickplay/Floats.antt =====
-- `f32`: the type, its literals and the operations that the code uses, with the laws that the
-- proofs need. `gt` is `>`; the laws hold in IEEE arithmetic, also where a NaN is compared.
pub mod Whole
use quickplay_server.Base.{ℕ, Bool, true, false, ◌≡◌}

pub record Floats : Type 1 where
  pub F : Type 0
  -- a `u8` or `u16`, converted
  pub from_ℕ : ℕ → F
  -- `decimal m k` is the literal m / 10 ^ k
  pub decimal : ℕ → ℕ → F
  pub neg : F → F
  pub add : F → F → F
  pub sub : F → F → F
  pub mul : F → F → F
  pub div : F → F → F
  pub round : F → F
  pub gt : F → F → Bool
  pub le : F → F → Bool
  pub eq : F → F → Bool
  pub gt_trans : (a b c : F) → gt a b ≡ true → gt b c ≡ true → gt a c ≡ true
  pub gt_irrefl : (a : F) → gt a a ≡ false
