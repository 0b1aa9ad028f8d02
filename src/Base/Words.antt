-- ===== src/Base/Words.antt =====
-- Bit operations as arithmetic, at variables: one equation for the lowest digit, and from it what
-- the code's masks and disjoint fields mean.
use Prim.Native.Nat.{
  ℕ, zero, suc, ◌+◌, ◌-◌, ◌*◌, ◌/◌, ◌%◌, ◌^◌, ◌≤◌, ◌<◌, min, max, bit_and, bit_or, digits,
  bit_and-bitwise, bit_or-bitwise,
}
use mathlib.Core.Path.{◌≡◌, refl, ap}
use mathlib.Core.Bool.{Bool, true, ◌&&◌}
use native.Mathlib.Omega.{arith}
use native.Mathlib.Nat.{pow-suc}
use quickplay_server.Base.Tests.{◌==◌, ==_iff}

abbrev pub u8 : ℕ → ℕ
u8 n = n % 2 ^ 8

abbrev pub u16 : ℕ → ℕ
u16 n = n % 2 ^ 16

abbrev pub u32 : ℕ → ℕ
u32 n = n % 2 ^ 32

-- `a - b` on `u32`, which wraps below zero.
abbrev pub sub_u32 : ℕ → ℕ → ℕ
sub_u32 a b = (a + 2 ^ 32 - b) % 2 ^ 32

abbrev pub IsByte : ℕ → Type 0
IsByte b = b < 256

module _ (z : ℕ → ℕ) (f : ℕ → ℕ → ℕ) where
  -- Any fuel from the first number on gives the same digits.
  same_digits : (n m a b : ℕ) → a ≤ n → a ≤ m → digits z f n a b ≡ digits z f m a b
  same_digits zero zero zero b p q = refl
  same_digits zero zero (suc a) b p q = absurd (omega arith)
  same_digits zero (suc m) zero b p q = refl
  same_digits zero (suc m) (suc a) b p q = absurd (omega arith)
  same_digits (suc n) zero zero b p q = refl
  same_digits (suc n) zero (suc a) b p q = absurd (omega arith)
  same_digits (suc n) (suc m) zero b p q = refl
  same_digits (suc n) (suc m) (suc a) b p q =
      omega (arith, same_digits n m (suc a / 2) (b / 2) (omega arith) (omega arith))

pub or_halves : (a b : ℕ) → bit_or a b ≡ 2 * bit_or (a / 2) (b / 2) + max (a % 2) (b % 2)
or_halves zero b = omega (arith, bit_or-bitwise 0 b, bit_or-bitwise 0 (b / 2))
or_halves (suc a) b = omega (
  arith,
  bit_or-bitwise (suc a) b,
  bit_or-bitwise (suc a / 2) (b / 2),
  same_digits (λ y. y) max a (suc a / 2) (suc a / 2) (b / 2) (omega arith) (omega arith),
)

pub and_halves : (a b : ℕ) → bit_and a b ≡ 2 * bit_and (a / 2) (b / 2) + min (a % 2) (b % 2)
and_halves zero b = omega (arith, bit_and-bitwise 0 b, bit_and-bitwise 0 (b / 2))
and_halves (suc a) b = omega (
  arith,
  bit_and-bitwise (suc a) b,
  bit_and-bitwise (suc a / 2) (b / 2),
  same_digits (λ y. 0) min a (suc a / 2) (suc a / 2) (b / 2) (omega arith) (omega arith),
)

zero-or : (b : ℕ) → bit_or 0 b ≡ b
zero-or b = bit_or-bitwise 0 b

pub or-lt : (k a b : ℕ) → a < 2 ^ k → b < 2 ^ k → bit_or a b < 2 ^ k
or-lt zero a b ha hb = ground (arith, or_halves a b, zero-or b)
or-lt (suc k) a b ha hb = ground (
  arith,
  or_halves a b,
  pow-suc 2 k,
  or-lt k (a / 2) (b / 2) (omega (arith, pow-suc 2 k)) (omega (arith, pow-suc 2 k)),
)

-- A field above the bits in use is added.
pub or-add_high : (k r q : ℕ) → r < 2 ^ k → bit_or r (q * 2 ^ k) ≡ r + q * 2 ^ k
or-add_high zero r q h = ground (arith, zero-or (q * 1))
or-add_high (suc k) r q h = ground (
  arith,
  or_halves r (q * 2 ^ suc k),
  pow-suc 2 k,
  ap (λ (t : ℕ). q * t) (pow-suc 2 k),
  or-add_high k (r / 2) q (omega (arith, pow-suc 2 k)),
)

and-zero : (n a : ℕ) → a ≤ n → bit_and a 0 ≡ 0
and-zero n zero h = refl
and-zero zero (suc a) h = absurd (omega arith)
and-zero (suc n) (suc a) h =
    omega (arith, and_halves (suc a) 0, and-zero n (suc a / 2) (omega arith))

and_low1 : (v : ℕ) → bit_and v 1 ≡ v % 2
and_low1 v = omega (arith, and_halves v 1, and-zero v (v / 2) (omega arith))

and_low2 : (v : ℕ) → bit_and v 3 ≡ v % 4
and_low2 v = omega (arith, and_halves v 3, and_low1 (v / 2))

and_low3 : (v : ℕ) → bit_and v 7 ≡ v % 8
and_low3 v = omega (arith, and_halves v 7, and_low2 (v / 2))

and_low4 : (v : ℕ) → bit_and v 15 ≡ v % 16
and_low4 v = omega (arith, and_halves v 15, and_low3 (v / 2))

and_low5 : (v : ℕ) → bit_and v 31 ≡ v % 32
and_low5 v = omega (arith, and_halves v 31, and_low4 (v / 2))

and_low6 : (v : ℕ) → bit_and v 63 ≡ v % 64
and_low6 v = omega (arith, and_halves v 63, and_low5 (v / 2))

pub and_0x7f : (v : ℕ) → bit_and v 0x7f ≡ v % 128
and_0x7f v = omega (arith, and_halves v 127, and_low6 (v / 2))

-- The test passes on the numbers below `bound`, each of which is tried.
unfoldable pub every_below : (ℕ → Bool) → ℕ → Bool
every_below test zero = true
every_below test (suc bound) = every_below test bound && test bound

pub passes_below :
    (test : ℕ → Bool) (bound v : ℕ) → v < bound → every_below test bound ≡ true → test v ≡ true
unfolding every_below
passes_below test zero v below tried = absurd (omega arith)
passes_below test (suc bound) v below tried = ground (arith, passes_below test bound v)

top_bit_set : every_below (λ v. bit_or v 0x80 == v + 128) 128 ≡ true
unfolding every_below
top_bit_set = refl

pub or_0x80 : (v : ℕ) → v < 128 → bit_or v 0x80 ≡ v + 128
or_0x80 v below = (==_iff _ _).0 (passes_below _ 128 v below top_bit_set)

top_bit : every_below (λ v. bit_and v 0x80 == v / 128 * 128) 256 ≡ true
unfolding every_below
top_bit = refl

pub and_0x80 : (v : ℕ) → v < 256 → bit_and v 0x80 ≡ v / 128 * 128
and_0x80 v below = (==_iff _ _).0 (passes_below _ 256 v below top_bit)

pub and-le : (n a b : ℕ) → b ≤ n → bit_and a b ≤ b
and-le zero a b h =
    omega (arith, ap (bit_and a) (let e : b ≡ 0 = omega arith in e), and-zero a a (omega arith))
and-le (suc n) a b h = omega (arith, and_halves a b, and-le n (a / 2) (b / 2) (omega arith))
