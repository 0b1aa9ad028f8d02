-- ===== src/Base/Binary.antt =====
-- Numbers as fixed-width groups of bits, lowest bit first, and bytes as groups of eight.
use Prim.Native.Nat.{ℕ, zero, suc, ◌+◌, ◌*◌, ◌/◌, ◌%◌, ◌^◌, ◌≤◌, ◌<◌}
use mathlib.Core.Path.{◌≡◌, refl, sym, ap, ap₂, ◌∙◌}
use mathlib.Core.Bool.{Bool, true, false}
use mathlib.Core.List.{List, [], ◌∷◌, ◌++◌, append_assoc}
use native.Mathlib.Omega.{arith}
use native.Mathlib.Nat.{pow-suc}
use quickplay_server.Base.Tests.{◌==◌, if◌then◌else◌}
use quickplay_server.Base.Lists.{length, length-append, replicate, All}
use quickplay_server.Base.Words.{IsByte}

-- The lowest `n` bits of `v`.
unfoldable pub le_bits : ℕ → ℕ → List Bool
le_bits zero v = []
le_bits (suc n) v = (v % 2 == 1) ∷ le_bits n (v / 2)

abbrev pub from_bits : List Bool → ℕ
from_bits [] = 0
from_bits (b ∷ bs) = (if b then 1 else 0) + 2 * from_bits bs

abbrev pub bits_of : List ℕ → List Bool
bits_of [] = []
bits_of (b ∷ bs) = le_bits 8 b ++ bits_of bs

pub length-le_bits : (n v : ℕ) → length (le_bits n v) ≡ n
unfolding le_bits
length-le_bits zero v = refl
length-le_bits (suc n) v = ap suc (length-le_bits n (v / 2))

pub length-bits_of : (bytes : List ℕ) → length (bits_of bytes) ≡ 8 * length bytes
length-bits_of [] = refl
length-bits_of (b ∷ bs) =
    omega (arith, length-append (le_bits 8 b) (bits_of bs), length-le_bits 8 b, length-bits_of bs)

pub bits_of-append : (xs ys : List ℕ) → bits_of (xs ++ ys) ≡ bits_of xs ++ bits_of ys
bits_of-append [] ys = refl
bits_of-append (x ∷ xs) ys = rw (bits_of-append xs ys, append_assoc)

-- Any list that is long enough begins with the bits of a number of that width.
pub le_bits-split :
    (n : ℕ) (bs : List Bool)
    → n ≤ length bs
    → (v : ℕ) × (rest : List Bool) × (v < 2 ^ n) × (bs ≡ le_bits n v ++ rest)
unfolding le_bits
le_bits-split zero bs h = (0, bs, omega arith, refl)
le_bits-split (suc n) [] h = absurd (omega arith)
le_bits-split (suc n) (b ∷ bs) h =
    let (v, rest, lt, e) = le_bits-split n bs (omega arith) in
    (
      (if b then 1 else 0) + 2 * v,
      rest,
      ground (arith, pow-suc 2 n),
      ap₂ ◌∷◌ (low b v) (e ∙ ap (λ t. le_bits n t ++ rest) (high b v)),
    )
  where
    low : (b : Bool) (v : ℕ) → b ≡ (((if b then 1 else 0) + 2 * v) % 2 == 1)
    low true v = ground arith
    low false v = ground arith

    high : (b : Bool) (v : ℕ) → v ≡ ((if b then 1 else 0) + 2 * v) / 2
    high true v = omega arith
    high false v = omega arith

-- Bits in groups of eight are the bits of bytes.
pub bits_of-onto :
    (n : ℕ) (bs : List Bool)
    → length bs ≡ 8 * n
    → (out : List ℕ) × All IsByte out × (length out ≡ n) × (bits_of out ≡ bs)
bits_of-onto zero [] h = ([], tt, refl, refl)
bits_of-onto zero (b ∷ bs) h = absurd (omega arith)
bits_of-onto (suc n) bs h =
    let (v, rest, lt, e) = le_bits-split 8 bs (omega arith) in
    let len : length rest ≡ 8 * n =
      omega (arith, ap length e, length-append (le_bits 8 v) rest, length-le_bits 8 v) in
    let (out, all, count, e') = bits_of-onto n rest len in
    (v ∷ out, (lt, all), ap suc count, ap (λ t. le_bits 8 v ++ t) e' ∙ sym e)

pub le_bits_zero : (n : ℕ) → le_bits n 0 ≡ replicate n false
unfolding le_bits
le_bits_zero zero = refl
le_bits_zero (suc n) = ap (λ t. false ∷ t) (le_bits_zero n)

same_bit : {a b : ℕ} → a ≡ b → (a == 1) ≡ (b == 1)
same_bit e = ap (λ t. t == 1) e

-- The lowest byte of a number, and the others.
pub le_bits-byte :
    (n v : ℕ)
    → le_bits (suc (suc (suc (suc (suc (suc (suc (suc n)))))))) v
      ≡ le_bits 8 (v % 256) ++ le_bits n (v / 256)
unfolding le_bits
le_bits-byte n v = ap₂ ◌∷◌ (same_bit (omega arith)) (
    ap₂ ◌∷◌ (same_bit (omega arith)) (
      ap₂ ◌∷◌ (same_bit (omega arith)) (
        ap₂ ◌∷◌ (same_bit (omega arith)) (
          ap₂ ◌∷◌ (same_bit (omega arith)) (
            ap₂ ◌∷◌ (same_bit (omega arith)) (
              ap₂ ◌∷◌ (same_bit (omega arith))
                (ap₂ ◌∷◌ (same_bit (omega arith)) (ap (le_bits n) (omega arith)))))))))
