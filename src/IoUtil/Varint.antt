-- ===== src/IoUtil/Varint.antt =====
-- `read_varint32` and `write_varint32` against groups of seven bits, lowest first, with the top
-- bit set on every byte but the last.
use quickplay_server.Base.{
  ℕ, zero, suc, ◌+◌, ◌*◌, ◌/◌, ◌%◌, ◌^◌, ◌≤◌, ◌<◌, ◌≡◌, ◌≢◌, ap, ◌∙◌, bit_and, bit_or, Bool, List,
  [], ◌∷◌, ◌++◌, append_assoc, length, All, IsByte, ok, arith, ltb, ◌==◌, if◌then◌else◌, u32,
  bits_of, or-add_high, and_0x7f, or_0x80, and_0x80, lt→ltb, le→ltb, ne→==, or-lt, dec_lt,
}
use quickplay_server.Io.{BitIo}
use quickplay_server.Io.Laws.{read_byte, write_byte}
use quickplay_server.Io.Advance.{
  Advances, read_in-Advances, bind-Advances, if-Advances, ok-Advances,
}
use quickplay_server.IoUtil.{read_varint32_loop, read_varint32, write_varint32_loop, write_varint32}
use native.Mathlib.Nat.{div-add-mod}
use native.Mathlib.Numerals.{towards_suc}

-- The bytes of a number below `128 ^ (k + 1)`.
abbrev pub varint_bytes : ℕ → ℕ → List ℕ
varint_bytes zero v = v ∷ []
varint_bytes (suc k) v =
    let more = varint_bytes k (v / 128) in if ltb 127 v then (v % 128 + 128) ∷ more else v ∷ []

pub varint_bytes-IsByte : (k v : ℕ) → v < 128 ^ suc k → All IsByte (varint_bytes k v)
varint_bytes-IsByte zero v h = omega arith
varint_bytes-IsByte (suc k) v h = ground (arith, varint_bytes-IsByte k (v / 128) (omega arith))

pub length-varint_bytes :
    (k v : ℕ) → (1 ≤ length (varint_bytes k v)) × (length (varint_bytes k v) ≤ k + 1)
length-varint_bytes zero v = omega arith
length-varint_bytes (suc k) v = ground (arith, length-varint_bytes k (v / 128))

seven_more : (c : ℕ) → 2 ^ (7 * (c + 1)) ≡ 128 * 2 ^ (7 * c)
seven_more c = ap (λ k. 2 ^ k) (next c) ∙ simp towards_suc (omega arith)
  where
    next : (c : ℕ) → 7 * (c + 1) ≡ 7 * c + 7
    next c = omega arith

-- The lowest group of `v` and the others, both above bit `7 * c`.
split_lowest : (v c : ℕ) → v * 2 ^ (7 * c) ≡ v % 128 * 2 ^ (7 * c) + v / 128 * 2 ^ (7 * (c + 1))
split_lowest v c = omega (
  arith,
  ap (λ (t : ℕ). t * 2 ^ (7 * c)) (div-add-mod v 128),
  ap (λ (t : ℕ). v / 128 * t) (seven_more c),
)

below_next : (g s r : ℕ) → g < 128 → r < s → r + g * s < 128 * s
below_next g s r hg hr = grind arith

module _ (io : BitIo) where
  open io use {holding, written}

  write_last :
      (f v : ℕ) (bs : List Bool)
      → v < 128
      → write_varint32_loop io (suc f) v (written bs) ≡ ok (written (bs ++ bits_of (v ∷ [])))
  unfolding write_varint32_loop
  write_last f v bs h =
      rw (le→ltb 127 v (omega arith), and_0x7f v, low) (write_byte io v bs (omega arith))
    where
      low : v % 128 ≡ v
      low = omega arith

  write_more :
      (f v : ℕ) (bs : List Bool)
      → 127 < v
      → write_varint32_loop io (suc f) v (written bs)
        ≡ write_varint32_loop io f (v / 128) (written (bs ++ bits_of ((v % 128 + 128) ∷ [])))
  unfolding write_varint32_loop
  write_more f v bs h = rw (
    lt→ltb 127 v h,
    and_0x7f v,
    or_0x80 (v % 128) (omega arith),
    write_byte io (v % 128 + 128) bs (omega arith),
  )

  write_loop_lem :
      (k v : ℕ) (bs : List Bool)
      → v < 128 ^ suc k
      → write_varint32_loop io (suc k) v (written bs)
        ≡ ok (written (bs ++ bits_of (varint_bytes k v)))
  write_loop_lem zero v bs h = write_last 0 v bs (omega arith)
  write_loop_lem (suc k) v bs h = elim (dec_lt 127 v) [
    | yes big ↦
        write_more (suc k) v bs big
        ∙ write_loop_lem k (v / 128) (bs ++ bits_of ((v % 128 + 128) ∷ [])) (omega arith)
        ∙ rw (lt→ltb 127 v big) (simp append_assoc)
    | no small ↦ rw (le→ltb 127 v (omega arith)) (write_last (suc k) v bs (omega arith))
  ]

  -- A number below 2^32 is appended as its groups of seven bits.
  pub write_varint32_lem :
      (v : ℕ) (bs : List Bool)
      → v < 2 ^ 32
      → write_varint32 io v (written bs) ≡ ok (written (bs ++ bits_of (varint_bytes 4 v)))
  unfolding write_varint32
  write_varint32_lem v bs h = write_loop_lem 4 v bs (omega arith)

  -- The read group joins what was read before.
  gather :
      (b result count : ℕ)
      → result < 2 ^ (7 * count)
      → result + b % 128 * 2 ^ (7 * count) < 2 ^ 32
      → bit_or result (u32 (bit_and b 0x7f * 2 ^ (7 * count))) ≡ result + b % 128 * 2 ^ (7 * count)
  gather b result count hr fits =
      rw (and_0x7f b, narrow) (or-add_high (7 * count) result (b % 128) hr)
    where
      narrow : u32 (b % 128 * 2 ^ (7 * count)) ≡ b % 128 * 2 ^ (7 * count)
      narrow = omega arith

  -- One round of the reader, on a last byte and on another.
  read_last :
      (f w result count p : ℕ) (rest : List Bool)
      → w < 128
      → count ≢ 5
      → result < 2 ^ (7 * count)
      → result + w * 2 ^ (7 * count) < 2 ^ 32
      → read_varint32_loop io (suc f) result count (holding p (bits_of (w ∷ []) ++ rest))
        ≡ ok (result + w * 2 ^ (7 * count), holding (p + 8) rest)
  unfolding read_varint32_loop
  read_last f w result count p rest hw hc hr fits = rw (
    ne→== count 5 hc,
    read_byte io p w [] rest (omega arith),
    gather w result count hr (rw low fits),
    low,
    and_0x80 w (omega arith),
    top,
  )
    where
      low : w % 128 ≡ w
      low = omega arith

      top : w / 128 * 128 ≡ 0
      top = omega arith

  read_more :
      (f g result count p : ℕ) (bs : List ℕ) (rest : List Bool)
      → g < 128
      → count ≢ 5
      → result < 2 ^ (7 * count)
      → result + g * 2 ^ (7 * count) < 2 ^ 32
      → read_varint32_loop io (suc f) result count (holding p (bits_of ((g + 128) ∷ bs) ++ rest))
        ≡ read_varint32_loop io f
            (result + g * 2 ^ (7 * count))
            (count + 1)
            (holding (p + 8) (bits_of bs ++ rest))
  unfolding read_varint32_loop
  read_more f g result count p bs rest hg hc hr fits = rw (
    ne→== count 5 hc,
    read_byte io p (g + 128) bs rest (omega arith),
    gather (g + 128) result count hr (rw low fits),
    low,
    and_0x80 (g + 128) (omega arith),
    top,
  )
    where
      low : (g + 128) % 128 ≡ g
      low = omega arith

      top : (g + 128) / 128 * 128 ≡ 128
      top = omega arith

  read_loop_lem :
      (k f v result count p : ℕ) (rest : List Bool)
      → k < f
      → k + count ≤ 4
      → v < 128 ^ suc k
      → result < 2 ^ (7 * count)
      → result + v * 2 ^ (7 * count) < 2 ^ 32
      → read_varint32_loop io f result count (holding p (bits_of (varint_bytes k v) ++ rest))
        ≡ ok (result + v * 2 ^ (7 * count), holding (p + 8 * length (varint_bytes k v)) rest)
  read_loop_lem k zero v result count p rest hk hc hv hr fits = absurd (omega arith)
  read_loop_lem zero (suc f) v result count p rest hk hc hv hr fits =
      read_last f v result count p rest (omega arith) (omega arith) hr fits
  read_loop_lem (suc k) (suc f) v result count p rest hk hc hv hr fits = elim (dec_lt 127 v) [
    | yes big ↦
        let low : result + v % 128 * 2 ^ (7 * count) < 2 ^ 32 =
          omega (arith, split_lowest v count) in
        let below : result + v % 128 * 2 ^ (7 * count) < 2 ^ (7 * (count + 1)) =
          rw (seven_more count) (below_next (v % 128) (2 ^ (7 * count)) result (omega arith) hr) in
        rw (lt→ltb 127 v big) (
          read_more f (v % 128) result count p (varint_bytes k (v / 128)) rest (omega arith)
            (omega arith) hr low
          ∙ read_loop_lem k f (v / 128) (result + v % 128 * 2 ^ (7 * count)) (count + 1) (p + 8)
              rest (omega arith) (omega arith) (omega arith) below
              (omega (arith, split_lowest v count))
          ∙ ground (arith, split_lowest v count))
    | no small ↦
        rw (le→ltb 127 v (omega arith))
          (read_last f v result count p rest (omega arith) (omega arith) hr fits)
  ]

  -- Reading the groups gives the number.
  pub read-write_varint32 :
      (v p : ℕ) (rest : List Bool)
      → v < 2 ^ 32
      → read_varint32 io (holding p (bits_of (varint_bytes 4 v) ++ rest))
        ≡ ok (v, holding (p + 8 * length (varint_bytes 4 v)) rest)
  unfolding read_varint32
  read-write_varint32 v p rest h =
      read_loop_lem 4 6 v 0 0 p rest (omega arith) (omega arith) (omega arith) (omega arith)
        (omega arith)
      ∙ ground arith

  -- A number below 2^32 is written as one to five bytes, and from these bytes, wherever they stand,
  -- it is read back, with what follows them left unread.
  pub read_varint32-write_varint32 :
      (v p : ℕ) (before after : List Bool)
      → v < 2 ^ 32
      → (out : List ℕ) × (write_varint32 io v (written before)
          ≡ ok (written (before ++ bits_of out)))
        × (read_varint32 io (holding p (bits_of out ++ after))
            ≡ ok (v, holding (p + 8 * length out) after))
        × (1 ≤ length out)
        × (length out ≤ 5)
  read_varint32-write_varint32 v p before after h = (
    varint_bytes 4 v,
    write_varint32_lem v before h,
    read-write_varint32 v p after h,
    (length-varint_bytes 4 v).0,
    (length-varint_bytes 4 v).1,
  )

  read_loop-Advances :
      (f result count p : ℕ) (bs : List Bool)
      → 6 ≤ f + count
      → count ≤ 5
      → result < 2 ^ 32
      → Advances io (λ v. v < 2 ^ 32) 0 p bs (read_varint32_loop io f result count (holding p bs))
  unfolding read_varint32_loop
  read_loop-Advances zero result count p bs hf hc hr = absurd (omega arith)
  read_loop-Advances (suc f) result count p bs hf hc hr =
      if-Advances io (count == 5) (λ full. ok-Advances io _ p bs result hr)
        λ more. bind-Advances io 0 _ (omega arith) (read_in-Advances io 8 p bs) λ b q rest hb len.
          let joined : bit_or result (u32 (bit_and b 0x7f * 2 ^ (7 * count))) < 2 ^ 32 =
            or-lt 32 _ _ hr (omega arith) in
          if-Advances io (bit_and b 0x80 == 0) (λ last. ok-Advances io _ q rest _ joined)
            λ next. read_loop-Advances f _ (count + 1) q rest (omega arith) (ground arith) joined

  -- On any bits `read_varint32` ends, with a number below 2^32 and a later place in the same data,
  -- or with an error; it does not panic.
  pub read_varint32-Advances :
      (p : ℕ) (bs : List Bool)
      → Advances io (λ v. v < 2 ^ 32) 0 p bs (read_varint32 io (holding p bs))
  unfolding read_varint32
  read_varint32-Advances p bs =
      read_loop-Advances 6 0 0 p bs (omega arith) (omega arith) (omega arith)
