-- ===== src/Io/BitList.antt =====
-- Streams as lists of bits: an implementation of the interface, for tests and for witnesses.
use quickplay_server.Base.{
  ℕ, zero, suc, ◌+◌, ◌-◌, ◌*◌, ◌/◌, ◌%◌, ◌^◌, ◌≤◌, ◌<◌, ◌≡◌, refl, sym, ap, ◌∙◌, Bool, false, List,
  [], ◌∷◌, ◌++◌, append_assoc, append-nil, length, length-append, take, drop, take-append,
  drop-append, replicate, All, IsByte, Outcome, ok, err, arith, ltb, if◌then◌else◌, le_bits,
  from_bits, bits_of, length-le_bits, length-bits_of, lt→ltb, le→ltb,
}
use quickplay_server.Errors.{Error, io}
use quickplay_server.Io.{BitIo}
use native.Mathlib.Nat.{pow-suc}

abbrev Bits : Type 0
Bits = List Bool

from_bits-le_bits : (n v : ℕ) → v < 2 ^ n → from_bits (le_bits n v) ≡ v
unfolding le_bits
from_bits-le_bits zero v h = omega arith
from_bits-le_bits (suc n) v h =
    ground (arith, pow-suc 2 n, from_bits-le_bits n (v / 2) (omega (arith, pow-suc 2 n)))

take-le_bits : (n v : ℕ) (rest : Bits) → take n (le_bits n v ++ rest) ≡ le_bits n v
take-le_bits n v rest =
    ap (λ k. take k (le_bits n v ++ rest)) (sym (length-le_bits n v))
    ∙ take-append (le_bits n v) rest

drop-le_bits : (n v : ℕ) (rest : Bits) → drop n (le_bits n v ++ rest) ≡ rest
drop-le_bits n v rest =
    ap (λ k. drop k (le_bits n v ++ rest)) (sym (length-le_bits n v))
    ∙ drop-append (le_bits n v) rest

pub read_in : ℕ → ℕ × Bits → Outcome Error (ℕ × (ℕ × Bits))
read_in n (p, bs) =
    if ltb (length bs) n then err io else ok (from_bits (take n bs), (p + n, drop n bs))

pub read_in_lem :
    (n p v : ℕ) (rest : Bits)
    → v < 2 ^ n
    → read_in n (p, le_bits n v ++ rest) ≡ ok (v, (p + n, rest))
unfolding read_in
read_in_lem n p v rest h = rw (
  le→ltb (length (le_bits n v ++ rest)) n enough,
  take-le_bits n v rest,
  drop-le_bits n v rest,
  from_bits-le_bits n v h,
)
  where
    enough : n ≤ length (le_bits n v ++ rest)
    enough = omega (arith, length-append (le_bits n v) rest, length-le_bits n v)

pub read_in_end : (n p : ℕ) (bs : Bits) → length bs < n → read_in n (p, bs) ≡ err io
unfolding read_in
read_in_end n p bs h = rw (lt→ltb (length bs) n h)

read_bit : ℕ × Bits → Outcome Error (Bool × (ℕ × Bits))
read_bit (p, []) = err io
read_bit (p, b ∷ bs) = ok (b, (p + 1, bs))

-- The bytes of the first `n` groups of eight bits.
first_bytes : ℕ → Bits → List ℕ
first_bytes zero bs = []
first_bytes (suc n) bs = from_bits (take 8 bs) ∷ first_bytes n (drop 8 bs)

first_bytes-bits_of :
    (bytes : List ℕ) (rest : Bits)
    → All IsByte bytes
    → first_bytes (length bytes) (bits_of bytes ++ rest) ≡ bytes
unfolding first_bytes
first_bytes-bits_of [] rest h = refl
first_bytes-bits_of (b ∷ bs) rest h =
    rw
      (
        append_assoc (le_bits 8 b) (bits_of bs) rest,
        take-le_bits 8 b (bits_of bs ++ rest),
        drop-le_bits 8 b (bits_of bs ++ rest),
        from_bits-le_bits 8 b h.0,
      )
      (ap (λ t. b ∷ t) (first_bytes-bits_of bs rest h.1))

pub read_bytes : List ℕ → ℕ × Bits → Outcome Error (ℕ × Bits) × List ℕ
read_bytes buffer (p, bs) =
    let k = length buffer in
    if ltb (length bs) (8 * k)
    then (err io, buffer)
    else (ok (p + 8 * k, drop (8 * k) bs), first_bytes k bs)

pub read_bytes_lem :
    (buffer bytes : List ℕ) (p : ℕ) (rest : Bits)
    → length buffer ≡ length bytes
    → All IsByte bytes
    → read_bytes buffer (p, bits_of bytes ++ rest) ≡ (ok (p + 8 * length bytes, rest), bytes)
unfolding read_bytes
read_bytes_lem buffer bytes p rest e h = rw (
  e,
  le→ltb (length (bits_of bytes ++ rest)) (8 * length bytes) enough,
  ← length-bits_of bytes,
  drop-append (bits_of bytes) rest,
  first_bytes-bits_of bytes rest h,
)
  where
    enough : 8 * length bytes ≤ length (bits_of bytes ++ rest)
    enough = omega (arith, length-append (bits_of bytes) rest, length-bits_of bytes)

pub read_bytes_end :
    (buffer : List ℕ) (p : ℕ) (bs : Bits)
    → length bs < 8 * length buffer
    → ((read_bytes buffer (p, bs)).0 ≡ err io)
      × (length (read_bytes buffer (p, bs)).1 ≡ length buffer)
unfolding read_bytes
read_bytes_end buffer p bs h = rw (lt→ltb (length bs) (8 * length buffer) h) (refl, refl)

pub write_out : ℕ → ℕ → Bits → Outcome Error Bits
write_out n v bs = if ltb v (2 ^ n) then ok (bs ++ le_bits n v) else err io

pub write_out_lem : (n v : ℕ) (bs : Bits) → v < 2 ^ n → write_out n v bs ≡ ok (bs ++ le_bits n v)
unfolding write_out
write_out_lem n v bs h = rw (lt→ltb v (2 ^ n) h)

pub write_out_wide : (n v : ℕ) (bs : Bits) → 2 ^ n ≤ v → write_out n v bs ≡ err io
unfolding write_out
write_out_wide n v bs h = rw (le→ltb v (2 ^ n) h)

pub into_bytes : Bits → List ℕ
into_bytes bs = first_bytes (length bs / 8) bs

pub into_bytes_lem : (bytes : List ℕ) → All IsByte bytes → into_bytes (bits_of bytes) ≡ bytes
unfolding into_bytes
into_bytes_lem bytes h =
    ap (λ k. first_bytes k (bits_of bytes)) (omega (arith, length-bits_of bytes))
    ∙ ap (first_bytes (length bytes)) (sym (append-nil (bits_of bytes)))
    ∙ first_bytes-bits_of bytes [] h

unfoldable pub bit_list : BitIo
unfolding read_in read_bit read_bytes write_out into_bytes first_bytes le_bits
bit_list = record {
  Reader = ℕ × Bits;
  open_reader = λ bytes. (0, bits_of bytes);
  read_in = read_in;
  read_bit = read_bit;
  read_bytes = read_bytes;
  position_in_bits = λ r. r.0;
  Writer = Bits;
  new_writer = [];
  write_out = write_out;
  write_bit = λ b bs. ok (bs ++ b ∷ []);
  write_bytes = λ bytes bs. ok (bs ++ bits_of bytes);
  byte_align = λ bs. ok (bs ++ replicate ((8 - length bs % 8) % 8) false);
  into_bytes = into_bytes;
  holding = λ p bs. (p, bs);
  open_reader_lem = λ bytes. refl;
  position_lem = λ p bs. refl;
  read_in_lem = read_in_lem;
  read_in_end = read_in_end;
  read_bit_lem = λ p b rest. refl;
  read_bit_end = λ p. refl;
  read_bytes_lem = read_bytes_lem;
  read_bytes_end = read_bytes_end;
  written = λ bs. bs;
  new_writer_lem = refl;
  write_out_lem = write_out_lem;
  write_out_wide = write_out_wide;
  write_bit_lem = λ b bs. refl;
  write_bytes_lem = λ bytes bs h. refl;
  byte_align_lem = λ bs. refl;
  into_bytes_lem = into_bytes_lem;
}
