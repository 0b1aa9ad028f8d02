-- ===== src/Io/Laws.antt =====
-- What follows from the laws for a reader with any bits before it, and for one byte.
use quickplay_server.Base.{
  ℕ, ◌+◌, ◌^◌, ◌<◌, ◌≡◌, refl, ◌⊎◌, inl, inr, ap, Bool, List, [], ◌∷◌, ◌++◌, append_assoc,
  append-nil, length, length-append, IsByte, ok, err, arith, le_bits, bits_of, length-le_bits,
  le_bits-split, ◌*◌, sym, ◌∙◌, take, drop, take-drop, length-take, length-drop, bits_of-onto,
}
use quickplay_server.Errors.{io}
use quickplay_server.Io.{BitIo}
use native.Mathlib.Decide.{dec_le}

module _ (s : BitIo) where
  open s use {Reader, read_in, read_bit, holding, written, write_out}

  -- A field is missing, or it is a number of its width and the reader moves on by that width.
  pub read_in_cases :
      (n p : ℕ) (bs : List Bool)
      → (read_in n (holding p bs) ≡ err io)
        ⊎ ((v : ℕ) × (rest : List Bool) × (v < 2 ^ n)
            × (length bs ≡ n + length rest)
            × (read_in n (holding p bs) ≡ ok (v, holding (p + n) rest)))
  read_in_cases n p bs = elim (dec_le n (length bs)) [
    | yes enough ↦
        let (v, rest, lt, e) = le_bits-split n bs enough in
        inr (
          v,
          rest,
          lt,
          omega (arith, ap length e, length-append (le_bits n v) rest, length-le_bits n v),
          rw e (s.read_in_lem n p v rest lt),
        )
    | no short ↦ inl (s.read_in_end n p bs (omega arith))
  ]

  pub read_bit_cases :
      (p : ℕ) (bs : List Bool)
      → (read_bit (holding p bs) ≡ err io)
        ⊎ ((b : Bool) × (rest : List Bool) × (bs ≡ b ∷ rest)
            × (read_bit (holding p bs) ≡ ok (b, holding (p + 1) rest)))
  read_bit_cases p [] = inl (s.read_bit_end p)
  read_bit_cases p (b ∷ rest) = inr (b, rest, refl, s.read_bit_lem p b rest)

  pub read_byte :
      (p b : ℕ) (bs : List ℕ) (rest : List Bool)
      → IsByte b
      → read_in 8 (holding p (bits_of (b ∷ bs) ++ rest))
        ≡ ok (b, holding (p + 8) (bits_of bs ++ rest))
  read_byte p b bs rest h =
      rw (append_assoc (le_bits 8 b) (bits_of bs) rest) (s.read_in_lem 8 p b (bits_of bs ++ rest) h)

  pub write_byte :
      (b : ℕ) (bs : List Bool)
      → IsByte b
      → write_out 8 b (written bs) ≡ ok (written (bs ++ bits_of (b ∷ [])))
  write_byte b bs h = rw append-nil (s.write_out_lem 8 b bs h)

  -- Bytes are all there, or too few are; the buffer keeps its length.
  pub read_bytes_cases :
      (buffer : List ℕ) (p : ℕ) (bs : List Bool)
      → (((s.read_bytes buffer (holding p bs)).0 ≡ err io)
          ⊎ ((q : ℕ) × (rest : List Bool) × (q + length rest ≡ p + length bs)
              × ((s.read_bytes buffer (holding p bs)).0 ≡ ok (holding q rest))))
        × (length (s.read_bytes buffer (holding p bs)).1 ≡ length buffer)
  read_bytes_cases buffer p bs = elim (dec_le (8 * length buffer) (length bs)) [
    | yes enough ↦
        let n = 8 * length buffer in
        let (out, all, count, e) =
          bits_of-onto (length buffer) (take n bs) (length-take n bs enough) in
        let whole : bs ≡ bits_of out ++ drop n bs =
          sym (take-drop n bs) ∙ ap (λ t. t ++ drop n bs) (sym e) in
        let read : s.read_bytes buffer (holding p bs)
            ≡ (ok (holding (p + 8 * length out) (drop n bs)), out) =
          ap (λ t. s.read_bytes buffer (holding p t)) whole
          ∙ s.read_bytes_lem buffer out p (drop n bs) (sym count) all in
        (
          inr (
            p + 8 * length out,
            drop n bs,
            omega (arith, length-drop n bs enough),
            ap (λ t. t.0) read,
          ),
          ap (λ t. length t.1) read ∙ count,
        )
    | no short ↦ let (failed, len) = s.read_bytes_end buffer p bs (omega arith) in (inl failed, len)
  ]
