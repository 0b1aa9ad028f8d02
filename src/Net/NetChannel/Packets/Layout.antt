-- ===== src/Net/NetChannel/Packets/Layout.antt =====
-- The bytes of a packet: its header, whose flags and checksum are put in their places at the end, and
-- its messages.
use quickplay_server.Base.{
  ℕ, ◌+◌, ◌/◌, ◌%◌, ◌≤◌, ◌≡◌, refl, sym, ap, ap₂, ◌∙◌, Bool, true, List, [], ◌∷◌, ◌++◌,
  append_assoc, drop, set, length, length-append, All, All-append, IsByte, ok, leb, le→ltb, arith,
  le_bits, bits_of, bits_of-append, le_bits-byte, length-le_bits,
}
use quickplay_server.Io.{BitIo}
use quickplay_server.Net.NetChannel.Header.{calculate_checksum}
use quickplay_server.Net.NetChannel.Packets.{seal}

-- Two sequence numbers of four bytes each, the flags, the checksum, the reliable state, the challenge
-- and what follows.
abbrev pub packet_bytes : List ℕ → List ℕ → ℕ → ℕ → ℕ → ℕ → List ℕ → List ℕ → List ℕ
packet_bytes a b flags low high state k body = a ++ (b ++ flags ∷ low ∷ high ∷ state ∷ (k ++ body))

data Four : List ℕ → Type 0 where
  four : (w x y z : ℕ) → Four (w ∷ x ∷ y ∷ z ∷ [])

Four-length : (xs : List ℕ) → length xs ≡ 4 → Four xs
Four-length [] e = absurd (omega arith)
Four-length (w ∷ []) e = absurd (omega arith)
Four-length (w ∷ x ∷ []) e = absurd (omega arith)
Four-length (w ∷ x ∷ y ∷ []) e = absurd (omega arith)
Four-length (w ∷ x ∷ y ∷ z ∷ []) e = four w x y z
Four-length (w ∷ x ∷ y ∷ z ∷ v ∷ xs) e = absurd (omega arith)

drop-Four :
    (a b : List ℕ) (flags low high : ℕ) (rest : List ℕ)
    → Four a
    → Four b
    → drop 11 (a ++ (b ++ flags ∷ low ∷ high ∷ rest)) ≡ rest
drop-Four _ _ flags low high rest (four _ _ _ _) (four _ _ _ _) = refl

pub drop-packet_bytes :
    (a b : List ℕ) (flags low high : ℕ) (rest : List ℕ)
    → length a ≡ 4
    → length b ≡ 4
    → drop 11 (a ++ (b ++ flags ∷ low ∷ high ∷ rest)) ≡ rest
drop-packet_bytes a b flags low high rest ha hb =
    drop-Four a b flags low high rest (Four-length a ha) (Four-length b hb)

module _ (io : BitIo) (crc : List ℕ → ℕ) where
  -- The checksum of a packet with these bytes after it.
  abbrev pub checksum_of : ℕ → List ℕ → List ℕ → ℕ
  checksum_of state k body = calculate_checksum crc (state ∷ (k ++ body))

  -- What `seal` does to bytes that need no padding.
  patched : ℕ → List ℕ → List ℕ
  patched flags written =
      let flagged = set written 8 flags in
      let checksum = calculate_checksum crc (drop 11 flagged) in
      set (set flagged 9 (checksum % 256)) 10 (checksum / 256)

  seal_long :
      (flags : ℕ) (written : List ℕ)
      → 16 ≤ length written
      → seal io crc flags written ≡ ok (patched flags written)
  unfolding seal patched
  seal_long flags written long =
      let enough : leb 11 (length written) ≡ true = ground arith in
      rw (seal, le→ltb (length written) 16 long, enough) refl

  patched-Four :
      (a b k : List ℕ) (flags state : ℕ) (body : List ℕ)
      → Four a
      → Four b
      → Four k
      → patched flags (packet_bytes a b 0 0 0 state k body)
        ≡ packet_bytes a b flags
            (checksum_of state k body % 256)
            (checksum_of state k body / 256)
            state
            k
            body
  unfolding patched
  patched-Four _ _ _ flags state body (four _ _ _ _) (four _ _ _ _) (four _ _ _ _) = refl

  pub seal-packet_bytes :
      (a b k : List ℕ) (flags state : ℕ) (body : List ℕ)
      → length a ≡ 4
      → length b ≡ 4
      → length k ≡ 4
      → seal io crc flags (packet_bytes a b 0 0 0 state k body)
        ≡ ok (
            packet_bytes a b flags
              (checksum_of state k body % 256)
              (checksum_of state k body / 256)
              state
              k
              body)
  seal-packet_bytes a b k flags state body ha hb hk =
      seal_long flags (packet_bytes a b 0 0 0 state k body) (
        omega (
          arith,
          length-append a (b ++ 0 ∷ 0 ∷ 0 ∷ state ∷ (k ++ body)),
          length-append b (0 ∷ 0 ∷ 0 ∷ state ∷ (k ++ body)),
          length-append k body,
        ))
      ∙ ap ok (
          patched-Four a b k flags state body (Four-length a ha) (Four-length b hb)
            (Four-length k hk))

pub IsByte-packet_bytes :
    (a b : List ℕ) (flags low high state : ℕ) (k body : List ℕ)
    → All IsByte a
    → All IsByte b
    → All IsByte (flags ∷ low ∷ high ∷ state ∷ [])
    → All IsByte k
    → All IsByte body
    → All IsByte (packet_bytes a b flags low high state k body)
IsByte-packet_bytes a b flags low high state k body ha hb (hf, (hl, (hh, (hs, _)))) hk hy =
    All-append IsByte a _ ha
      (All-append IsByte b _ hb (hf, (hl, (hh, (hs, All-append IsByte k body hk hy)))))

-- The bits of the numbers of a header, and then others.
abbrev pub header_bits : ℕ → ℕ → ℕ → ℕ → ℕ → ℕ → List Bool → List Bool
header_bits sequence ack flags checksum state challenge rest =
    le_bits 32 sequence
    ++ (le_bits 32 ack
        ++ (le_bits 8 flags
            ++ (le_bits 16 checksum ++ (le_bits 8 state ++ (le_bits 32 challenge ++ rest)))))

pub bits_of-packet_bytes :
    (a b : List ℕ) (flags checksum state : ℕ) (k body : List ℕ) (sequence ack challenge : ℕ)
    → bits_of a ≡ le_bits 32 sequence
    → bits_of b ≡ le_bits 32 ack
    → bits_of k ≡ le_bits 32 challenge
    → bits_of (packet_bytes a b flags (checksum % 256) (checksum / 256) state k body)
      ≡ header_bits sequence ack flags checksum state challenge (bits_of body)
bits_of-packet_bytes a b flags checksum state k body sequence ack challenge ea eb ek =
    bits_of-append a _
    ∙ ap₂ ◌++◌ ea (
        bits_of-append b _
        ∙ ap₂ ◌++◌ eb (
            ap (λ t. le_bits 8 flags ++ t)
              (sym (append_assoc (le_bits 8 (checksum % 256)) (le_bits 8 (checksum / 256)) _)
                ∙ ap₂ ◌++◌ (sym (le_bits-byte 8 checksum)) (
                    ap (λ t. le_bits 8 state ++ t)
                      (bits_of-append k body ∙ ap (λ t. t ++ bits_of body) ek)))))

pub length-header_bits :
    (sequence ack flags checksum state challenge : ℕ) (rest : List Bool)
    → length (header_bits sequence ack flags checksum state challenge rest) ≡ 128 + length rest
length-header_bits sequence ack flags checksum state challenge rest =
    length-field 32 sequence _ 96 (
      length-field 32 ack _ 64 (
        length-field 8 flags _ 56 (
          length-field 16 checksum _ 40
            (length-field 8 state _ 32 (length-field 32 challenge rest 0 (omega arith))))))
  where
    length-field :
        (n v : ℕ) (bs : List Bool) (m : ℕ)
        → length bs ≡ m + length rest
        → length (le_bits n v ++ bs) ≡ n + m + length rest
    length-field n v bs m e = omega (arith, length-append (le_bits n v) bs, length-le_bits n v)
