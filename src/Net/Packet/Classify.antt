-- ===== src/Net/Packet/Classify.antt =====
-- `decode_raw_packet` against a classification by the number that the header is.
use quickplay_server.Base.{
  ℕ, ◌^◌, ◌<◌, ◌≡◌, inl, inr, refl, List, [], ◌∷◌, Option, none, some, Outcome, ok, err, panic,
  stuck, ◌==◌, ◌>>=◌, ok_or, eq_bytes, IsByte, All, arith, Bool-cases, if◌then◌else◌,
}
use quickplay_server.Errors.{
  PacketDecoderError, no_header_flags, split_packet, no_compression_type,
  unhandled_compression_type, decompression_error,
}
use quickplay_server.Net.Packet.{
  get_range, get_from, to_le_bytes, from_le_bytes, connectionless_header, splitpacket_header,
  compressedpacket_header, compression_snappy, Packet, connectionless, regular, decompress_packet,
  decode_raw_packet,
}

-- The number in the first four bytes; `none` where there are fewer.
abbrev pub header_number : List ℕ → Option ℕ
header_number (a ∷ b ∷ c ∷ d ∷ rest) = some (from_le_bytes (a ∷ b ∷ c ∷ d ∷ []))
header_number _ = none

-- A packet that is not compressed is connectionless where its header is -1.
abbrev pub classify_plain : List ℕ → Option ℕ → Outcome PacketDecoderError Packet
classify_plain packet none = err no_header_flags
classify_plain packet (some n) =
    ok (if n == connectionless_header then connectionless packet else regular packet)

-- The decompressed packet, where there is one.
abbrev pub inner_packet : (List ℕ → Option (List ℕ)) → List ℕ → Outcome PacketDecoderError (List ℕ)
inner_packet decompress_vec (_ ∷ _ ∷ _ ∷ _ ∷ a ∷ b ∷ c ∷ d ∷ compressed) =
    if eq_bytes (a ∷ b ∷ c ∷ d ∷ []) compression_snappy
    then ok_or (decompress_vec compressed) decompression_error
    else err (unhandled_compression_type (a ∷ b ∷ c ∷ d ∷ []))
inner_packet decompress_vec _ = err no_compression_type

-- A constant header is compared as a number.
header_eq :
    (a b c d n : ℕ)
    → IsByte a
    → IsByte b
    → IsByte c
    → IsByte d
    → n < 2 ^ 32
    → eq_bytes (a ∷ b ∷ c ∷ d ∷ []) (to_le_bytes n) ≡ (from_le_bytes (a ∷ b ∷ c ∷ d ∷ []) == n)
header_eq a b c d n ha hb hc hd hn = ground arith

four_bytes :
    (a b c d : ℕ) (rest : List ℕ) → get_range (a ∷ b ∷ c ∷ d ∷ rest) 0 4 ≡ some (a ∷ b ∷ c ∷ d ∷ [])
four_bytes a b c d rest = ground arith

next_bytes :
    (w x y z a b c d : ℕ) (rest : List ℕ)
    → get_range (w ∷ x ∷ y ∷ z ∷ a ∷ b ∷ c ∷ d ∷ rest) 4 8 ≡ some (a ∷ b ∷ c ∷ d ∷ [])
next_bytes w x y z a b c d rest = ground arith

rest_bytes :
    (w x y z a b c d : ℕ) (rest : List ℕ)
    → get_from (w ∷ x ∷ y ∷ z ∷ a ∷ b ∷ c ∷ d ∷ rest) 8 ≡ some rest
rest_bytes w x y z a b c d rest = ground arith

-- The end of `decode_raw_packet`.
abbrev decode_plain : List ℕ → Outcome PacketDecoderError Packet
decode_plain packet = do
  inner ← ok_or (get_range packet 0 4) no_header_flags
  ok (
      if eq_bytes inner (to_le_bytes connectionless_header)
      then connectionless packet
      else regular packet)

decode_plain_lem :
    (packet : List ℕ)
    → All IsByte packet
    → decode_plain packet ≡ classify_plain packet (header_number packet)
decode_plain_lem [] _ = refl
decode_plain_lem (a ∷ []) _ = refl
decode_plain_lem (a ∷ b ∷ []) _ = refl
decode_plain_lem (a ∷ b ∷ c ∷ []) _ = refl
decode_plain_lem (a ∷ b ∷ c ∷ d ∷ rest) (ha, (hb, (hc, (hd, _)))) =
    rw (four_bytes a b c d rest, header_eq a b c d connectionless_header ha hb hc hd (omega arith))
      refl

-- The packet's kind, read off the number in its header.
abbrev pub classify :
    (List ℕ → Option (List ℕ)) → List ℕ → Option ℕ → Outcome PacketDecoderError Packet
classify decompress_vec raw none = err no_header_flags
classify decompress_vec raw (some n) =
    let decompressed = do
      packet ← inner_packet decompress_vec raw
      classify_plain packet (header_number packet)
    in if n == splitpacket_header
      then err split_packet
      else if n == compressedpacket_header
      then decompressed
      else classify_plain raw (some n)

module _ (decompress_vec : List ℕ → Option (List ℕ)) where
  decompress_packet_lem :
      (a b c d : ℕ) (rest : List ℕ)
      → decompress_packet decompress_vec (a ∷ b ∷ c ∷ d ∷ rest)
        ≡ inner_packet decompress_vec (a ∷ b ∷ c ∷ d ∷ rest)
  unfolding decompress_packet
  decompress_packet_lem a b c d [] = ground arith
  decompress_packet_lem a b c d (w ∷ []) = ground arith
  decompress_packet_lem a b c d (w ∷ x ∷ []) = ground arith
  decompress_packet_lem a b c d (w ∷ x ∷ y ∷ []) = ground arith
  decompress_packet_lem a b c d (w ∷ x ∷ y ∷ z ∷ rest) =
      rw (next_bytes a b c d w x y z rest, rest_bytes a b c d w x y z rest) refl

-- The last step of both sides agree on a result that consists of bytes.
same_plain :
    (m : Outcome PacketDecoderError (List ℕ))
    → ((packet : List ℕ) → m ≡ ok packet → All IsByte packet)
    → (m >>= decode_plain) ≡ (m >>= λ packet. classify_plain packet (header_number packet))
same_plain (ok packet) h = decode_plain_lem packet (h packet refl)
same_plain (err e) h = refl
same_plain panic h = refl
same_plain stuck h = refl

ok_or-some :
    {A : Type 0} (o : Option A) (e : PacketDecoderError) (a : A) → ok_or o e ≡ ok a → o ≡ some a
ok_or-some none e a h = cc h
ok_or-some (some b) e a h = cc h

module _ (decompress_vec : List ℕ → Option (List ℕ))
    (gives_bytes : (xs ys : List ℕ) → decompress_vec xs ≡ some ys → All IsByte ys) where
  inner_packet-IsByte :
      (a b c d : ℕ) (rest packet : List ℕ)
      → inner_packet decompress_vec (a ∷ b ∷ c ∷ d ∷ rest) ≡ ok packet
      → All IsByte packet
  inner_packet-IsByte a b c d [] packet h = cc h
  inner_packet-IsByte a b c d (w ∷ []) packet h = cc h
  inner_packet-IsByte a b c d (w ∷ x ∷ []) packet h = cc h
  inner_packet-IsByte a b c d (w ∷ x ∷ y ∷ []) packet h = cc h
  inner_packet-IsByte a b c d (w ∷ x ∷ y ∷ z ∷ rest) packet h =
      elim (Bool-cases (eq_bytes (w ∷ x ∷ y ∷ z ∷ []) compression_snappy)) [
        | inl snappy ↦
            gives_bytes rest packet
              (ok_or-some (decompress_vec rest) decompression_error packet (rw snappy at h))
        | inr other ↦ cc (rw other at h)
      ]

  -- For a packet of bytes, and a decoder whose results consist of bytes, `decode_raw_packet`
  -- follows the number in the first four bytes, read with the least byte first: too short a
  -- packet and a split packet are errors, a compressed packet is decompressed after its eight
  -- bytes of header if its type is SNAP, and what results is connectionless exactly if its own
  -- first number is 2^32 - 1.
  pub decode_raw_packet-classify :
      (raw : List ℕ)
      → All IsByte raw
      → decode_raw_packet decompress_vec raw ≡ classify decompress_vec raw (header_number raw)
  unfolding decode_raw_packet
  decode_raw_packet-classify [] _ = refl
  decode_raw_packet-classify (a ∷ []) _ = refl
  decode_raw_packet-classify (a ∷ b ∷ []) _ = refl
  decode_raw_packet-classify (a ∷ b ∷ c ∷ []) _ = refl
  decode_raw_packet-classify (a ∷ b ∷ c ∷ d ∷ rest) (ha, (hb, (hc, (hd, hs)))) =
      let n = from_le_bytes (a ∷ b ∷ c ∷ d ∷ []) in
      let is_split = header_eq a b c d splitpacket_header ha hb hc hd (omega arith) in
      let is_compressed = header_eq a b c d compressedpacket_header ha hb hc hd (omega arith) in
      let plain = decode_plain_lem (a ∷ b ∷ c ∷ d ∷ rest) (ha, (hb, (hc, (hd, hs)))) in
      let first = four_bytes a b c d rest in
      let inner =
        same_plain (inner_packet decompress_vec (a ∷ b ∷ c ∷ d ∷ rest))
          (inner_packet-IsByte a b c d rest) in
      elim (Bool-cases (n == splitpacket_header)) [
        | inl split ↦ rw (first, is_split, split) refl
        | inr whole ↦ elim (Bool-cases (n == compressedpacket_header)) [
          | inl compressed ↦
              rw
                (
                  first,
                  is_split,
                  whole,
                  is_compressed,
                  compressed,
                  decompress_packet_lem decompress_vec a b c d rest,
                )
                inner
          | inr uncompressed ↦ rw (first, is_split, whole, is_compressed, uncompressed) plain
        ]
      ]
