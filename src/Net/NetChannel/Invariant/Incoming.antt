-- ===== src/Net/NetChannel/Invariant/Incoming.antt =====
-- A block of a packet: reading it does not panic, and keeps the length of its transfer.
use quickplay_server.Base.{
  ℕ, ◌+◌, ◌*◌, ◌≤◌, ◌<◌, ◌^◌, ◌≡◌, refl, ◌∙◌, ◌⊎◌, inl, inr, Bool, List, ◌++◌, Option, none, some,
  Outcome, ok, err, ◌==◌, ltb, Bool-cases, arith, if◌then◌else◌, u32, All-set, length, length-set,
  length-append, length-replicate, set, take, drop, length-take, length-drop, ltb→le,
}
use quickplay_server.Errors.{Error, file_transfer, compressed_data}
use quickplay_server.Io.{BitIo}
use quickplay_server.Io.Laws.{read_bytes_cases}
use quickplay_server.Io.Advance.{
  Advances, fails, read_in-Advances, read_bit-Advances, bind-Advances, if-Advances, ok-Advances,
}
use quickplay_server.IoUtil.Varint.{read_varint32-Advances}
use quickplay_server.Net.NetChannel.State.{
  NetChannel, IncomingReliableData, new_incoming, bytes_to_fragments,
}
use quickplay_server.Net.NetChannel.Receive.{
  BlockHeader, Block, splice, received_length, block_at, start_transfer, read_multi_header,
  read_single_header, read_block_header, receive_block, count_block,
}
use quickplay_server.Net.NetChannel.Invariant.{Origin, IsChannel, IsIncoming}
use quickplay_server.Net.NetChannel.Invariant.Headers.{IsAt}

abbrev pub IsSize : Option ℕ → Type 0
IsSize none = Unit {0}
IsSize (some n) = n < 2 ^ 32

pub set_incoming :
    {k : Origin} {c : NetChannel} (i : ℕ) (d : Option IncomingReliableData)
    → IsIncoming d
    → IsChannel k c
    → IsChannel k (record c { incoming_reliable_data = set c.incoming_reliable_data i d })
set_incoming i d hd h = record {
  same_challenge = h.same_challenge;
  same_configuration = h.same_configuration;
  two_incoming = length-set _ i d ∙ h.two_incoming;
  incoming = All-set IsIncoming _ i d h.incoming hd;
  eight_subchannels = h.eight_subchannels;
  subchannels = h.subchannels;
  accounts = h.accounts;
}

pub start_transfer-IsChannel :
    {k : Origin} (stream : ℕ) (h : BlockHeader) (c : NetChannel)
    → IsSize h.size
    → IsChannel k c
    → IsChannel k (start_transfer stream h c).1
unfolding start_transfer new_incoming
start_transfer-IsChannel {k} stream h c hs hc =
    elim h.size
        as (λ o.
          IsSize o
          → IsChannel k
              (elim o as (λ _. Block × NetChannel) [
                | none ↦ (block_at h.start_fragment h.num_fragments, c)
                | some size ↦ (
                  block_at h.start_fragment (if h.is_multi_block then h.num_fragments else _),
                  record c {
                    incoming_reliable_data =
                        set c.incoming_reliable_data stream (some (new_incoming none size));
                  },
                )
              ]).1) [
                | none ↦ λ _. hc
                | some size ↦
                    λ lt. set_incoming stream _ (omega (arith, length-replicate {A = ℕ} size 0)) hc
              ]
      hs

-- The bytes that a block replaces are as many as come in their place.
length-splice :
    (offset len : ℕ) (bytes content : List ℕ)
    → offset + len ≤ length content
    → length bytes ≡ len
    → length (splice offset len bytes content) ≡ length content
length-splice offset len bytes content le e = omega (
  arith,
  length-append (take offset content) (bytes ++ drop (offset + len) content),
  length-append bytes (drop (offset + len) content),
  length-take offset content (omega arith),
  length-drop (offset + len) content le,
)

length-slice :
    (offset len : ℕ) (content : List ℕ)
    → offset + len ≤ length content
    → length (take len (drop offset content)) ≡ len
length-slice offset len content le =
    length-take len (drop offset content) (omega (arith, length-drop offset content (omega arith)))

module _ (io : BitIo) where
  open io use {Reader, holding, open_reader}

  read_multi_header-Advances :
      (p : ℕ) (bs : List Bool)
      → Advances io (λ h. IsSize h.size) 0 p bs (read_multi_header io (holding p bs))
  unfolding read_multi_header
  read_multi_header-Advances p bs =
      bind-Advances io 0 _ (omega arith) (read_in-Advances io 18 p bs) λ start p1 bs1 _ _.
        bind-Advances io 0 _ (omega arith) (read_in-Advances io 3 p1 bs1) λ num p2 bs2 _ _.
          if-Advances io (u32 (start * 256) == 0)
            (λ _.
              bind-Advances io 0 _ (omega arith) (read_bit-Advances io p2 bs2) λ is_file p3 bs3 _ _.
                elim (Bool-cases is_file) [
                  | inl refused ↦ rw refused (fails file_transfer refl)
                  | inr kept ↦ rw kept (
                      bind-Advances io 0 _ (omega arith) (read_bit-Advances io p3 bs3)
                        λ is_compressed p4 bs4 _ _. elim (Bool-cases is_compressed) [
                          | inl refused ↦ rw refused (fails compressed_data refl)
                          | inr kept' ↦ rw kept' (
                              bind-Advances io 0 _ (omega arith) (read_in-Advances io 26 p4 bs4)
                                λ size p5 bs5 lt _. ok-Advances io _ p5 bs5 _ (omega arith))
                        ])
                ])
            (λ _. ok-Advances io _ p2 bs2 _ tt)

  read_single_header-Advances :
      (p : ℕ) (bs : List Bool)
      → Advances io (λ h. IsSize h.size) 0 p bs (read_single_header io (holding p bs))
  unfolding read_single_header
  read_single_header-Advances p bs =
      bind-Advances io 0 _ (omega arith) (read_bit-Advances io p bs) λ is_compressed p1 bs1 _ _.
        elim (Bool-cases is_compressed) [
          | inl refused ↦ rw refused (fails compressed_data refl)
          | inr kept ↦ rw kept (
              bind-Advances io 0 _ (omega arith) (read_varint32-Advances io p1 bs1)
                λ size p2 bs2 lt _. ok-Advances io _ p2 bs2 _ lt)
        ]

  pub read_block_header-Advances :
      (p : ℕ) (bs : List Bool)
      → Advances io (λ h. IsSize h.size) 0 p bs (read_block_header io (holding p bs))
  unfolding read_block_header
  read_block_header-Advances p bs =
      bind-Advances io 0 _ (omega arith) (read_bit-Advances io p bs) λ is_multi_block p1 bs1 _ _.
        if-Advances io is_multi_block (λ _. read_multi_header-Advances p1 bs1)
          (λ _. read_single_header-Advances p1 bs1)

  -- A block that is received, or refused, leaves a transfer of the same length.
  pub data Lands (n l : ℕ) (m : Outcome Error Reader × IncomingReliableData) : Type 0 where
    refused : (e : Error) → m.0 ≡ err e → length m.1.content ≡ l → Lands n l m
    landed : (r : Reader) → IsAt io n r → m.0 ≡ ok r → length m.1.content ≡ l → Lands n l m

  count_block-Lands :
      {n p l : ℕ} (b : Block) (d : IncomingReliableData) (result : Outcome Error Reader)
      → ((result ≡ err Error.io)
          ⊎ ((q : ℕ) × (rest : List Bool) × (q + length rest ≡ p) × (result ≡ ok (holding q rest))))
      → n ≡ p
      → length d.content ≡ l
      → Lands n l (count_block io b d result)
  count_block-Lands b d result (inl e) at len = rw e (refused Error.io refl len)
  count_block-Lands b d result (inr (q, rest, end, e)) at len =
      rw e (landed (holding q rest) (q, rest, refl, omega arith) refl len)

  pub receive_block-Lands :
      (n p : ℕ) (bs : List Bool) (d : IncomingReliableData) (b : Block)
      → n ≡ p + length bs
      → Lands n (length d.content) (receive_block io d b (holding p bs))
  unfolding receive_block
  receive_block-Lands n p bs d b at =
      elim (Bool-cases (ltb (bytes_to_fragments d.size) (u32 (b.start + b.num)))) [
        | inl beyond ↦ rw (receive_block, beyond) (refused _ refl refl)
        | inr within ↦
            let len = received_length d b in
            elim (Bool-cases (ltb (length d.content) (b.offset + len))) [
              | inl over ↦ rw (receive_block, within, over) (refused _ refl refl)
              | inr fits ↦
                  let le : b.offset + len ≤ length d.content = ltb→le _ _ fits in
                  let buffer = take len (drop b.offset d.content) in
                  let (read, kept) = read_bytes_cases io buffer p bs in
                  rw (receive_block, within, fits)
                    (count_block-Lands b _ _ read at (
                      length-splice b.offset len _ d.content le
                        (kept ∙ length-slice b.offset len d.content le)))
            ]
      ]
