-- ===== src/Net/NetChannel/Header/Sequence.antt =====
-- Which headers a channel accepts, and what a refused packet leaves of it.
use quickplay_server.Base.{
  ℕ, ◌≤◌, ◌<◌, Bool, true, false, ◌≡◌, ◌⊎◌, inl, inr, refl, sym, ap, ap₂, ◌∙◌, Outcome, ok, err,
  panic, stuck, ltb, leb, ◌==◌, Bool-cases, arith, List, ne→==, ◌≢◌,
}
use quickplay_server.Errors.{
  Error, challenge_mismatch, challenge_expected, unexpected_sequence_number,
  too_many_packets_dropped,
}
use quickplay_server.Io.{BitIo}
use quickplay_server.Net.NetChannel.State.{NetChannel, flag_challenge}
use quickplay_server.Net.NetChannel.Run.{then_run}
use quickplay_server.Net.NetChannel.Update.{
  update_outgoing_subchannels, pop_completed_outgoing_transfers,
}
use quickplay_server.Net.NetChannel.Header.{
  Header, contains, check_challenge, num_packets_dropped, check_sequence, apply_header,
  accept_header, admit, flags_of, read_header_fields, read_header,
}

-- A header is in sequence: it is newer than the last, and not too many packets are missing between.
abbrev pub IsInSequence : Header → NetChannel → Type 0
IsInSequence h c =
    (c.in_sequence_nr < h.sequence)
    × (num_packets_dropped h c ≤ c.configuration.server.max_packets_dropped)

-- A failed run is not an accepted one.
err-ok : {A : Type 0} {e : Error} {a : A} → err e ≡ ok a → ⊥
err-ok h = cc h

lt_irrefl : {a b : ℕ} → a ≡ b → ¬ (a < b)
lt_irrefl e h = ground arith

check_sequence_lem :
    (h : Header) (c : NetChannel)
    → (IsInSequence h c × (check_sequence h c ≡ ok tt))
      ⊎ ((¬ IsInSequence h c) × ((e : Error) × (check_sequence h c ≡ err e)))
unfolding check_sequence
check_sequence_lem h c =
    let limit = c.configuration.server.max_packets_dropped in
    let dropped = num_packets_dropped h c in
    elim (Bool-cases (leb h.sequence c.in_sequence_nr)) [
      | inl old ↦
          inr (
            λ s. ground arith,
            (unexpected_sequence_number h.sequence c.in_sequence_nr, rw old refl),
          )
      | inr new ↦ elim (Bool-cases (ltb limit dropped)) [
        | inl lost ↦
            inr (λ s. ground arith, (too_many_packets_dropped dropped limit, rw (new, lost) refl))
        | inr close ↦ inl ((ground arith, ground arith), rw (new, close) refl)
      ]
    ]

-- A run that succeeded went on from a success.
then_run_ok :
    {A B : Type 0} (m : Outcome Error A) (c : NetChannel)
    (f : A → NetChannel → Outcome Error B × NetChannel) {b : B} {c' : NetChannel}
    → then_run m c f ≡ (ok b, c')
    → (a : A) × (m ≡ ok a) × (f a c ≡ (ok b, c'))
then_run_ok (ok a) c f e = (a, refl, e)
then_run_ok (err _) c f e = absurd (err-ok (ap (λ x. x.0) e))
then_run_ok panic c f e = cc e
then_run_ok stuck c f e = cc e

apply_header_lem :
    (h : Header) (c c' : NetChannel) (flags : ℕ)
    → apply_header h c ≡ (ok flags, c')
    → (flags ≡ h.flags)
      × (c'.in_sequence_nr ≡ h.sequence)
      × (c'.out_sequence_nr_ack ≡ h.sequence_ack)
unfolding apply_header
apply_header_lem h c c' flags applied =
    let (updated, left) = update_outgoing_subchannels h.sequence_ack h.reliable_state c in
    let left' =
      pop_completed_outgoing_transfers
        (record left { in_sequence_nr = h.sequence; out_sequence_nr_ack = h.sequence_ack }) in
    let (_, _, e) = then_run_ok updated left (λ _ _. (ok h.flags, left')) applied in
    (cc e, sym (ap (λ x. x.1.in_sequence_nr) e), sym (ap (λ x. x.1.out_sequence_nr_ack) e))

-- A header that is accepted was in sequence: its number is over the last one, and no more packets
-- than the configured limit were dropped. The channel then has the header's sequence number and
-- acknowledgement, and the call returns the header's flags.
pub accept_header-InSequence :
    (h : Header) (c c' : NetChannel) (flags : ℕ)
    → accept_header h c ≡ (ok flags, c')
    → IsInSequence h c
      × (flags ≡ h.flags)
      × (c'.in_sequence_nr ≡ h.sequence)
      × (c'.out_sequence_nr_ack ≡ h.sequence_ack)
unfolding accept_header
accept_header-InSequence h c c' flags accepted =
    let (_, checked, applied) =
      then_run_ok (check_sequence h c) c (λ _ _. apply_header h c) accepted in
    elim (check_sequence_lem h c) [
      | inl (s, _) ↦
          let (same, number, ack) = apply_header_lem h c c' flags applied in (s, same, number, ack)
      | inr (_, (e, refused)) ↦ absurd (err-ok (sym refused ∙ checked))
    ]

-- A header out of sequence is refused with an error, and the channel stays as it is.
accept_header_late :
    (h : Header) (c : NetChannel)
    → ¬ IsInSequence h c
    → (e : Error) × (accept_header h c ≡ (err e, c))
unfolding accept_header
accept_header_late h c late = elim (check_sequence_lem h c) [
  | inl (s, _) ↦ absurd (late s)
  | inr (_, (e, h')) ↦ (e, rw h' refl)
]

-- The check of the challenge: what it refuses, it refuses without a change to the channel.
check_challenge-cases :
    (h : Header) (present : Bool) (challenge : ℕ) (c : NetChannel)
    → ((check_challenge h present challenge c).0 ≡ ok tt
        × ((check_challenge h present challenge c).1.in_sequence_nr ≡ c.in_sequence_nr))
      ⊎ ((e : Error) × (check_challenge h present challenge c ≡ (err e, c)))
unfolding check_challenge
check_challenge-cases h true challenge c = elim (Bool-cases (challenge == c.challenge)) [
  | inl same ↦ inl (rw same refl, rw same refl)
  | inr other ↦ inr (challenge_mismatch challenge c.challenge, rw other refl)
]
check_challenge-cases h false challenge c = elim (Bool-cases c.has_seen_challenge) [
  | inl seen ↦ inr (challenge_expected, rw seen refl)
  | inr unseen ↦ inl (rw unseen refl, rw unseen refl)
]

-- The packet does not show the challenge of the connection.
abbrev pub LacksChallenge : Header → ℕ → NetChannel → Type 0
LacksChallenge h challenge c = (contains h.flags flag_challenge ≡ false) ⊎ (challenge ≢ c.challenge)

refused_without :
    (h : Header) (challenge : ℕ) (c : NetChannel)
    → c.has_seen_challenge ≡ true
    → LacksChallenge h challenge c
    → (e : Error) × (check_challenge h (contains h.flags flag_challenge) challenge c ≡ (err e, c))
unfolding check_challenge
refused_without h challenge c seen (inl missing) = (challenge_expected, rw (missing, seen) refl)
refused_without h challenge c seen (inr other) =
    elim (Bool-cases (contains h.flags flag_challenge)) [
      | inl present ↦ (
        challenge_mismatch challenge c.challenge,
        rw (present, ne→== challenge c.challenge other) refl,
      )
      | inr missing ↦ (challenge_expected, rw (missing, seen) refl)
    ]

-- A header that was admitted is refused the next time, whether or not its challenge passes.
admit-replay :
    (h : Header) (challenge : ℕ) (c c' : NetChannel) (flags : ℕ)
    → admit (h, challenge) c ≡ (ok flags, c')
    → (e : Error) × ((admit (h, challenge) c').0 ≡ err e)
unfolding admit
admit-replay h challenge c c' flags admitted =
    let present = contains h.flags flag_challenge in
    let (checked, c1) = check_challenge h present challenge c in
    let (_, _, accepted) = then_run_ok checked c1 (λ _ _. accept_header h c1) admitted in
    let (_, _, number, _) = accept_header-InSequence h c1 c' flags accepted in
    elim (check_challenge-cases h present challenge c') [
      | inl (passed, kept) ↦
          let c2 = (check_challenge h present challenge c').1 in
          let (e, refused) = accept_header_late h c2 (λ s. lt_irrefl (kept ∙ number) s.0) in
          (e, rw (passed, refused) refl)
      | inr (e, refused) ↦ (e, rw refused refl)
    ]

module _ (io : BitIo) (crc : List ℕ → ℕ) where
  open io use {Reader}

  -- Once the channel has seen its challenge, a packet whose header can be read with the right
  -- checksum, but shows no challenge or another one, is refused with an error, and the channel
  -- stays as it is.
  pub read_header-LacksChallenge :
      (packet : List ℕ) (r r' : Reader) (h : Header) (challenge : ℕ) (c : NetChannel)
      → read_header_fields io crc packet r ≡ ok ((h, challenge), r')
      → c.has_seen_challenge ≡ true
      → LacksChallenge h challenge c
      → (e : Error) × (read_header io crc packet r c ≡ (err e, c))
  unfolding read_header flags_of admit
  read_header-LacksChallenge packet r r' h challenge c fields seen lacks =
      let (e, refused) = refused_without h challenge c seen lacks in (e, rw (fields, refused) refl)

  read_header-admit :
      (packet : List ℕ) (r r' : Reader) (fields : Header × ℕ) (c : NetChannel) (e : Error)
      → read_header_fields io crc packet r ≡ ok (fields, r')
      → (admit fields c).0 ≡ err e
      → (read_header io crc packet r c).0 ≡ err e
  unfolding read_header flags_of
  read_header-admit packet r r' fields c e read refused = rw (read, refused) refl

  -- A packet whose header was accepted is refused with an error when it arrives again, by the
  -- channel that the first reading left.
  pub read_header-replay :
      (packet : List ℕ) (r : Reader) (c c' : NetChannel) (read : ℕ × Reader)
      → read_header io crc packet r c ≡ (ok read, c')
      → (e : Error) × ((read_header io crc packet r c').0 ≡ err e)
  unfolding read_header flags_of
  read_header-replay packet r c c' read accepted =
      let (((h, challenge), r'), fields, checking) =
        then_run_ok (read_header_fields io crc packet r) c (λ x _. flags_of io crc x c) accepted in
      let (admitted, c1) = admit (h, challenge) c in
      let (flags, ends, last) = then_run_ok admitted c1 (λ n _. (ok (n, r'), c1)) checking in
      let (e, refused) =
        admit-replay h challenge c c' flags (ap₂ (λ x y. (x, y)) ends (ap (λ x. x.1) last)) in
      (e, read_header-admit packet r r' (h, challenge) c' e fields refused)
