-- ===== src/Net/NetChannel/Invariant/Headers.antt =====
-- Reading a header keeps the invariant of the channel and does not panic.
use quickplay_server.Base.{
  ℕ, ◌+◌, ◌/◌, ◌≡◌, inl, inr, refl, Bool, true, false, not, List, length, Outcome, ok, ◌==◌, ltb,
  leb, Bool-cases, arith, drop, if◌then◌else◌, bit_and,
}
use quickplay_server.Errors.{Error, checksum_mismatch}
use quickplay_server.Io.{BitIo}
use quickplay_server.Io.Advance.{
  Advances, fails, reads, read_in-Advances, bind-Advances, if-Advances, ok-Advances,
  reject-Advances, weaken,
}
use quickplay_server.Net.NetChannel.State.{NetChannel, flags_all, flag_choked, flag_challenge}
use quickplay_server.Net.NetChannel.Header.{
  Header, contains, check_challenge, num_packets_dropped, check_sequence, apply_header,
  accept_header, admit, read_header_fields, read_state, calculate_checksum, flags_of, read_header,
}
use quickplay_server.Net.NetChannel.Invariant.{
  Origin, IsChannel, Settles, returns, if-Settles, then_run-Settles,
}
use quickplay_server.Net.NetChannel.Invariant.Acknowledged.{
  update_outgoing_subchannels-Settles, pop_completed_outgoing_transfers-IsChannel,
}

-- The fields that the invariant does not speak of.
pub set_numbers :
    {k : Origin} {c : NetChannel} (i o : ℕ)
    → IsChannel k c
    → IsChannel k (record c { in_sequence_nr = i; out_sequence_nr_ack = o })
set_numbers i o h = record {
  same_challenge = h.same_challenge;
  same_configuration = h.same_configuration;
  two_incoming = h.two_incoming;
  incoming = h.incoming;
  eight_subchannels = h.eight_subchannels;
  subchannels = h.subchannels;
  accounts = h.accounts;
}

set_seen :
    {k : Origin} {c : NetChannel}
    → IsChannel k c
    → IsChannel k (record c { has_seen_challenge = true })
set_seen h = record {
  same_challenge = h.same_challenge;
  same_configuration = h.same_configuration;
  two_incoming = h.two_incoming;
  incoming = h.incoming;
  eight_subchannels = h.eight_subchannels;
  subchannels = h.subchannels;
  accounts = h.accounts;
}

check_challenge-Settles :
    {k : Origin} (h : Header) (present : Bool) (challenge : ℕ) (c : NetChannel)
    → IsChannel k c
    → Settles k (λ _. Unit {0}) (check_challenge h present challenge c)
unfolding check_challenge
check_challenge-Settles h true challenge c hc =
    if-Settles _ (returns tt tt refl (set_seen hc)) (Settles.fails _ refl hc)
check_challenge-Settles h false challenge c hc =
    if-Settles _ (Settles.fails _ refl hc) (returns tt tt refl hc)

check_sequence-Settles :
    {k : Origin} (h : Header) (c : NetChannel)
    → IsChannel k c
    → Settles k (λ _. Unit {0}) (check_sequence h c, c)
unfolding check_sequence
check_sequence-Settles h c hc = elim (Bool-cases (leb h.sequence c.in_sequence_nr)) [
  | inl old ↦ rw old (Settles.fails _ refl hc)
  | inr new ↦
      rw new
        (elim (Bool-cases
          (ltb c.configuration.server.max_packets_dropped (num_packets_dropped h c))) [
            | inl lost ↦ rw lost (Settles.fails _ refl hc)
            | inr close ↦ rw close (returns tt tt refl hc)
          ])
]

apply_header-Settles :
    {k : Origin} (h : Header) (c : NetChannel)
    → IsChannel k c
    → Settles k (λ _. Unit {0}) (apply_header h c)
unfolding apply_header
apply_header-Settles h c hc =
    then_run-Settles _ _ _
      (update_outgoing_subchannels-Settles h.sequence_ack h.reliable_state c hc)
      λ _ _ hc'.
        returns h.flags tt refl
          (pop_completed_outgoing_transfers-IsChannel _ (set_numbers h.sequence h.sequence_ack hc'))

accept_header-Settles :
    {k : Origin} (h : Header) (c : NetChannel)
    → IsChannel k c
    → Settles k (λ _. Unit {0}) (accept_header h c)
unfolding accept_header
accept_header-Settles h c hc =
    then_run-Settles _ _ _ (check_sequence-Settles h c hc) λ _ _ hc'. apply_header-Settles h c hc'

admit-Settles :
    {k : Origin} (fields : Header × ℕ) (c : NetChannel)
    → IsChannel k c
    → Settles k (λ _. Unit {0}) (admit fields c)
unfolding admit
admit-Settles (h, challenge) c hc =
    then_run-Settles _ _ _
      (check_challenge-Settles h (contains h.flags flag_challenge) challenge c hc)
      λ _ _ hc'. accept_header-Settles h _ hc'

module _ (io : BitIo) where
  open io use {Reader, read_in, holding}

  -- A field that is there if a flag is set.
  optional-Advances :
      (b : Bool) (n p : ℕ) (bs : List Bool)
      → Advances io
          (λ _. Unit {0})
          0
          p
          bs
          (if b then read_in n (holding p bs) else ok (0, holding p bs))
  optional-Advances b n p bs =
      if-Advances io b (λ _. weaken io (read_in-Advances io n p bs) (omega arith) (λ _ _. tt))
        (λ _. ok-Advances io _ p bs 0 tt)

  -- The reader is at a place of data of `n` bits.
  abbrev pub IsAt : ℕ → Reader → Type 0
  IsAt n r = (p : ℕ) × (bs : List Bool) × (r ≡ holding p bs) × (n ≡ p + length bs)

  -- A read beside the channel.
  pub read-Settles :
      {A : Type 0} {P : A → Type 0} {k : Origin} {n p q : ℕ} {bs : List Bool}
      {m : Outcome Error (A × Reader)} {c : NetChannel}
      → Advances io P q p bs m
      → n ≡ p + length bs
      → IsChannel k c
      → Settles k (λ x. P x.0 × IsAt n x.1) (m, c)
  read-Settles (fails e failed) at hc = Settles.fails e failed hc
  read-Settles (reads a q rest pa le len e) at hc =
      returns (a, holding q rest) (pa, (q, rest, refl, omega arith)) e hc

module _ (io : BitIo) (crc : List ℕ → ℕ) where
  open io use {holding}

  read_state-Advances :
      (sequence sequence_ack flags p : ℕ) (bs : List Bool)
      → Advances io
          (λ _. Unit {0})
          0
          p
          bs
          (read_state io crc sequence sequence_ack flags (holding p bs))
  read_state-Advances sequence sequence_ack flags p bs =
      bind-Advances io 0 _ (omega arith) (read_in-Advances io 8 p bs) λ state p5 bs5 _ _.
        bind-Advances io 0 _ (omega arith)
          (optional-Advances io (contains flags flag_choked) 8 p5 bs5)
          λ n_choked p6 bs6 _ _.
            bind-Advances io 0 _ (omega arith)
              (optional-Advances io (contains flags flag_challenge) 32 p6 bs6)
              λ challenge p7 bs7 _ _. ok-Advances io _ p7 bs7 _ tt

  pub read_header_fields-Advances :
      (packet : List ℕ) (p : ℕ) (bs : List Bool)
      → Advances io (λ _. Unit {0}) 0 p bs (read_header_fields io crc packet (holding p bs))
  unfolding read_header_fields
  read_header_fields-Advances packet p bs =
      bind-Advances io 0 _ (omega arith) (read_in-Advances io 32 p bs) λ sequence p1 bs1 _ _.
        bind-Advances io 0 _ (omega arith) (read_in-Advances io 32 p1 bs1)
          λ sequence_ack p2 bs2 _ _.
            bind-Advances io 0 _ (omega arith) (read_in-Advances io 8 p2 bs2)
              λ raw_flags p3 bs3 _ _.
                bind-Advances io 0 _ (omega arith) (read_in-Advances io 16 p3 bs3)
                  λ checksum p4 bs4 _ _.
                    let calculated =
                      calculate_checksum crc
                        (drop (io.position_in_bits (holding p4 bs4) / 8) packet) in
                    reject-Advances io (not (calculated == checksum))
                      (checksum_mismatch calculated checksum)
                      (λ _.
                        read_state io crc sequence sequence_ack (bit_and raw_flags flags_all)
                          (holding p4 bs4))
                      (read_state-Advances sequence sequence_ack (bit_and raw_flags flags_all) p4
                        bs4)

  pub read_header-Settles :
      {k : Origin} {n : ℕ} (p : ℕ) (bs : List Bool) (packet : List ℕ) (c : NetChannel)
      → n ≡ p + length bs
      → IsChannel k c
      → Settles k (λ x. IsAt io n x.1) (read_header io crc packet (holding p bs) c)
  unfolding read_header flags_of
  read_header-Settles p bs packet c at hc =
      then_run-Settles _ _ _ (read-Settles io (read_header_fields-Advances packet _ _) at hc)
        λ (fields, r) (_, here) hc'.
          then_run-Settles _ _ _ (admit-Settles fields c hc')
            λ flags _ hc''. returns (flags, r) here refl hc''
