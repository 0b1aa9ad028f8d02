-- ===== src/Net/NetChannel/Invariant/Written.antt =====
-- `write_packet` and `queue_reliable_messages` keep the invariant of the channel.
use quickplay_server.Base.{
  ℕ, ◌+◌, ◌≡◌, ◌⊎◌, inl, inr, refl, sym, ap, ◌∙◌, false, List, [], ◌∷◌, ◌++◌, some, some-injective,
  subst, ◌^◌, All-append, length, All-get_elem?, Outcome, ok, err, panic, stuck, Option-cases,
  get_elem?, set, arith, u32, ◌>>=◌, ltb, Bool-cases, ok-injective, bind_ok,
}
use quickplay_server.Errors.{Error}
use quickplay_server.Io.{BitIo}
use quickplay_server.Net.Message.{Message}
use quickplay_server.Net.NetChannel.State.{
  OutgoingReliableData, SubChannel, free, waiting_to_send, waiting_for_ack, seq, NetChannel,
  find_subchannel, new_outgoing,
}
use quickplay_server.Net.NetChannel.Run.{Run, then_run}
use quickplay_server.Net.NetChannel.Fill.{fill_outgoing_subchannel}
use quickplay_server.Net.NetChannel.Send.{
  write_stream, write_streams, write_subchannel, write_outgoing_reliable_data,
}
use quickplay_server.Net.NetChannel.Messages.{payload, push_transfer, queue_reliable_messages}
use quickplay_server.Net.NetChannel.Packets.{write_header, finish_packet, write_packet}
use quickplay_server.Net.NetChannel.Invariant.{
  Origin, in_flight, IsSubChannel, IsFresh, Account, Accounts, IsChannel, Settles, returns, fails,
}
use quickplay_server.Net.NetChannel.Invariant.Acknowledged.{replace_subchannel}
use quickplay_server.Net.NetChannel.Invariant.Outgoing.{
  find_subchannel-some, fill_outgoing_subchannel-Settles,
}

pub Settles-IsChannel :
    {A : Type 0} {k : Origin} {P : A → Type 0} {m : Outcome Error A × NetChannel}
    → Settles k P m
    → IsChannel k m.1
Settles-IsChannel (fails e failed h) = h
Settles-IsChannel (returns a p returned h) = h

pub then_run-IsChannel :
    {A B : Type 0} {k : Origin} (r : Outcome Error A) (c : NetChannel) (f : A → Run B)
    → IsChannel k c
    → ((a : A) → r ≡ ok a → IsChannel k (f a c).1)
    → IsChannel k (then_run r c f).1
then_run-IsChannel (ok a) c f h next = next a refl
then_run-IsChannel (err e) c f h next = h
then_run-IsChannel panic c f h next = h
then_run-IsChannel stuck c f h next = h

for_ack_ne_free : waiting_for_ack ≡ free → ⊥
for_ack_ne_free e = cc e

-- What the loop over the streams may change of the subchannel `s`.
record IsSent (s t : SubChannel) : Type 0 where
  starts : t.start_fragment ≡ s.start_fragment
  nums : t.num_fragments ≡ s.num_fragments
  state : (t.state ≡ s.state) ⊎ (t.state ≡ waiting_for_ack)

module _ (io : BitIo) where
  open io use {Writer, write_bit, write_out}

  -- One stream, and then the others.
  go_on-IsSent :
      (r : Outcome Error Writer) (s t : SubChannel) (f : Writer → Outcome Error Writer × SubChannel)
      → IsSent s t
      → ((w : Writer) → IsSent s (f w).1)
      → IsSent s
          (elim r as (λ _. Outcome Error Writer × SubChannel) [
            | ok w ↦ f w
            | err e ↦ (err e, t)
            | panic ↦ (panic, t)
            | stuck ↦ (stuck, t)
          ]).1
  go_on-IsSent (ok w) s t f h next = next w
  go_on-IsSent (err e) s t f h next = h
  go_on-IsSent panic s t f h next = h
  go_on-IsSent stuck s t f h next = h

  write_streams-IsSent :
      (max_size out_seq : ℕ) (s t : SubChannel) (starts nums : List ℕ)
      (streams : List (List OutgoingReliableData)) (w : Writer)
      → IsSent s t
      → IsSent s (write_streams io max_size out_seq t starts nums streams w).1
  unfolding write_streams
  write_streams-IsSent max_size out_seq s t starts nums [] w h = h
  write_streams-IsSent max_size out_seq s t [] nums (x ∷ ss) w h = h
  write_streams-IsSent max_size out_seq s t (a ∷ as') [] (x ∷ ss) w h = h
  write_streams-IsSent max_size out_seq s t (a ∷ as') (n ∷ ns) ([] ∷ ss) w h =
      go_on-IsSent (write_bit false w) s t _ h
        (λ w'. write_streams-IsSent max_size out_seq s t as' ns ss w' h)
  write_streams-IsSent max_size out_seq s t (a ∷ as') (n ∷ ns) ((d ∷ ds) ∷ ss) w h =
      go_on-IsSent (write_stream io max_size d a n w) s t _ h (λ w'.
        write_streams-IsSent max_size out_seq s
          (record t { state = waiting_for_ack; send_seq_nr = seq out_seq }) as' ns ss w'
          (record { starts = h.starts; nums = h.nums; state = inr refl }))

  write_subchannel-IsChannel :
      {k : Origin} (i : ℕ) (s : SubChannel) (w : Writer) (c : NetChannel)
      → IsChannel k c
      → get_elem? c.outgoing_subchannels i ≡ some s
      → IsChannel k (write_subchannel io i (some s) w c).1
  unfolding write_subchannel
  write_subchannel-IsChannel i s w c h e =
      let hs = All-get_elem? IsSubChannel c.outgoing_subchannels i h.subchannels e in
      then_run-IsChannel (write_out 3 i w) c _ h λ w' _.
        let (r, t) =
          write_streams io c.configuration.server.max_reliable_packet_size c.out_sequence_nr s
            s.start_fragment s.num_fragments c.outgoing_reliable_data w' in
        let sent =
          write_streams-IsSent c.configuration.server.max_reliable_packet_size c.out_sequence_nr s s
            s.start_fragment s.num_fragments c.outgoing_reliable_data w'
            (record { starts = refl; nums = refl; state = inl refl }) in
        let h' =
          replace_subchannel i s t h e
            (
              ap length sent.starts ∙ hs.0,
              ap length sent.nums ∙ hs.1,
              λ is_free. sent.nums ∙ elim sent.state [
                | inl same ↦ hs.2 (sym same ∙ is_free)
                | inr waits ↦ absurd (for_ack_ne_free (sym waits ∙ is_free))
              ],
            )
            sent.nums in
        then_run-IsChannel r (record c { outgoing_subchannels = set c.outgoing_subchannels i t }) _
          h' (λ _ _. h')

  write_outgoing_reliable_data-IsChannel :
      {k : Origin} (w : Writer) (c : NetChannel)
      → IsChannel k c
      → IsChannel k (write_outgoing_reliable_data io w c).1
  unfolding write_outgoing_reliable_data
  write_outgoing_reliable_data-IsChannel w c h =
      let (filled, c') = fill_outgoing_subchannel c in
      let h' = Settles-IsChannel (fill_outgoing_subchannel-Settles c h) in
      then_run-IsChannel filled c' _ h' λ _ _.
        elim (Option-cases (find_subchannel c' waiting_to_send)) [
          | inl idle ↦ rw idle h'
          | inr (i, found) ↦
              let (s, here, _) = find_subchannel-some c' waiting_to_send i found in
              rw (found, here) (write_subchannel-IsChannel i s w c' h' here)
        ]

  next_sequence :
      {k : Origin} {c : NetChannel} (n : ℕ)
      → IsChannel k c
      → IsChannel k (record c { out_sequence_nr = n })
  next_sequence n h = record {
    same_challenge = h.same_challenge;
    same_configuration = h.same_configuration;
    two_incoming = h.two_incoming;
    incoming = h.incoming;
    eight_subchannels = h.eight_subchannels;
    subchannels = h.subchannels;
    accounts = h.accounts;
  }

  -- However `write_packet` ends, also with a failed assertion, the channel that it leaves satisfies
  -- the invariant if the channel before did: the fragments in flight stay in the account of their
  -- transfers.
  pub write_packet-IsChannel :
      {k : Origin} (crc : List ℕ → ℕ) (messages : List Message) (c : NetChannel)
      → IsChannel k c
      → IsChannel k (write_packet io crc messages c).1
  unfolding write_packet
  write_packet-IsChannel crc messages c h = then_run-IsChannel (write_header io crc c) c _ h λ w _.
      let (reliable, c') = write_outgoing_reliable_data io w c in
      let h' = write_outgoing_reliable_data-IsChannel w c h in
      then_run-IsChannel reliable c' _ h' λ (is_reliable, w') _.
        then_run-IsChannel (finish_packet io crc is_reliable messages w') c' _ h'
          λ buffer _. next_sequence (u32 (c'.out_sequence_nr + 1)) h'

  push_transfer-Account :
      (n : ℕ) (stream : List OutgoingReliableData) (d : OutgoingReliableData)
      → IsFresh d
      → Account n stream
      → Account n (stream ++ d ∷ [])
  push_transfer-Account n [] d fresh h = (omega arith, omega arith, tt)
  push_transfer-Account n (x ∷ xs) d fresh h =
      (h.0, h.1, All-append IsFresh xs (d ∷ []) h.2 (fresh, tt))

  push_transfer-Accounts :
      (ns : List ℕ) (streams : List (List OutgoingReliableData)) (q : List OutgoingReliableData)
      (d : OutgoingReliableData)
      → IsFresh d
      → get_elem? streams 0 ≡ some q
      → Accounts ns streams
      → Accounts ns (set streams 0 (q ++ d ∷ []))
  push_transfer-Accounts ns [] q d fresh e h = cc e
  push_transfer-Accounts [] (s ∷ ss) q d fresh e h = absurd h
  push_transfer-Accounts (n ∷ ns) (s ∷ ss) q d fresh e h = (
    subst (λ t. Account n (t ++ d ∷ [])) (some-injective e) (push_transfer-Account n s d fresh h.0),
    h.1,
  )

  push_transfer-IsChannel :
      {k : Origin} (d : OutgoingReliableData) (c : NetChannel)
      → IsFresh d
      → IsChannel k c
      → IsChannel k (push_transfer io d (get_elem? c.outgoing_reliable_data 0) c).1
  unfolding push_transfer
  push_transfer-IsChannel {k} d c fresh h =
      elim (Option-cases (get_elem? c.outgoing_reliable_data 0)) [
        | inl missing ↦ rw missing h
        | inr (q, first) ↦ rw first (record {
          same_challenge = h.same_challenge;
          same_configuration = h.same_configuration;
          two_incoming = h.two_incoming;
          incoming = h.incoming;
          eight_subchannels = h.eight_subchannels;
          subchannels = h.subchannels;
          accounts =
              push_transfer-Accounts (in_flight c.outgoing_subchannels) c.outgoing_reliable_data q d
                fresh first h.accounts;
        })
      ]

  new_outgoing-IsFresh :
      (content : List ℕ) (d : OutgoingReliableData) → new_outgoing content ≡ ok d → IsFresh d
  unfolding new_outgoing
  new_outgoing-IsFresh content d e = elim (Bool-cases (ltb (length content) (2 ^ 32))) [
    | inl small ↦ fresh_of d (ok-injective (rw small at e))
    | inr large ↦ cc (rw large at e)
  ]
    where
      fresh_of :
          (x : OutgoingReliableData)
          → record { acked_fragments = 0; pending_fragments = 0; content = content } ≡ x
          → IsFresh x
      fresh_of x same =
          (sym (ap (λ y. y.acked_fragments) same), sym (ap (λ y. y.pending_fragments) same))

  -- However `queue_reliable_messages` ends, the invariant of the channel is kept.
  pub queue_reliable_messages-IsChannel :
      {k : Origin} (messages : List Message) (c : NetChannel)
      → IsChannel k c
      → IsChannel k (queue_reliable_messages io messages c).1
  unfolding queue_reliable_messages
  queue_reliable_messages-IsChannel messages c h =
      then_run-IsChannel (payload io messages >>= new_outgoing) c _ h λ d e.
        let (content, _, made) = bind_ok (payload io messages) new_outgoing e in
        push_transfer-IsChannel d c (new_outgoing-IsFresh content d made) h
