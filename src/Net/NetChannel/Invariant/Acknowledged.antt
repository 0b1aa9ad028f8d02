-- ===== src/Net/NetChannel/Invariant/Acknowledged.antt =====
-- An acknowledgement keeps the invariant of the channel, and never fails on the account of its
-- transfers.
use quickplay_server.Base.{
  ℕ, zero, suc, ◌+◌, ◌≤◌, ◌<◌, ◌^◌, ◌≡◌, inl, inr, refl, sym, ap, ◌∙◌, true, List, [], ◌∷◌, some,
  length, All-set, All-get_elem?, get_elem?-lt, length-set, replicate, ok, ◌==◌, Bool-cases, map,
  get_elem?, set, arith, subst,
}
use quickplay_server.Net.NetChannel.State.{
  OutgoingReliableData, total_fragments, bytes_to_fragments, SubChannel, waiting_to_send,
  NetChannel, max_streams, max_subchannels, new_free,
}
use quickplay_server.Net.NetChannel.Update.{
  ack_streams, release, update_subchannel, update_loop, update_outgoing_subchannels, pop_stream,
  pop_completed_outgoing_transfers,
}
use quickplay_server.Net.NetChannel.Invariant.{
  Origin, add_lists, in_flight, IsSubChannel, Account, Accounts, IsChannel, in_flight-split,
  Settles, returns, fails, if-Settles, then_run-Settles, to_send_ne_free,
}

-- The number of fragments of a transfer is far from the end of a `u32`.
pub total_fragments-lt : (d : OutgoingReliableData) → total_fragments d < 2 ^ 24
unfolding bytes_to_fragments
total_fragments-lt d = omega arith

ack_streams-Accounts :
    (nums rest : List ℕ) (streams : List (List OutgoingReliableData))
    → length nums ≡ length rest
    → Accounts (add_lists nums rest) streams
    → ((ack_streams nums streams).0 ≡ ok tt) × Accounts rest (ack_streams nums streams).1
unfolding ack_streams
ack_streams-Accounts [] [] [] e h = (refl, tt)
ack_streams-Accounts [] [] (s ∷ ss) e h = absurd h
ack_streams-Accounts [] (r ∷ rs) streams e h = absurd (omega arith)
ack_streams-Accounts (n ∷ ns) [] streams e h = absurd (omega arith)
ack_streams-Accounts (n ∷ ns) (r ∷ rs) [] e h = absurd h
ack_streams-Accounts (n ∷ ns) (r ∷ rs) ([] ∷ ss) e h =
    let rest = ack_streams-Accounts ns rs ss (omega arith) h.1 in
    let none_left : (n == 0) ≡ true = ground arith in rw none_left (rest.0, (omega arith, rest.1))
ack_streams-Accounts (n ∷ ns) (r ∷ rs) ((d ∷ ds) ∷ ss) e h =
    let rest = ack_streams-Accounts ns rs ss (omega arith) h.1 in
    let fits = total_fragments-lt d in
    elim (Bool-cases (n == 0)) [
      | inl zero_sent ↦ rw zero_sent (rest.0, ((ground arith, h.0.1, h.0.2), rest.1))
      | inr some_sent ↦ rw some_sent (rest.0, ((omega arith, omega arith, h.0.2), rest.1))
    ]

add_none : (ns : List ℕ) → length ns ≡ max_streams → add_lists (replicate max_streams 0) ns ≡ ns
add_none [] e = absurd (omega arith)
add_none (a ∷ []) e = absurd (omega arith)
add_none (a ∷ b ∷ []) e = ground arith
add_none (a ∷ b ∷ x ∷ ns) e = absurd (omega arith)

-- The subchannel `t` in the place of `s`, which carries the same fragments.
pub replace_subchannel :
    {k : Origin} {c : NetChannel} (i : ℕ) (s t : SubChannel)
    → IsChannel k c
    → get_elem? c.outgoing_subchannels i ≡ some s
    → IsSubChannel t
    → t.num_fragments ≡ s.num_fragments
    → IsChannel k (record c { outgoing_subchannels = set c.outgoing_subchannels i t })
replace_subchannel {c} i s t h e ht same =
    let (others, len, whole, change) = in_flight-split c.outgoing_subchannels i s h.subchannels e in
    let kept : in_flight (set c.outgoing_subchannels i t) ≡ in_flight c.outgoing_subchannels =
      change t ∙ ap (λ ns. add_lists ns others) same ∙ sym whole in
    record {
      same_challenge = h.same_challenge;
      same_configuration = h.same_configuration;
      two_incoming = h.two_incoming;
      incoming = h.incoming;
      eight_subchannels = length-set c.outgoing_subchannels i t ∙ h.eight_subchannels;
      subchannels = All-set IsSubChannel c.outgoing_subchannels i t h.subchannels ht;
      accounts = subst (λ ns. Accounts ns c.outgoing_reliable_data) (sym kept) h.accounts;
    }

new_free-IsSubChannel : IsSubChannel new_free
new_free-IsSubChannel = (refl, refl, λ _. refl)

release-Settles :
    {k : Origin} (c : NetChannel) (i : ℕ) (s : SubChannel)
    → IsChannel k c
    → get_elem? c.outgoing_subchannels i ≡ some s
    → let acked = ack_streams s.num_fragments c.outgoing_reliable_data in
      Settles k (λ _. Unit {0}) (release i acked.0 (record c { outgoing_reliable_data = acked.1 }))
release-Settles c i s h e =
    let (others, len, whole, change) = in_flight-split c.outgoing_subchannels i s h.subchannels e in
    let lens = All-get_elem? IsSubChannel c.outgoing_subchannels i h.subchannels e in
    let (acked, accounts) =
      ack_streams-Accounts s.num_fragments others c.outgoing_reliable_data (omega arith)
        (subst (λ ns. Accounts ns c.outgoing_reliable_data) whole h.accounts) in
    let freed : in_flight (set c.outgoing_subchannels i new_free) ≡ others =
      change new_free ∙ add_none others len in
    rw acked (
      returns tt tt refl (record {
        same_challenge = h.same_challenge;
        same_configuration = h.same_configuration;
        two_incoming = h.two_incoming;
        incoming = h.incoming;
        eight_subchannels = length-set c.outgoing_subchannels i new_free ∙ h.eight_subchannels;
        subchannels =
            All-set IsSubChannel c.outgoing_subchannels i new_free h.subchannels
              new_free-IsSubChannel;
        accounts =
            subst (λ ns. Accounts ns (ack_streams s.num_fragments c.outgoing_reliable_data).1)
              (sym freed) accounts;
      }))

update_subchannel-Settles :
    {k : Origin} (sequence_ack acked_reliable_state i : ℕ) (s : SubChannel) (c : NetChannel)
    → IsChannel k c
    → get_elem? c.outgoing_subchannels i ≡ some s
    → Settles k (λ _. Unit {0}) (update_subchannel sequence_ack acked_reliable_state i s c)
unfolding update_subchannel
update_subchannel-Settles {k} sequence_ack acked_reliable_state i s c h e =
    let (starts, nums, _) = All-get_elem? IsSubChannel c.outgoing_subchannels i h.subchannels e in
    let resent = record s { state = waiting_to_send } in
    let unchanged : Settles k (λ _. Unit {0}) (ok tt, c) = returns tt tt refl h in
    if-Settles _
      (if-Settles _ (fails _ refl h) (if-Settles _ (release-Settles c i s h e) unchanged))
      (if-Settles _ unchanged (
        if-Settles _ (fails _ refl h) (
          if-Settles _
            (returns tt tt refl (
              replace_subchannel i s resent h e (starts, nums, λ x. absurd (to_send_ne_free x))
                refl))
            unchanged)))

update_loop-Settles :
    {k : Origin} (sequence_ack acked_reliable_state left i : ℕ) (c : NetChannel)
    → i + left ≤ max_subchannels
    → IsChannel k c
    → Settles k (λ _. Unit {0}) (update_loop sequence_ack acked_reliable_state left i c)
unfolding update_loop
update_loop-Settles sequence_ack acked_reliable_state zero i c le h = returns tt tt refl h
update_loop-Settles sequence_ack acked_reliable_state (suc left) i c le h =
    let eight = h.eight_subchannels in
    let (s, e) = get_elem?-lt c.outgoing_subchannels i (omega arith) in
    rw e (
      then_run-Settles _ _ _ (update_subchannel-Settles sequence_ack acked_reliable_state i s c h e)
        (λ _ _ h'.
          update_loop-Settles sequence_ack acked_reliable_state left (i + 1) _ (omega arith) h'))

pub update_outgoing_subchannels-Settles :
    {k : Origin} (sequence_ack acked_reliable_state : ℕ) (c : NetChannel)
    → IsChannel k c
    → Settles k (λ _. Unit {0}) (update_outgoing_subchannels sequence_ack acked_reliable_state c)
unfolding update_outgoing_subchannels
update_outgoing_subchannels-Settles sequence_ack acked_reliable_state c h =
    update_loop-Settles sequence_ack acked_reliable_state max_subchannels 0 c (omega arith) h

-- The transfer behind a finished one starts its account at nothing.
pop_stream-Account :
    (n : ℕ) (stream : List OutgoingReliableData) → Account n stream → Account n (pop_stream stream)
unfolding pop_stream
pop_stream-Account n [] h = h
pop_stream-Account n (d ∷ []) h = elim (Bool-cases (d.acked_fragments == total_fragments d)) [
  | inl done ↦ rw done (ground arith)
  | inr more ↦ rw more h
]
pop_stream-Account n (d ∷ d' ∷ ds) h = elim (Bool-cases (d.acked_fragments == total_fragments d)) [
  | inl done ↦ rw done (ground arith)
  | inr more ↦ rw more h
]

pop_streams-Accounts :
    (ns : List ℕ) (streams : List (List OutgoingReliableData))
    → Accounts ns streams
    → Accounts ns (map pop_stream streams)
pop_streams-Accounts [] [] h = tt
pop_streams-Accounts [] (s ∷ ss) h = absurd h
pop_streams-Accounts (n ∷ ns) [] h = absurd h
pop_streams-Accounts (n ∷ ns) (s ∷ ss) h =
    (pop_stream-Account n s h.0, pop_streams-Accounts ns ss h.1)

pub pop_completed_outgoing_transfers-IsChannel :
    {k : Origin} (c : NetChannel) → IsChannel k c → IsChannel k (pop_completed_outgoing_transfers c)
unfolding pop_completed_outgoing_transfers
pop_completed_outgoing_transfers-IsChannel c h = record {
  same_challenge = h.same_challenge;
  same_configuration = h.same_configuration;
  two_incoming = h.two_incoming;
  incoming = h.incoming;
  eight_subchannels = h.eight_subchannels;
  subchannels = h.subchannels;
  accounts =
      pop_streams-Accounts (in_flight c.outgoing_subchannels) c.outgoing_reliable_data h.accounts;
}
