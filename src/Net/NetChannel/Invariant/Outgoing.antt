-- ===== src/Net/NetChannel/Invariant/Outgoing.antt =====
-- Filling and writing a subchannel keep the invariant of the channel.
use quickplay_server.Base.{
  ℕ, suc, ◌+◌, ◌-◌, ◌≡◌, inl, inr, refl, sym, ap, ◌∙◌, true, false, List, [], ◌∷◌, some, All,
  length, All-set, All-get_elem?, length-set, replicate, Outcome, ok, ◌>>=◌, ◌==◌, Bool-cases,
  Option-cases, get_elem?, set, arith, subst,
}
use quickplay_server.Errors.{Error}
use quickplay_server.Net.NetChannel.State.{
  OutgoingReliableData, total_fragments, SubChannel, SubChannelState, free, waiting_to_send,
  waiting_for_ack, seq, NetChannel, max_streams, eq_state, find_from, find_subchannel,
}
use quickplay_server.Net.NetChannel.Fill.{
  Filled, prepend, sent_fragments, next_fragments, add_pending, fill_streams, fragments_per_packet,
  filled_channel, fill_subchannel, fill_outgoing_subchannel,
}
use quickplay_server.Net.NetChannel.Invariant.{
  Origin, add_lists, in_flight, IsSubChannel, Account, Accounts, IsChannel, in_flight-split,
  Settles, returns, to_send_ne_free,
}
use quickplay_server.Net.NetChannel.Invariant.Acknowledged.{total_fragments-lt}

-- The subchannel that `find_subchannel` finds.
find_from-some :
    (state : SubChannelState) (i : ℕ) (ss : List SubChannel) (j : ℕ)
    → find_from state i ss ≡ some j
    → (n : ℕ) × (j ≡ i + n)
      × ((s : SubChannel) × (get_elem? ss n ≡ some s) × (eq_state s.state state ≡ true))
unfolding find_from
find_from-some state i [] j e = cc e
find_from-some state i (s ∷ ss) j e = elim (Bool-cases (eq_state s.state state)) [
  | inl found ↦ (0, ground arith, (s, refl, found))
  | inr other ↦
      let (n, same, found) = find_from-some state (i + 1) ss j (rw other at e) in
      (suc n, omega arith, found)
]

eq_state-free : (state : SubChannelState) → eq_state state free ≡ true → state ≡ free
eq_state-free free e = refl
eq_state-free waiting_to_send e = cc e
eq_state-free waiting_for_ack e = cc e

pub find_subchannel-some :
    (c : NetChannel) (state : SubChannelState) (i : ℕ)
    → find_subchannel c state ≡ some i
    → (s : SubChannel) × (get_elem? c.outgoing_subchannels i ≡ some s)
      × (eq_state s.state state ≡ true)
unfolding find_subchannel
find_subchannel-some c state i e =
    let (n, same, (s, here, found)) = find_from-some state 0 c.outgoing_subchannels i e in
    let index : i ≡ n = omega arith in
    (s, ap (get_elem? c.outgoing_subchannels) index ∙ here, found)

abbrev IsZeros : List ℕ → Type 0
IsZeros ns = All (λ n. n ≡ 0) ns

add_zeros : (zs ns : List ℕ) → length zs ≡ length ns → IsZeros zs → add_lists zs ns ≡ ns
add_zeros [] [] e h = refl
add_zeros [] (n ∷ ns) e h = absurd (omega arith)
add_zeros (z ∷ zs) [] e h = absurd (omega arith)
add_zeros (z ∷ zs) (n ∷ ns) e h = ground (arith, add_zeros zs ns)

-- What the loop over the streams makes of a free subchannel, beside the shares of the others.
record Fills (starts nums others : List ℕ) (m : Outcome Error Filled) : Type 0 where
  filled : Filled
  result : m ≡ ok filled
  length_starts : length filled.starts ≡ length starts
  length_nums : length filled.nums ≡ length nums
  counted : Accounts (add_lists filled.nums others) filled.streams
  unused : filled.send_data ≡ false → filled.nums ≡ nums

Fills-prepend :
    {a n r : ℕ} {as' ns rs : List ℕ} {m : Outcome Error Filled} (q : List OutgoingReliableData)
    → Account (n + r) q
    → Fills as' ns rs m
    → Fills (a ∷ as') (n ∷ ns) (r ∷ rs) (do rest ← m; ok (prepend a n q rest))
Fills-prepend {a} {n} q h f = record {
  filled = prepend a n q f.filled;
  result = rw f.result refl;
  length_starts = ap suc f.length_starts;
  length_nums = ap suc f.length_nums;
  counted = (h, f.counted);
  unused = λ e. ap (λ t. n ∷ t) (f.unused e);
}

Fills-next :
    {a n r : ℕ} {as' ns rs : List ℕ} {m : Outcome Error Filled} (start num : ℕ)
    (q : List OutgoingReliableData)
    → Account (num + r) q
    → Fills as' ns rs m
    → Fills
        (a ∷ as')
        (n ∷ ns)
        (r ∷ rs)
        (do rest ← m; ok (record (prepend start num q rest) { send_data = true }))
Fills-next start num q h f = record {
  filled = record (prepend start num q f.filled) { send_data = true };
  result = rw f.result refl;
  length_starts = ap suc f.length_starts;
  length_nums = ap suc f.length_nums;
  counted = (h, f.counted);
  unused = λ e. cc e;
}

fill_streams-Fills :
    (remaining : ℕ) (starts nums others : List ℕ) (streams : List (List OutgoingReliableData))
    → length starts ≡ length others
    → length nums ≡ length others
    → IsZeros nums
    → Accounts others streams
    → Fills starts nums others (fill_streams remaining starts nums streams)
unfolding fill_streams
fill_streams-Fills remaining [] [] [] [] la ln z h = record {
  filled = record { starts = []; nums = []; streams = []; send_data = false };
  result = refl;
  length_starts = refl;
  length_nums = refl;
  counted = tt;
  unused = λ _. refl;
}
fill_streams-Fills remaining starts nums [] (s ∷ ss) la ln z h = absurd h
fill_streams-Fills remaining starts nums (r ∷ rs) [] la ln z h = absurd h
fill_streams-Fills remaining [] nums (r ∷ rs) (s ∷ ss) la ln z h = absurd (omega arith)
fill_streams-Fills remaining (a ∷ as') [] (r ∷ rs) (s ∷ ss) la ln z h = absurd (omega arith)
fill_streams-Fills remaining (a ∷ as') nums [] [] la ln z h = absurd (omega arith)
fill_streams-Fills remaining [] (n ∷ ns) [] [] la ln z h = absurd (omega arith)
fill_streams-Fills remaining (a ∷ as') (n ∷ ns) (r ∷ rs) ([] ∷ ss) la ln z h =
    Fills-prepend [] (omega arith)
      (fill_streams-Fills remaining as' ns rs ss (omega arith) (omega arith) z.1 h.1)
fill_streams-Fills remaining (a ∷ as') (n ∷ ns) (r ∷ rs) ((d ∷ ds) ∷ ss) la ln z h =
    let small = total_fragments-lt d in
    let num = next_fragments remaining d in
    let next : Account (num + r) (add_pending num d ∷ ds) = (omega arith, omega arith, h.0.2) in
    elim (Bool-cases (sent_fragments d == total_fragments d)) [
      | inl sent ↦ rw sent (
          Fills-prepend (d ∷ ds) (omega arith, h.0.1, h.0.2)
            (fill_streams-Fills remaining as' ns rs ss (omega arith) (omega arith) z.1 h.1))
      | inr unsent ↦ elim (Bool-cases (remaining - num == 0)) [
        | inl full ↦
            rw (unsent, full)
              (record {
                filled = record {
                  starts = sent_fragments d ∷ as';
                  nums = num ∷ ns;
                  streams = (add_pending num d ∷ ds) ∷ ss;
                  send_data = true;
                };
                result = refl;
                length_starts = refl;
                length_nums = refl;
                counted = (next, rw (add_zeros ns rs (omega arith) z.1) h.1);
                unused = λ e. cc e;
              })
        | inr room ↦
            rw (unsent, room)
              (Fills-next (sent_fragments d) num (add_pending num d ∷ ds) next (
                fill_streams-Fills (remaining - num) as' ns rs ss (omega arith) (omega arith) z.1
                  h.1))
      ]
    ]

filled_channel-IsChannel :
    {k : Origin} (c : NetChannel) (i : ℕ) (s : SubChannel) (others : List ℕ)
    (f : Fills s.start_fragment s.num_fragments others (
      fill_streams
        (fragments_per_packet c)
        s.start_fragment
        s.num_fragments
        c.outgoing_reliable_data))
    → IsChannel k c
    → IsSubChannel s
    → s.state ≡ free
    → ((t : SubChannel)
        → in_flight (set c.outgoing_subchannels i t) ≡ add_lists t.num_fragments others)
    → IsChannel k (filled_channel i s c f.filled)
unfolding filled_channel
filled_channel-IsChannel c i s others f h hs is_free change =
    let g = f.filled in
    let arrays = record s { start_fragment = g.starts; num_fragments = g.nums } in
    let sent = record arrays { state = waiting_to_send; send_seq_nr = seq 0 } in
    let starts : length g.starts ≡ max_streams = f.length_starts ∙ hs.0 in
    let nums : length g.nums ≡ max_streams = f.length_nums ∙ hs.1 in
    elim (Bool-cases g.send_data) [
      | inl used ↦ rw used (record {
        same_challenge = h.same_challenge;
        same_configuration = h.same_configuration;
        two_incoming = h.two_incoming;
        incoming = h.incoming;
        eight_subchannels = length-set c.outgoing_subchannels i sent ∙ h.eight_subchannels;
        subchannels =
            All-set IsSubChannel c.outgoing_subchannels i sent h.subchannels
              (starts, nums, λ e. absurd (to_send_ne_free e));
        accounts = subst (λ ns. Accounts ns g.streams) (sym (change sent)) f.counted;
      })
      | inr idle ↦ rw idle (record {
        same_challenge = h.same_challenge;
        same_configuration = h.same_configuration;
        two_incoming = h.two_incoming;
        incoming = h.incoming;
        eight_subchannels = length-set c.outgoing_subchannels i arrays ∙ h.eight_subchannels;
        subchannels =
            All-set IsSubChannel c.outgoing_subchannels i arrays h.subchannels
              (starts, nums, λ _. f.unused idle ∙ hs.2 is_free);
        accounts = subst (λ ns. Accounts ns g.streams) (sym (change arrays)) f.counted;
      })
    ]

zeros : (ns : List ℕ) → ns ≡ replicate max_streams 0 → IsZeros ns
zeros ns e = subst IsZeros (sym e) (refl, (refl, tt))

fill_subchannel-Settles :
    {k : Origin} (c : NetChannel) (i : ℕ) (s : SubChannel)
    → IsChannel k c
    → get_elem? c.outgoing_subchannels i ≡ some s
    → s.state ≡ free
    → Settles k (λ _. Unit {0}) (fill_subchannel i (some s) c)
unfolding fill_subchannel
fill_subchannel-Settles c i s h e is_free =
    let (others, len, whole, change) = in_flight-split c.outgoing_subchannels i s h.subchannels e in
    let hs = All-get_elem? IsSubChannel c.outgoing_subchannels i h.subchannels e in
    let none_sent = zeros s.num_fragments (hs.2 is_free) in
    let before : Accounts others c.outgoing_reliable_data =
      subst (λ ns. Accounts ns c.outgoing_reliable_data)
        (whole ∙ add_zeros s.num_fragments others (omega arith) none_sent) h.accounts in
    let f =
      fill_streams-Fills (fragments_per_packet c) s.start_fragment s.num_fragments others
        c.outgoing_reliable_data (omega arith) (omega arith) none_sent before in
    rw (fill_subchannel, f.result)
      (returns tt tt refl (filled_channel-IsChannel c i s others f h hs is_free change))

pub fill_outgoing_subchannel-Settles :
    {k : Origin} (c : NetChannel)
    → IsChannel k c
    → Settles k (λ _. Unit {0}) (fill_outgoing_subchannel c)
unfolding fill_outgoing_subchannel
fill_outgoing_subchannel-Settles c h = elim (Option-cases (find_subchannel c free)) [
  | inl all_busy ↦ rw (fill_outgoing_subchannel, all_busy) (returns tt tt refl h)
  | inr (i, found) ↦
      let (s, here, is_free) = find_subchannel-some c free i found in
      rw (fill_outgoing_subchannel, found, here)
        (fill_subchannel-Settles c i s h here (eq_state-free s.state is_free))
]
