-- ===== src/Net/NetChannel/Packets/Idle.antt =====
-- A channel without a reliable transfer under way: what it writes, and how it takes an
-- acknowledgement.
use quickplay_server.Base.{
  ℕ, zero, suc, ◌+◌, ◌≤◌, ◌<◌, ◌^◌, ◌≡◌, refl, sym, ap₂, false, [], ◌∷◌, some, ok, bit_and, ==_refl,
  get_elem?, replicate, arith,
}
use quickplay_server.Io.{BitIo}
use quickplay_server.Net.NetChannel.State.{
  NetChannel, new_free, max_subchannels, find_from, find_subchannel,
}
use quickplay_server.Net.NetChannel.Fill.{
  fill_streams, filled_channel, fill_subchannel, fill_outgoing_subchannel,
}
use quickplay_server.Net.NetChannel.Send.{write_outgoing_reliable_data}
use quickplay_server.Net.NetChannel.Update.{
  update_subchannel, update_loop, update_outgoing_subchannels, pop_stream,
  pop_completed_outgoing_transfers,
}

-- The channel with all its subchannels free, and no transfer.
abbrev pub idle : NetChannel → NetChannel
idle c = record c {
  outgoing_reliable_data = [] ∷ [] ∷ [];
  outgoing_subchannels = replicate max_subchannels new_free;
}

abbrev pub IsIdle : NetChannel → Type 0
IsIdle c =
    (c.outgoing_reliable_data ≡ [] ∷ [] ∷ [])
    × (c.outgoing_subchannels ≡ replicate max_subchannels new_free)

pub idle_eq : (c : NetChannel) → IsIdle c → idle c ≡ c
idle_eq c (no_data, all_free) =
    ap₂
      (λ data' subchannels. record c {
        outgoing_reliable_data = data';
        outgoing_subchannels = subchannels;
      })
      (sym no_data) (sym all_free)

pub write_outgoing_reliable_data-idle :
    (io : BitIo) (w : io.Writer) (c : NetChannel)
    → write_outgoing_reliable_data io w (idle c) ≡ (ok (false, w), idle c)
unfolding write_outgoing_reliable_data fill_outgoing_subchannel find_subchannel find_from
    fill_subchannel fill_streams filled_channel
write_outgoing_reliable_data-idle io w c = refl

update_subchannel-free :
    (ack state i : ℕ) (c : NetChannel)
    → c.out_reliable_state ≡ state
    → update_subchannel ack state i new_free c ≡ (ok tt, c)
unfolding update_subchannel
update_subchannel-free ack state i c e =
    rw (update_subchannel, e, ==_refl (bit_and state (2 ^ i))) refl

get_elem?-replicate : {A : Type 0} (a : A) (n i : ℕ) → i < n → get_elem? (replicate n a) i ≡ some a
get_elem?-replicate a zero i lt = absurd (omega arith)
get_elem?-replicate a (suc n) zero lt = refl
get_elem?-replicate a (suc n) (suc i) lt = get_elem?-replicate a n i (omega arith)

update_loop-free :
    (ack state left i : ℕ) (c : NetChannel)
    → c.out_reliable_state ≡ state
    → i + left ≤ max_subchannels
    → update_loop ack state left i (idle c) ≡ (ok tt, idle c)
unfolding update_loop
update_loop-free ack state zero i c e le = refl
update_loop-free ack state (suc left) i c e le =
    rw
      (
        update_loop,
        get_elem?-replicate new_free max_subchannels i (omega arith),
        update_subchannel-free ack state i (idle c) e,
      )
      (update_loop-free ack state left (i + 1) c e (omega arith))

pub update_outgoing_subchannels-idle :
    (ack state : ℕ) (c : NetChannel)
    → c.out_reliable_state ≡ state
    → update_outgoing_subchannels ack state (idle c) ≡ (ok tt, idle c)
unfolding update_outgoing_subchannels
update_outgoing_subchannels-idle ack state c e =
    update_loop-free ack state max_subchannels 0 c e (omega arith)

pub pop_completed-idle : (c : NetChannel) → pop_completed_outgoing_transfers (idle c) ≡ idle c
unfolding pop_completed_outgoing_transfers pop_stream
pop_completed-idle c = refl
