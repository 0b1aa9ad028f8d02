-- ===== src/Net/NetChannel/State.antt =====
-- The state of a channel: the constants, the transfers in both directions, the subchannels.
-- Sequence numbers, fragments and sizes are `u32`, whose arithmetic wraps, as in a release build.
pub mod Fragments
use quickplay_server.Base.{
  ℕ, ◌+◌, ◌-◌, ◌/◌, ◌^◌, Bool, true, false, List, [], ◌∷◌, Option, none, some, Outcome, ok, err,
  ltb, if◌then◌else◌, u32, sub_u32, length, replicate,
}
use quickplay_server.Errors.{Error, outgoing_data_too_large}
use quickplay_server.Configuration.{Configuration}

abbrev pub max_streams : ℕ
max_streams = 2

abbrev pub max_subchannels : ℕ
max_subchannels = 8

abbrev pub fragment_bits : ℕ
fragment_bits = 8

abbrev pub fragment_size : ℕ
fragment_size = 2 ^ fragment_bits

abbrev pub max_file_size_bits : ℕ
max_file_size_bits = 26

abbrev pub min_packet_size : ℕ
min_packet_size = 16

-- `PacketFlags`: the ones that the code uses.
abbrev pub flag_reliable : ℕ
flag_reliable = 2 ^ 0

abbrev pub flag_choked : ℕ
flag_choked = 2 ^ 4

abbrev pub flag_challenge : ℕ
flag_challenge = 2 ^ 5

-- All the bits that are named, which `from_bits_truncate` keeps.
abbrev pub flags_all : ℕ
flags_all = 2 ^ 6 - 1

unfoldable pub bytes_to_fragments : ℕ → ℕ
bytes_to_fragments size = sub_u32 (u32 (size + fragment_size)) 1 / fragment_size

pub record IncomingReliableData : Type 0 where
  pub acked_fragments : ℕ
  pub size : ℕ
  pub content : List ℕ
  pub filename : Option (List ℕ)

-- `IncomingReliableData::new`; a `u32` fits `usize`.
unfoldable pub new_incoming : Option (List ℕ) → ℕ → IncomingReliableData
new_incoming filename size = record {
  acked_fragments = 0;
  size = size;
  content = replicate size 0;
  filename = filename;
}

pub record OutgoingReliableData : Type 0 where
  pub acked_fragments : ℕ
  pub pending_fragments : ℕ
  pub content : List ℕ

-- `OutgoingReliableData::new`.
unfoldable pub new_outgoing : List ℕ → Outcome Error OutgoingReliableData
new_outgoing content =
    if ltb (length content) (2 ^ 32)
    then ok (record { acked_fragments = 0; pending_fragments = 0; content = content })
    else err outgoing_data_too_large

abbrev pub total_bytes : OutgoingReliableData → ℕ
total_bytes d = u32 (length d.content)

abbrev pub total_fragments : OutgoingReliableData → ℕ
total_fragments d = bytes_to_fragments (total_bytes d)

pub data SubChannelState : Type 0 where
  free waiting_to_send waiting_for_ack : SubChannelState

abbrev pub eq_state : SubChannelState → SubChannelState → Bool
eq_state free free = true
eq_state waiting_to_send waiting_to_send = true
eq_state waiting_for_ack waiting_for_ack = true
eq_state _ _ = false

-- `send_seq_nr` is an `i64`: -1, or a sequence number.
pub data SendSeqNr : Type 0 where
  minus_one : SendSeqNr
  seq : ℕ → SendSeqNr

-- `send_seq_nr > sequence_ack`.
abbrev pub is_after : SendSeqNr → ℕ → Bool
is_after minus_one ack = false
is_after (seq n) ack = ltb ack n

pub record SubChannel : Type 0 where
  pub state : SubChannelState
  pub start_fragment : List ℕ
  pub num_fragments : List ℕ
  pub send_seq_nr : SendSeqNr

abbrev pub new_free : SubChannel
new_free = record {
  state = free;
  start_fragment = replicate max_streams 0;
  num_fragments = replicate max_streams 0;
  send_seq_nr = minus_one;
}

pub record NetChannel : Type 0 where
  pub out_sequence_nr : ℕ
  pub out_sequence_nr_ack : ℕ
  pub in_sequence_nr : ℕ
  pub has_seen_challenge : Bool
  pub challenge : ℕ
  pub in_reliable_state : ℕ
  pub incoming_reliable_data : List (Option IncomingReliableData)
  pub out_reliable_state : ℕ
  pub outgoing_reliable_data : List (List OutgoingReliableData)
  pub outgoing_subchannels : List SubChannel
  pub configuration : Configuration

-- `NetChannel::new`.
unfoldable pub new : ℕ → Configuration → NetChannel
new challenge configuration = record {
  out_sequence_nr = 1;
  out_sequence_nr_ack = 0;
  in_sequence_nr = 0;
  has_seen_challenge = false;
  challenge = challenge;
  in_reliable_state = 0;
  incoming_reliable_data = replicate max_streams none;
  out_reliable_state = 0;
  outgoing_reliable_data = replicate max_streams [];
  outgoing_subchannels = replicate max_subchannels new_free;
  configuration = configuration;
}

-- The first subchannel of the list in the state, counted from `i`.
unfoldable pub find_from : SubChannelState → ℕ → List SubChannel → Option ℕ
find_from state i [] = none
find_from state i (s ∷ rest) =
    let later = find_from state (i + 1) rest in if eq_state s.state state then some i else later

unfoldable pub find_subchannel : NetChannel → SubChannelState → Option ℕ
unfolding find_from
find_subchannel c state = find_from state 0 c.outgoing_subchannels
