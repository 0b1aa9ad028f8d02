-- ===== src/Net/Tests/Packets.antt =====
-- The packets of src/net on concrete values: their kinds, the header of a channel's packet, and
-- the connectionless protocol.
use quickplay_server.Base.{
  ℕ, ◌+◌, ◌-◌, ◌^◌, ◌%◌, ◌≤◌, ◌≡◌, ◌⊎◌, refl, Bool, true, List, [], ◌∷◌, ◌++◌, map, length, Option,
  some, err, bytes, arith, All, IsByte, inr, subst,
}
use quickplay_server.Errors.{Error, too_many_packets_dropped}
use quickplay_server.Configuration.{load_default}
use quickplay_server.Io.BitList.{bit_list}
use quickplay_server.Net.Packet.{decode_raw_packet, get_range, get_from, from_le_bytes}
use quickplay_server.Net.Packet.Classify.{classify, header_number, decode_raw_packet-classify}
use quickplay_server.Net.NetChannel.State.{NetChannel, new}
use quickplay_server.IoUtil.{write_string}
use quickplay_server.Net.NetChannel.Update.{update_subchannel}
use quickplay_server.Net.NetChannel.Header.{
  Header, num_packets_dropped, check_sequence, accept_header, read_header, read_header_fields,
}
use quickplay_server.Net.NetChannel.Header.Arrival.{Arrival}
use quickplay_server.Net.NetChannel.Header.Choked.{check_sequence-choked}
use quickplay_server.Net.NetChannel.Header.Sequence.{
  IsInSequence, accept_header-InSequence, read_header-LacksChallenge, read_header-replay,
}
use quickplay_server.Net.Connectionless.{
  a2s_info_query_string, protocol_version, auth_protocol_hashedcdkey, get_challenge_for_address,
  handle_c2s_connect, handle_a2s_info, process_connectionless_packet,
}
use quickplay_server.Net.Connectionless.Connects.{
  IsConnect, process_connectionless_packet-IsConnect,
}
use quickplay_server.Net.Connectionless.Sends.{process_connectionless_packet-sends_one}
use quickplay_server.Net.Connectionless.Challenges.{
  IsRequest, handle_c2s_connect-IsRequest, handle_a2s_info-challenge,
}

-- A decoder of data that is stored without compression.
abbrev stored : List ℕ → Option (List ℕ)
stored data' = some (map (λ b. b % 256) data')

map-IsByte : (bs : List ℕ) → All IsByte (map (λ b. b % 256) bs)
map-IsByte [] = tt
map-IsByte (b ∷ bs) = (omega arith, map-IsByte bs)

some-injective : {xs ys : List ℕ} → ◌≡◌ {A = Option (List ℕ)} (some xs) (some ys) → xs ≡ ys
some-injective e = cc e

stored-IsByte : (xs ys : List ℕ) → stored xs ≡ some ys → All IsByte ys
stored-IsByte xs ys h = subst (All IsByte) (some-injective h) (map-IsByte xs)

abbrev query_bytes : List ℕ
query_bytes = 255 ∷ 255 ∷ 255 ∷ 255 ∷ b'q' ∷ 7 ∷ 0 ∷ 0 ∷ 0 ∷ []

abbrev compressed_bytes : List ℕ
compressed_bytes = 253 ∷ 255 ∷ 255 ∷ 255 ∷ bytes "SNAP" ++ query_bytes

decode_raw_packet-classify_example :
    decode_raw_packet stored compressed_bytes
    ≡ classify stored compressed_bytes (header_number compressed_bytes)
decode_raw_packet-classify_example =
    decode_raw_packet-classify stored stored-IsByte compressed_bytes (ground arith)

-- A header of a channel's packet.
abbrev fresh : NetChannel
fresh = new 7 load_default

abbrev first : Header
first = record { sequence = 1; sequence_ack = 0; flags = 32; reliable_state = 0; n_choked = 0 }

accept_header-InSequence_example :
    IsInSequence first fresh
    × (first.flags ≡ first.flags)
    × ((accept_header first fresh).1.in_sequence_nr ≡ 1)
    × ((accept_header first fresh).1.out_sequence_nr_ack ≡ 0)
unfolding accept_header new update_subchannel
accept_header-InSequence_example =
    accept_header-InSequence first fresh (accept_header first fresh).1 first.flags refl

-- A header that names two choked packets after the last one.
abbrev after_choked : Header
after_choked = record {
  sequence = 9;
  sequence_ack = 0;
  flags = 48;
  reliable_state = 0;
  n_choked = 2;
}

-- The first packet of a client whose challenge is 7.
abbrev first_packet : List ℕ
first_packet = 1 ∷ 0 ∷ 0 ∷ 0 ∷ 0 ∷ 0 ∷ 0 ∷ 0 ∷ 32 ∷ 0 ∷ 0 ∷ 0 ∷ 7 ∷ 0 ∷ 0 ∷ 0 ∷ []

abbrev no_crc : List ℕ → ℕ
no_crc packet = 0

abbrev unread : bit_list.Reader
unread = bit_list.open_reader first_packet

abbrev after_first : NetChannel
after_first = (read_header bit_list no_crc first_packet unread fresh).1

read_header-replay_example :
    (e : Error) × ((read_header bit_list no_crc first_packet unread after_first).0 ≡ err e)
unfolding read_header bit_list new update_subchannel
read_header-replay_example =
    read_header-replay bit_list no_crc first_packet unread fresh after_first
      (32, bit_list.holding 128 []) refl

-- A channel whose challenge is 8, and that has seen it.
abbrev other : NetChannel
other = record fresh { challenge = 8; has_seen_challenge = true }

read_header-LacksChallenge_example :
    (e : Error) × (read_header bit_list no_crc first_packet unread other ≡ (err e, other))
unfolding read_header_fields bit_list
read_header-LacksChallenge_example =
    read_header-LacksChallenge bit_list no_crc first_packet unread (bit_list.holding 128 []) first 7
      other refl refl (inr (λ h. ground arith))

-- The connectionless protocol, with clients at numbers, whose hash is the number.
abbrev address_hash : ℕ → ℕ
address_hash a = a

abbrev all_reachable : ℕ → List ℕ → Bool
all_reachable a packet = true

process_connectionless_packet-sends_one_example :
    length
      (process_connectionless_packet bit_list ℕ address_hash all_reachable 5 query_bytes
        load_default).1
    ≤ 1
process_connectionless_packet-sends_one_example =
    process_connectionless_packet-sends_one bit_list ℕ address_hash all_reachable 5 query_bytes
      load_default

-- The request of the client 5: version 24, authentication 2, its challenge, and one of its own.
abbrev request : bit_list.Reader
request = bit_list.open_reader (24 ∷ 0 ∷ 0 ∷ 0 ∷ 2 ∷ 0 ∷ 0 ∷ 0 ∷ 5 ∷ 0 ∷ 0 ∷ 0 ∷ 9 ∷ 0 ∷ 0 ∷ 0 ∷ [])

handle_c2s_connect-IsRequest_example :
    (5 ≡ get_challenge_for_address bit_list ℕ address_hash all_reachable 5)
    × IsRequest bit_list ℕ address_hash all_reachable request protocol_version
        auth_protocol_hashedcdkey 5
unfolding handle_c2s_connect bit_list write_string
handle_c2s_connect-IsRequest_example =
    handle_c2s_connect-IsRequest bit_list ℕ address_hash all_reachable 5 request 5 refl

abbrev info_query : List ℕ
info_query = a2s_info_query_string ++ 5 ∷ 0 ∷ 0 ∷ 0 ∷ []

handle_a2s_info-challenge_example :
    (info_query ≡ a2s_info_query_string)
    ⊎ ((challenge : List ℕ) × (get_range info_query 0 (length a2s_info_query_string)
          ≡ some a2s_info_query_string)
        × (get_range info_query (length a2s_info_query_string) (length a2s_info_query_string + 4)
            ≡ some challenge)
        × (from_le_bytes challenge
            ≡ get_challenge_for_address bit_list ℕ address_hash all_reachable 5))
unfolding handle_a2s_info bit_list write_string
handle_a2s_info-challenge_example =
    handle_a2s_info-challenge bit_list ℕ address_hash all_reachable 5 info_query load_default refl

-- The same request in its packet.
abbrev request_packet : List ℕ
request_packet =
    255 ∷ 255 ∷ 255 ∷ 255 ∷ b'k' ∷ 24 ∷ 0 ∷ 0 ∷ 0 ∷ 2 ∷ 0 ∷ 0 ∷ 0 ∷ 5 ∷ 0 ∷ 0 ∷ 0 ∷ 9 ∷ 0 ∷ 0 ∷ 0
    ∷ []

process_connectionless_packet-IsConnect_example :
    (rest : List ℕ) × (get_from request_packet 4 ≡ some rest)
    × IsConnect bit_list ℕ address_hash all_reachable 5 rest 5
unfolding process_connectionless_packet bit_list write_string
process_connectionless_packet-IsConnect_example =
    process_connectionless_packet-IsConnect bit_list ℕ address_hash all_reachable 5 request_packet
      load_default 5 refl

-- The first packet, which tells of a choked one before it.
abbrev choked : Header
choked = record { sequence = 1; sequence_ack = 0; flags = 48; reliable_state = 0; n_choked = 1 }

check_sequence-choked_example :
    (2 ^ 32 - 256 ≤ num_packets_dropped choked fresh)
    × (check_sequence choked fresh
        ≡ err (too_many_packets_dropped (num_packets_dropped choked fresh) 5000))
unfolding new
check_sequence-choked_example =
    check_sequence-choked choked fresh (omega arith) (omega arith) (omega arith) (omega arith)
      (omega arith)
