-- ===== src/Server/Tests.antt =====
-- The server on concrete datagrams: clients are numbers, and the challenge of a client is its number.
use quickplay_server.Base.{
  ℕ, ◌≡◌, ◌⊎◌, refl, Bool, true, false, List, [], ◌∷◌, Option, none, some, ok, map_err, ℕ_discrete,
  length, get_elem?, bytes,
}
use quickplay_server.Errors.{decoder}
use quickplay_server.Configuration.{Configuration, load_default, load_from_file}
use quickplay_server.Io.BitList.{bit_list}
use quickplay_server.IoUtil.{write_string}
use quickplay_server.Net.Packet.{decode_raw_packet}
use quickplay_server.Net.NetChannel.State.{new}
use quickplay_server.Net.Connectionless.{process_connectionless_packet}
use quickplay_server.Quickplay.Floats.Whole.{whole_numbers}
use quickplay_server.Quickplay.Session
use quickplay_server.Server.Connection.{Connection, new_connection, background_round}
use quickplay_server.Server.Table.{
  Task, Server, waiting, new_server, get_connection, handle_regular, handle_datagram,
  create_connection,
}
use quickplay_server.Server.Tasks.{Step, Reach, here, next, remove_dead}
use quickplay_server.Server.Kept.{Keeps, background_round-Keeps}
use quickplay_server.Server.Delivered.{AreRegular, receive_all, receive_all-create_connection}
use quickplay_server.Server.Effects.{Effect, handle_datagram-Effect}
use quickplay_server.Server.Life.{Evolves, life}
use quickplay_server.Server.Life.Refinement.{Step-Evolves}
use quickplay_server.Server.Reachable.{Reach-IsServer}
use quickplay_server.Server.Invariant.{IsServer}
use quickplay_server.Server.Main.{Arguments, serving, main, start_server, choose_configuration}
use quickplay_server.Server.Started.{IsStarted, main-IsServer}
use quickplay_server.Server.Removal.{handle_regular-remove_dead, IsGone, timeout-IsGone}

abbrev address_hash : ℕ → ℕ
address_hash a = a

abbrev all_reachable : ℕ → List ℕ → Bool
all_reachable a packet = true

abbrev no_data : List ℕ → Option (List ℕ)
no_data bytes = none

abbrev no_crc : List ℕ → ℕ
no_crc packet = 0

abbrev name_of : ℕ → List ℕ
name_of a = bytes "192.0.2.1:27015"

abbrev empty : Server ℕ
empty = new_server load_default

-- The request of the client 5 for a connection, with its challenge.
abbrev request : List ℕ
request =
    255 ∷ 255 ∷ 255 ∷ 255 ∷ b'k' ∷ 24 ∷ 0 ∷ 0 ∷ 0 ∷ 2 ∷ 0 ∷ 0 ∷ 0 ∷ 5 ∷ 0 ∷ 0 ∷ 0 ∷ 9 ∷ 0 ∷ 0 ∷ 0
    ∷ []

abbrev connected : Server ℕ
connected =
    (handle_datagram ℕ_discrete bit_list address_hash all_reachable no_data 5 request empty).0.1

connected_lem : connected ≡ create_connection ℕ_discrete 5 5 empty
unfolding handle_datagram bit_list write_string create_connection decode_raw_packet
    process_connectionless_packet
connected_lem = refl

abbrev Steps : Server ℕ → Server ℕ → Type 0
Steps = Step ℕ_discrete bit_list no_crc whole_numbers name_of address_hash all_reachable no_data

abbrev Reaches : Server ℕ → Server ℕ → Type 0
Reaches = Reach ℕ_discrete bit_list no_crc whole_numbers name_of address_hash all_reachable no_data

connects : Reaches empty connected
connects = next here (Step.datagram 5 request refl)

has_entry : get_connection ℕ_discrete 5 connected.connections ≡ some 0
unfolding handle_datagram bit_list write_string create_connection decode_raw_packet
    process_connectionless_packet get_connection new_server ℕ_discrete
has_entry = refl

handle_datagram-Effect_example :
    Effect ℕ_discrete bit_list address_hash all_reachable 5
      (map_err decoder (decode_raw_packet no_data request))
      empty
      connected
handle_datagram-Effect_example =
    handle_datagram-Effect ℕ_discrete bit_list address_hash all_reachable no_data 5 request empty

Reach-IsServer_example :
    IsServer ℕ_discrete bit_list address_hash all_reachable load_default connected
Reach-IsServer_example =
    Reach-IsServer ℕ_discrete bit_list address_hash all_reachable load_default no_crc whole_numbers
      name_of no_data connected connects

timeout-IsGone_example :
    (u : Server ℕ) × Reaches connected u
    × IsGone ℕ_discrete bit_list no_crc whole_numbers name_of address_hash all_reachable no_data 5 0
        u
    × ((b : ℕ)
        → (5 ≡ b)
          ⊎ (get_connection ℕ_discrete b u.connections
              ≡ get_connection ℕ_discrete b connected.connections))
timeout-IsGone_example =
    timeout-IsGone ℕ_discrete bit_list no_crc whole_numbers name_of address_hash all_reachable
      no_data load_default connected 5 0 connects has_entry

-- The client 5 connects twice, and the first connection is removed.
abbrev first : Task ℕ
first = record { connection = new_connection 5 (new 5 load_default) load_default; stage = waiting }

abbrev twice : Server ℕ
twice =
    (handle_datagram ℕ_discrete bit_list address_hash all_reachable no_data 5 request connected).0.1

Step-Evolves_example : Evolves (life ℕ_discrete connected) (life ℕ_discrete twice)
Step-Evolves_example =
    Step-Evolves ℕ_discrete bit_list no_crc whole_numbers name_of address_hash all_reachable no_data
      load_default connected twice connects (Step.datagram 5 request refl)

second_entry : get_connection ℕ_discrete 5 twice.connections ≡ some 1
unfolding handle_datagram bit_list write_string create_connection decode_raw_packet
    process_connectionless_packet get_connection new_server ℕ_discrete
second_entry = refl

handle_regular-remove_dead_example :
    (handle_regular ℕ_discrete 5 (1 ∷ []) (remove_dead ℕ_discrete 0 first twice)
      ≡ (ok tt, remove_dead ℕ_discrete 0 first twice))
    × ((b : ℕ)
        → (5 ≡ b)
          ⊎ (get_connection ℕ_discrete b (remove_dead ℕ_discrete 0 first twice).connections
              ≡ get_connection ℕ_discrete b twice.connections))
unfolding new_connection
handle_regular-remove_dead_example = handle_regular-remove_dead ℕ_discrete 0 first twice (1 ∷ [])

-- Two packets of the client 5, whose connection is the second one that it has made.
abbrev packets : List (List ℕ)
packets = (1 ∷ 0 ∷ 0 ∷ 0 ∷ 7 ∷ []) ∷ (2 ∷ 0 ∷ 0 ∷ 0 ∷ []) ∷ []

packets-AreRegular :
    AreRegular ℕ_discrete bit_list address_hash all_reachable no_data packets packets
unfolding decode_raw_packet
packets-AreRegular = (refl, (refl, tt))

receive_all-create_connection_example :
    (t : Task ℕ) × (get_connection ℕ_discrete 5
        (receive_all ℕ_discrete bit_list address_hash all_reachable no_data 5 packets
          (create_connection ℕ_discrete 5 5 connected)).connections
      ≡ some (length connected.tasks))
    × (get_elem?
          (receive_all ℕ_discrete bit_list address_hash all_reachable no_data 5 packets
            (create_connection ℕ_discrete 5 5 connected)).tasks
          (length connected.tasks)
        ≡ some t)
    × (t.connection.client_addr ≡ 5)
    × (t.connection.packet_receiver ≡ packets)
    × ((j : ℕ) (v : Task ℕ)
        → get_elem? connected.tasks j ≡ some v
        → get_elem?
            (receive_all ℕ_discrete bit_list address_hash all_reachable no_data 5 packets
              (create_connection ℕ_discrete 5 5 connected)).tasks
            j
          ≡ some v)
receive_all-create_connection_example =
    receive_all-create_connection ℕ_discrete bit_list address_hash all_reachable no_data 5 5
      connected packets packets packets-AreRegular

-- A round with a packet that waits.
abbrev unread : Connection ℕ
unread = record (first.connection) { packet_receiver = (1 ∷ 0 ∷ []) ∷ [] }

abbrev no_servers : ℕ → List (Session.Server whole_numbers ℕ)
no_servers i = []

background_round-Keeps_example :
    Keeps unread (background_round bit_list no_crc whole_numbers ℕ name_of no_servers unread).0
background_round-Keeps_example =
    background_round-Keeps bit_list no_crc whole_numbers ℕ name_of no_servers unread

-- The program with a file, whose text asks for a short timeout, where every text is the address 1 and
-- every address is free.
abbrev any_addr : List ℕ → Option ℕ
any_addr text = some 1

abbrev always_free : ℕ → Bool
always_free a = true

abbrev one_file : List ℕ → Option (List ℕ)
one_file path = some path

abbrev short_timeout : Configuration
short_timeout = record load_default {
  server = record (load_default.server) { connection_timeout = 1 };
}

abbrev short_toml : List ℕ → Option Configuration
short_toml text = some short_timeout

abbrev no_text : Configuration → Option (List ℕ)
no_text configuration = none

abbrev with_file : Arguments
with_file = record { configuration = some (bytes "short.toml"); dump_configuration = false }

serves :
    main any_addr always_free one_file short_toml no_text with_file
    ≡ ok (serving 1 (new_server short_timeout))
unfolding main start_server choose_configuration load_from_file
serves = refl

abbrev connected_short : Server ℕ
connected_short =
    (handle_datagram ℕ_discrete bit_list address_hash all_reachable no_data 5 request
      (new_server short_timeout)).0.1

main-IsServer_example :
    (started : IsStarted any_addr always_free one_file short_toml no_text with_file 1
      (new_server short_timeout))
    × IsServer ℕ_discrete bit_list address_hash all_reachable started.configuration connected_short
main-IsServer_example =
    main-IsServer any_addr always_free one_file short_toml no_text ℕ_discrete bit_list no_crc
      whole_numbers name_of address_hash all_reachable no_data with_file 1
      (new_server short_timeout) connected_short serves (next here (Step.datagram 5 request refl))
