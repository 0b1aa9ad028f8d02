-- ===== src/Server/Connection.antt =====
-- `Connection` of src/main.rs: a client's channel and preferences, and the task that serves it.
use quickplay_server.Base.{
  ℕ, suc, Bool, true, false, List, [], ◌∷◌, ◌++◌, Option, none, some, Outcome, ok, err, panic,
  stuck, if◌then◌else◌, bytes,
}
use quickplay_server.Errors.{Error}
use quickplay_server.Configuration.{Configuration}
use quickplay_server.Io.{BitIo}
use quickplay_server.Net.Message.{
  Message, disconnect, string_cmd, set_con_vars, signon_state, print,
}
use quickplay_server.Net.NetChannel.State.{NetChannel}
use quickplay_server.Net.NetChannel.Run.{Run}
use quickplay_server.Net.NetChannel.Messages.{queue_reliable_messages}
use quickplay_server.Net.NetChannel.Packets.{read_packet, write_packet}
use quickplay_server.Quickplay.Floats.{Floats}
use quickplay_server.Quickplay.Preferences.{QuickplayPreferences, default_preferences}
use quickplay_server.Quickplay.Session.{Server, find_server, update_preferences_from_convars}

-- `cancelled` is the state of the token, of which the table of the server and the timer of the
-- connection hold clones. `is_running` tells that the task has not ended; the task owns the
-- receiver, which is closed with it. The other fields are those of the source.
pub record Connection (SocketAddr : Type 0) : Type 0 where
  pub client_addr : SocketAddr
  pub packet_receiver : List (List ℕ)
  pub netchan : NetChannel
  pub preferences : QuickplayPreferences
  pub configuration : Configuration
  pub cancelled : Bool
  pub is_running : Bool

-- `Connection::new`, of the channel that the server has made.
unfoldable pub new_connection :
    {SocketAddr : Type 0} → SocketAddr → NetChannel → Configuration → Connection SocketAddr
new_connection client_addr netchan configuration = record {
  client_addr = client_addr;
  packet_receiver = [];
  netchan = netchan;
  preferences = default_preferences;
  configuration = configuration;
  cancelled = false;
  is_running = true;
}

-- A method of the connection: the connection that it leaves, also when it fails.
abbrev pub Method : Type 0 → Type 0 → Type 0
Method SocketAddr A = Connection SocketAddr → Outcome Error A × Connection SocketAddr

-- The datagrams that are sent to the client, one or none.
abbrev pub sent_of : Outcome Error (List ℕ) → List (List ℕ)
sent_of (ok data') = data' ∷ []
sent_of _ = []

abbrev pub done_of : Outcome Error (List ℕ) → Outcome Error (Unit {0})
done_of (ok _) = ok tt
done_of (err e) = err e
done_of panic = panic
done_of stuck = stuck

module _ {SocketAddr : Type 0} where
  abbrev pub on_channel : {A : Type 0} → Run A → Method SocketAddr A
  on_channel m c = let (r, netchan') = m c.netchan in (r, record c { netchan = netchan' })

  abbrev pub and_then :
      {A B : Type 0}
      → Outcome Error A
      → Connection SocketAddr
      → (A → Method SocketAddr B)
      → Outcome Error B × Connection SocketAddr
  and_then (ok a) c f = f a c
  and_then (err e) c f = (err e, c)
  and_then panic c f = (panic, c)
  and_then stuck c f = (stuck, c)

  -- An error is logged and the task goes on; a panic ends the task.
  abbrev pub unless_panic : Outcome Error (Unit {0}) → Connection SocketAddr → Connection SocketAddr
  unless_panic (ok _) c = c
  unless_panic (err _) c = c
  unless_panic panic c = record c { is_running = false }
  unless_panic stuck c = record c { is_running = false }

-- `display` is the text of a socket address, which the standard library makes.
module _ (io : BitIo) (crc : List ℕ → ℕ) (floats : Floats) (SocketAddr : Type 0)
    (display : SocketAddr → List ℕ) where
  -- The answer to a client that is connected: it is sent on, or turned away.
  abbrev pub answer : Option SocketAddr → Message
  answer (some destination_server) =
      string_cmd (record { command = bytes "redirect " ++ display destination_server })
  answer none = disconnect (record { reason = bytes "No matches found with selected filter" })

  -- A refused preference ends the connection, by a message to the client.
  abbrev pub report : Outcome (List ℕ) (Unit {0}) → Method SocketAddr (Unit {0})
  report (ok _) c = (ok tt, c)
  report (err error_message) c =
      on_channel (queue_reliable_messages io (disconnect (record { reason = error_message }) ∷ []))
        c
  report panic c = (panic, c)
  report stuck c = (stuck, c)

  -- The body of the loop over the messages, while the server list is `server_list`.
  unfoldable pub handle_message :
      List (Server floats SocketAddr) → Message → Method SocketAddr (Unit {0})
  handle_message server_list (disconnect _) c = (ok tt, record c { cancelled = true })
  handle_message server_list (signon_state _) c =
      on_channel
        (queue_reliable_messages io
          (answer (find_server floats SocketAddr c.preferences server_list) ∷ []))
        c
  handle_message server_list (set_con_vars m) c =
      let (updated, preferences') =
        update_preferences_from_convars c.configuration m.convars c.preferences in
      report updated (record c { preferences = preferences' })
  handle_message server_list (string_cmd _) c = (ok tt, c)
  handle_message server_list (print _) c = (ok tt, c)

  -- The loop; the server list may change from one message to the next, so there is one for each.
  unfoldable pub handle_messages :
      (ℕ → List (Server floats SocketAddr)) → ℕ → List Message → Method SocketAddr (Unit {0})
  unfolding handle_message
  handle_messages server_lists i [] c = (ok tt, c)
  handle_messages server_lists i (m ∷ ms) c =
      let (handled, c') = handle_message (server_lists i) m c in
      and_then handled c' λ _. handle_messages server_lists (suc i) ms

  unfoldable pub handle_packet :
      (ℕ → List (Server floats SocketAddr)) → List ℕ → Method SocketAddr (Unit {0})
  unfolding handle_messages
  handle_packet server_lists packet c =
      let (read, c') = on_channel (read_packet io crc packet) c in
      and_then read c' (handle_messages server_lists 0)

  -- The packet that waits longest is handled, if there is one.
  unfoldable pub receive :
      (ℕ → List (Server floats SocketAddr))
      → List (List ℕ)
      → Connection SocketAddr
      → Connection SocketAddr
  unfolding handle_packet
  receive server_lists [] c = c
  receive server_lists (packet ∷ later) c =
      let (handled, c') =
        handle_packet server_lists packet (record c { packet_receiver = later }) in
      unless_panic handled c'

  -- The rest of the round.
  unfoldable pub send_pending : Connection SocketAddr → Connection SocketAddr × List (List ℕ)
  send_pending c =
      let (written, c') = on_channel (write_packet io crc []) c in
      (unless_panic (done_of written) c', sent_of written)

  -- One round of `background_worker`: the task ends where the token is cancelled, and sends nothing
  -- after a panic.
  unfoldable pub background_round :
      (ℕ → List (Server floats SocketAddr))
      → Connection SocketAddr
      → Connection SocketAddr × List (List ℕ)
  unfolding receive send_pending
  background_round server_lists c =
      let received = receive server_lists c.packet_receiver c in
      if c.cancelled
      then (record c { is_running = false }, [])
      else if received.is_running
      then send_pending received
      else (received, [])
