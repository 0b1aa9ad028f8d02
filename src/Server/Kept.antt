-- ===== src/Server/Kept.antt =====
-- What a round of a connection's task keeps: the client, the end of the connection, the invariant of
-- its channel.
use quickplay_server.Base.{
  ℕ, suc, ◌≡◌, refl, ◌∙◌, Bool, true, false, List, [], ◌∷◌, Outcome, ok, err, panic, stuck,
  if◌then◌else◌,
}
use quickplay_server.Errors.{Error}
use quickplay_server.Io.{BitIo}
use quickplay_server.Net.Message.{
  Message, disconnect, string_cmd, set_con_vars, signon_state, print,
}
use quickplay_server.Net.NetChannel.Run.{Run}
use quickplay_server.Net.NetChannel.State.{NetChannel}
use quickplay_server.Net.NetChannel.Messages.{queue_reliable_messages}
use quickplay_server.Net.NetChannel.Packets.{read_packet, write_packet}
use quickplay_server.Net.NetChannel.Invariant.{Origin, IsChannel}
use quickplay_server.Net.NetChannel.Invariant.Written.{
  write_packet-IsChannel, queue_reliable_messages-IsChannel,
}
use quickplay_server.Net.NetChannel.Invariant.Received.{read_packet-kept}
use quickplay_server.Quickplay.Floats.{Floats}
use quickplay_server.Quickplay.Preferences.{QuickplayPreferences}
use quickplay_server.Quickplay.Session.{Server, update_preferences_from_convars}
use quickplay_server.Server.Connection.{
  Connection, on_channel, report, and_then, handle_message, handle_messages, handle_packet,
  unless_panic, receive, send_pending, background_round,
}
use quickplay_server.Server.Table.{push_packet}

-- `d` is what became of the connection `c`.
pub record Keeps {SocketAddr : Type 0} (c d : Connection SocketAddr) : Type 0 where
  pub same_client : d.client_addr ≡ c.client_addr
  pub same_configuration : d.configuration ≡ c.configuration
  pub stays_cancelled : c.cancelled ≡ true → d.cancelled ≡ true
  pub stays_ended : c.is_running ≡ false → d.is_running ≡ false
  pub channel : (k : Origin) → IsChannel k c.netchan → IsChannel k d.netchan

module _ {SocketAddr : Type 0} where
  pub Keeps-refl : (c : Connection SocketAddr) → Keeps c c
  Keeps-refl c = record {
    same_client = refl;
    same_configuration = refl;
    stays_cancelled = λ h. h;
    stays_ended = λ h. h;
    channel = λ k h. h;
  }

  pub Keeps-trans : {c d e : Connection SocketAddr} → Keeps c d → Keeps d e → Keeps c e
  Keeps-trans f g = record {
    same_client = g.same_client ∙ f.same_client;
    same_configuration = g.same_configuration ∙ f.same_configuration;
    stays_cancelled = λ h. g.stays_cancelled (f.stays_cancelled h);
    stays_ended = λ h. g.stays_ended (f.stays_ended h);
    channel = λ k h. g.channel k (f.channel k h);
  }

  pub push_packet-Keeps :
      (packet : List ℕ) (c : Connection SocketAddr) → Keeps c (push_packet packet c)
  push_packet-Keeps packet c = record {
    same_client = refl;
    same_configuration = refl;
    stays_cancelled = λ h. h;
    stays_ended = λ h. h;
    channel = λ k h. h;
  }

  if-Keeps :
      {B : Type 0} {c : Connection SocketAddr} (b : Bool) (x y : Connection SocketAddr × B)
      → Keeps c x.0
      → Keeps c y.0
      → Keeps c (if b then x else y).0
  if-Keeps true x y hx hy = hx
  if-Keeps false x y hx hy = hy

  unless_panic-Keeps :
      (r : Outcome Error (Unit {0})) (c : Connection SocketAddr) → Keeps c (unless_panic r c)
  unless_panic-Keeps (ok _) c = Keeps-refl c
  unless_panic-Keeps (err e) c = Keeps-refl c
  unless_panic-Keeps panic c = record {
    same_client = refl;
    same_configuration = refl;
    stays_cancelled = λ h. h;
    stays_ended = λ _. refl;
    channel = λ k h. h;
  }
  unless_panic-Keeps stuck c = record {
    same_client = refl;
    same_configuration = refl;
    stays_cancelled = λ h. h;
    stays_ended = λ _. refl;
    channel = λ k h. h;
  }

module _ (io : BitIo) (crc : List ℕ → ℕ) (floats : Floats) (SocketAddr : Type 0)
    (display : SocketAddr → List ℕ) where
  on_channel-Keeps :
      {A : Type 0} (m : Run A) (c : Connection SocketAddr)
      → ((k : Origin) (n : NetChannel) → IsChannel k n → IsChannel k (m n).1)
      → Keeps c (on_channel m c).1
  on_channel-Keeps m c kept = record {
    same_client = refl;
    same_configuration = refl;
    stays_cancelled = λ h. h;
    stays_ended = λ h. h;
    channel = λ k h. kept k c.netchan h;
  }

  queue-Keeps :
      (messages : List Message) (c : Connection SocketAddr)
      → Keeps c (on_channel (queue_reliable_messages io messages) c).1
  queue-Keeps messages c =
      on_channel-Keeps (queue_reliable_messages io messages) c
        (λ k n h. queue_reliable_messages-IsChannel io messages n h)

  report-Keeps :
      (r : Outcome (List ℕ) (Unit {0})) (c : Connection SocketAddr)
      → Keeps c (report io crc floats SocketAddr display r c).1
  report-Keeps (ok _) c = Keeps-refl c
  report-Keeps (err e) c = queue-Keeps _ c
  report-Keeps panic c = Keeps-refl c
  report-Keeps stuck c = Keeps-refl c

  set_preferences-Keeps :
      (preferences' : QuickplayPreferences) (c : Connection SocketAddr)
      → Keeps c (record c { preferences = preferences' })
  set_preferences-Keeps preferences' c = record {
    same_client = refl;
    same_configuration = refl;
    stays_cancelled = λ h. h;
    stays_ended = λ h. h;
    channel = λ k h. h;
  }

  handle_message-Keeps :
      (server_list : List (Server floats SocketAddr)) (m : Message) (c : Connection SocketAddr)
      → Keeps c (handle_message io crc floats SocketAddr display server_list m c).1
  unfolding handle_message
  handle_message-Keeps server_list (disconnect _) c = record {
    same_client = refl;
    same_configuration = refl;
    stays_cancelled = λ _. refl;
    stays_ended = λ h. h;
    channel = λ k h. h;
  }
  handle_message-Keeps server_list (signon_state _) c = queue-Keeps _ c
  handle_message-Keeps server_list (set_con_vars m) c =
      let (updated, preferences') =
        update_preferences_from_convars c.configuration m.convars c.preferences in
      Keeps-trans (set_preferences-Keeps preferences' c) (report-Keeps updated _)
  handle_message-Keeps server_list (string_cmd _) c = Keeps-refl c
  handle_message-Keeps server_list (print _) c = Keeps-refl c

  and_then-Keeps :
      {A B : Type 0} (r : Outcome Error A) (c : Connection SocketAddr)
      (f : A → Connection SocketAddr → Outcome Error B × Connection SocketAddr)
      → ((a : A) → Keeps c (f a c).1)
      → Keeps c (and_then r c f).1
  and_then-Keeps (ok a) c f h = h a
  and_then-Keeps (err e) c f h = Keeps-refl c
  and_then-Keeps panic c f h = Keeps-refl c
  and_then-Keeps stuck c f h = Keeps-refl c

  handle_messages-Keeps :
      (server_lists : ℕ → List (Server floats SocketAddr)) (i : ℕ) (ms : List Message)
      (c : Connection SocketAddr)
      → Keeps c (handle_messages io crc floats SocketAddr display server_lists i ms c).1
  unfolding handle_messages
  handle_messages-Keeps server_lists i [] c = Keeps-refl c
  handle_messages-Keeps server_lists i (m ∷ ms) c =
      let (handled, c') = handle_message io crc floats SocketAddr display (server_lists i) m c in
      Keeps-trans (handle_message-Keeps (server_lists i) m c)
        (and_then-Keeps handled c' _ λ _. handle_messages-Keeps server_lists (suc i) ms c')

  handle_packet-Keeps :
      (server_lists : ℕ → List (Server floats SocketAddr)) (packet : List ℕ)
      (c : Connection SocketAddr)
      → Keeps c (handle_packet io crc floats SocketAddr display server_lists packet c).1
  unfolding handle_packet
  handle_packet-Keeps server_lists packet c =
      let (read, c') = on_channel (read_packet io crc packet) c in
      Keeps-trans
        (on_channel-Keeps (read_packet io crc packet) c
          (λ k n h. read_packet-kept io crc packet n h))
        (and_then-Keeps read c' _ λ ms. handle_messages-Keeps server_lists 0 ms c')

  receive-Keeps :
      (server_lists : ℕ → List (Server floats SocketAddr)) (packets : List (List ℕ))
      (c : Connection SocketAddr)
      → Keeps c (receive io crc floats SocketAddr display server_lists packets c)
  unfolding receive
  receive-Keeps server_lists [] c = Keeps-refl c
  receive-Keeps server_lists (packet ∷ later) c =
      let taken = record c { packet_receiver = later } in
      let (handled, c') =
        handle_packet io crc floats SocketAddr display server_lists packet taken in
      Keeps-trans
        (record {
          same_client = refl;
          same_configuration = refl;
          stays_cancelled = λ h. h;
          stays_ended = λ h. h;
          channel = λ k h. h;
        })
        (Keeps-trans (handle_packet-Keeps server_lists packet taken)
          (unless_panic-Keeps handled c'))

  send_pending-Keeps :
      (c : Connection SocketAddr) → Keeps c (send_pending io crc floats SocketAddr display c).0
  unfolding send_pending
  send_pending-Keeps c =
      let (written, c') = on_channel (write_packet io crc []) c in
      Keeps-trans
        (on_channel-Keeps (write_packet io crc []) c
          (λ k n h. write_packet-IsChannel io crc [] n h))
        (unless_panic-Keeps _ c')

  -- A round of the task, whatever packet waits and whatever the server lists are, keeps the address
  -- of the client and the configuration, does not undo a cancellation or the end of the task, and
  -- keeps the invariant of the channel, its challenge and its configuration.
  pub background_round-Keeps :
      (server_lists : ℕ → List (Server floats SocketAddr)) (c : Connection SocketAddr)
      → Keeps c (background_round io crc floats SocketAddr display server_lists c).0
  unfolding background_round
  background_round-Keeps server_lists c =
      let received = receive io crc floats SocketAddr display server_lists c.packet_receiver c in
      let kept = receive-Keeps server_lists c.packet_receiver c in
      if-Keeps c.cancelled _ _
        (record {
          same_client = refl;
          same_configuration = refl;
          stays_cancelled = λ h. h;
          stays_ended = λ _. refl;
          channel = λ k h. h;
        })
        (if-Keeps received.is_running _ _ (Keeps-trans kept (send_pending-Keeps received)) kept)
