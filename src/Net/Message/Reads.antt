-- ===== src/Net/Message/Reads.antt =====
-- `Message::read` on any input, and on what `Message::write` writes.
use quickplay_server.Base.{
  All-append, length-append, ℕ, zero, suc, ◌+◌, ◌^◌, ◌<◌, Bool, List, [], ◌∷◌, ◌++◌, length, All,
  arith, ◌==◌,
}
use quickplay_server.Errors.{unhandled_message_type}
use quickplay_server.Io.{BitIo}
use quickplay_server.Io.Advance.{
  Advances, read_in-Advances, bind-Advances, if-Advances, ok-Advances, err-Advances,
}
use quickplay_server.IoUtil.Text.{IsText, read_string-Advances}
use quickplay_server.Net.Message.{
  Message, disconnect, string_cmd, set_con_vars, signon_state, print, read_convars, read_disconnect,
  read_set_con_vars, read_signon_state, read_print, read, message_type_disconnect,
  message_type_set_con_var, message_type_signon_state, message_type_print,
}

-- A pair of texts within the bounds of the reader.
abbrev pub IsConvar : List ℕ × List ℕ → Type 0
IsConvar c = IsText 260 c.0 × IsText 260 c.1

-- What holds of every message that is read; a command is never read.
abbrev pub IsReadable : Message → Type 0
IsReadable (disconnect m) = IsText 1024 m.reason
IsReadable (string_cmd m) = ⊥
IsReadable (set_con_vars m) = All IsConvar m.convars × (length m.convars < 256)
IsReadable (signon_state m) = (m.signon_state < 256) × (m.spawn_count < 2 ^ 32)
IsReadable (print m) = IsText 2048 m.text

module _ (io : BitIo) where
  open io use {holding, written, write_out}

  read_convars-Advances :
      (left p : ℕ) (bs : List Bool) (convars : List (List ℕ × List ℕ))
      → All IsConvar convars
      → left + length convars < 256
      → Advances io
          (λ cs. All IsConvar cs × (length cs < 256))
          0
          p
          bs
          (read_convars io left convars (holding p bs))
  unfolding read_convars
  read_convars-Advances zero p bs convars h lt = ok-Advances io _ p bs convars (h, omega arith)
  read_convars-Advances (suc left) p bs convars h lt =
      bind-Advances io 0 _ (omega arith) (read_string-Advances io 260 p bs) λ name q r hn _.
        bind-Advances io 0 _ (omega arith) (read_string-Advances io 260 q r) λ value q' r' hv _.
          let pair : List ℕ × List ℕ = (name, value) in
          read_convars-Advances left q' r' (convars ++ pair ∷ [])
            (All-append IsConvar convars (pair ∷ []) h ((hn, hv), tt))
            (omega (arith, length-append convars (pair ∷ [])))

  read_disconnect-Advances :
      (p : ℕ) (bs : List Bool) → Advances io IsReadable 0 p bs (read_disconnect io (holding p bs))
  unfolding read_disconnect
  read_disconnect-Advances p bs =
      bind-Advances io 0 _ (omega arith) (read_string-Advances io 1024 p bs)
        λ s q rest h _. ok-Advances io IsReadable q rest (disconnect (record { reason = s })) h

  read_set_con_vars-Advances :
      (p : ℕ) (bs : List Bool) → Advances io IsReadable 0 p bs (read_set_con_vars io (holding p bs))
  unfolding read_set_con_vars
  read_set_con_vars-Advances p bs =
      bind-Advances io 0 _ (omega arith) (read_in-Advances io 8 p bs) λ n q rest hn _.
        bind-Advances io 0 _ (omega arith) (read_convars-Advances n q rest [] tt (omega arith))
          λ cs q' rest' h _.
            ok-Advances io IsReadable q' rest' (set_con_vars (record { convars = cs })) h

  read_signon_state-Advances :
      (p : ℕ) (bs : List Bool) → Advances io IsReadable 0 p bs (read_signon_state io (holding p bs))
  unfolding read_signon_state
  read_signon_state-Advances p bs =
      bind-Advances io 32 _ (omega arith) (read_in-Advances io 8 p bs) λ n q rest hn _.
        bind-Advances io 0 _ (omega arith) (read_in-Advances io 32 q rest) λ k q' rest' hk _.
          let m : Message = signon_state (record { signon_state = n; spawn_count = k }) in
          ok-Advances io IsReadable q' rest' m (hn, hk)

  read_print-Advances :
      (p : ℕ) (bs : List Bool) → Advances io IsReadable 0 p bs (read_print io (holding p bs))
  unfolding read_print
  read_print-Advances p bs =
      bind-Advances io 0 _ (omega arith) (read_string-Advances io 2048 p bs)
        λ s q rest h _. ok-Advances io IsReadable q rest (print (record { text = s })) h

  -- On any bits, and for every type of message, `read` ends, without a panic: with a message whose
  -- texts are UTF-8 without NULs within the bounds of their fields, whose numbers fit theirs, that
  -- has fewer than 256 convars and is no command, and a later place in the data; or with an error.
  pub read-Advances :
      (message_type p : ℕ) (bs : List Bool)
      → Advances io IsReadable 0 p bs (read io (holding p bs) message_type)
  read-Advances message_type p bs =
      unfold read in
      if-Advances io (message_type == message_type_disconnect) (λ _. read_disconnect-Advances p bs)
        λ _.
          if-Advances io (message_type == message_type_set_con_var)
            (λ _. read_set_con_vars-Advances p bs)
            λ _.
              if-Advances io (message_type == message_type_signon_state)
                (λ _. read_signon_state-Advances p bs)
                λ _.
                  if-Advances io (message_type == message_type_print)
                    (λ _. read_print-Advances p bs)
                    λ _. err-Advances io IsReadable 0 p bs (unhandled_message_type message_type)
