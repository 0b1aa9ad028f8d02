-- ===== src/Server/Entries.antt =====
-- The map of the server, from addresses to connections.
use quickplay_server.Base.{
  ℕ, ◌≡◌, ◌≢◌, ◌⊎◌, inl, inr, refl, sym, ◌∙◌, List, [], ◌∷◌, Option, none, some,
}
use quickplay_server.Server.Table.{get_connection, remove_connection, insert_connection}

module _ {SocketAddr : Type 0} (same_addr : Discrete SocketAddr) where
  get_connection-hit :
      (a b : SocketAddr) (i : ℕ) (entries : List (SocketAddr × ℕ))
      → a ≡ b
      → get_connection same_addr a ((b, i) ∷ entries) ≡ some i
  unfolding get_connection
  get_connection-hit a b i entries e =
      elim (same_addr a b)
        as (λ o.
          (elim o as (λ _. Option ℕ) [ yes _ ↦ some i | no _ ↦ get_connection same_addr a entries ])
          ≡ some i) [ yes _ ↦ refl | no ne ↦ absurd (ne e) ]

  get_connection-miss :
      (a b : SocketAddr) (i : ℕ) (entries : List (SocketAddr × ℕ))
      → a ≢ b
      → get_connection same_addr a ((b, i) ∷ entries) ≡ get_connection same_addr a entries
  unfolding get_connection
  get_connection-miss a b i entries ne =
      elim (same_addr a b)
        as (λ o.
          (elim o as (λ _. Option ℕ) [ yes _ ↦ some i | no _ ↦ get_connection same_addr a entries ])
          ≡ get_connection same_addr a entries) [ yes e ↦ absurd (ne e) | no _ ↦ refl ]

  -- An address that is removed has no entry.
  pub get_connection-remove_same :
      (a : SocketAddr) (entries : List (SocketAddr × ℕ))
      → get_connection same_addr a (remove_connection same_addr a entries) ≡ none
  unfolding get_connection remove_connection
  get_connection-remove_same a [] = refl
  get_connection-remove_same a ((b, i) ∷ entries) =
      elim (same_addr a b)
        as (λ o.
          get_connection same_addr a (elim o as (λ _. List (SocketAddr × ℕ)) [
            | yes _ ↦ remove_connection same_addr a entries
            | no _ ↦ (b, i) ∷ remove_connection same_addr a entries
          ])
          ≡ none) [
            | yes _ ↦ get_connection-remove_same a entries
            | no ne ↦
                get_connection-miss a b i (remove_connection same_addr a entries) ne
                ∙ get_connection-remove_same a entries
          ]

  -- The others keep theirs.
  pub get_connection-remove_other :
      (a b : SocketAddr) (entries : List (SocketAddr × ℕ))
      → a ≢ b
      → get_connection same_addr b (remove_connection same_addr a entries)
        ≡ get_connection same_addr b entries
  unfolding remove_connection
  get_connection-remove_other a b [] ne = refl
  get_connection-remove_other a b ((c, i) ∷ entries) ne =
      elim (same_addr a c)
        as (λ o.
          get_connection same_addr b (elim o as (λ _. List (SocketAddr × ℕ)) [
            | yes _ ↦ remove_connection same_addr a entries
            | no _ ↦ (c, i) ∷ remove_connection same_addr a entries
          ])
          ≡ get_connection same_addr b ((c, i) ∷ entries)) [
            | yes e ↦
                get_connection-remove_other a b entries ne
                ∙ sym (get_connection-miss b c i entries (λ same. ne (e ∙ sym same)))
            | no _ ↦ elim (same_addr b c) [
              | yes e ↦
                  get_connection-hit b c i (remove_connection same_addr a entries) e
                  ∙ sym (get_connection-hit b c i entries e)
              | no other ↦
                  get_connection-miss b c i (remove_connection same_addr a entries) other
                  ∙ get_connection-remove_other a b entries ne
                  ∙ sym (get_connection-miss b c i entries other)
            ]
          ]

  pub get_connection-insert_same :
      (a : SocketAddr) (i : ℕ) (entries : List (SocketAddr × ℕ))
      → get_connection same_addr a (insert_connection same_addr a i entries) ≡ some i
  unfolding insert_connection
  get_connection-insert_same a i entries =
      get_connection-hit a a i (remove_connection same_addr a entries) refl

  pub get_connection-insert_other :
      (a b : SocketAddr) (i : ℕ) (entries : List (SocketAddr × ℕ))
      → a ≢ b
      → get_connection same_addr b (insert_connection same_addr a i entries)
        ≡ get_connection same_addr b entries
  unfolding insert_connection
  get_connection-insert_other a b i entries ne =
      get_connection-miss b a i (remove_connection same_addr a entries) (λ e. ne (sym e))
      ∙ get_connection-remove_other a b entries ne

  -- Removing an address concerns no other.
  pub get_connection-remove_dec :
      (a b : SocketAddr) (entries : List (SocketAddr × ℕ))
      → (a ≡ b)
        ⊎ (get_connection same_addr b (remove_connection same_addr a entries)
            ≡ get_connection same_addr b entries)
  get_connection-remove_dec a b entries = elim (same_addr a b) [
    | yes e ↦ inl e
    | no ne ↦ inr (get_connection-remove_other a b entries ne)
  ]
