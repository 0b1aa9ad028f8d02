-- ===== src/Quickplay/Session/Search.antt =====
-- Which server `find_server` chooses.
use quickplay_server.Base.{
  true, false, ◌≡◌, refl, sym, ◌∙◌, ap, ◌⊎◌, inl, inr, List, [], ◌∷◌, Option, none, some, All,
  Bool-cases, subst,
}
use mathlib.Core.List.{Memᴰ}
use quickplay_server.Quickplay.Floats.{Floats}
use quickplay_server.Quickplay.Preferences.{QuickplayPreferences}
use quickplay_server.Quickplay.Filter.{FilterTags, build_filter_tags}
use quickplay_server.Quickplay.Session.{
  Server, score_of, passes, better, search_servers, address_of, find_server,
}

module _ (floats : Floats) (SocketAddr : Type 0) (p : QuickplayPreferences) (t : FilterTags) where
  open floats use {F, decimal, gt, le, gt_trans, gt_irrefl}

  abbrev S : Type 0
  S = Server floats SocketAddr

  abbrev score : S → F
  score s = score_of floats SocketAddr p s

  -- The server passes the filter, and its score is not at most 1.
  abbrev pub IsCandidate : S → Type 0
  IsCandidate s = (passes floats SocketAddr p t s ≡ true) × (le (score s) (decimal 1 0) ≡ false)

  -- No candidate of the list has a higher score than `best`.
  abbrev pub IsUnbeaten : F → List S → Type 0
  IsUnbeaten best servers = All (λ s. IsCandidate s → gt (score s) best ≡ false) servers

  -- `x` is `y`, or higher.
  abbrev AtLeast : F → F → Type 0
  AtLeast x y = (x ≡ y) ⊎ (gt x y ≡ true)

  -- A score that does not beat `y` does not beat what is at least `y`.
  unbeaten_by : (a x y : F) → AtLeast x y → gt a y ≡ false → gt a x ≡ false
  unbeaten_by a x y (inl e) h = rw e h
  unbeaten_by a x y (inr over) h = elim (Bool-cases (gt a x)) [
    | inl beats ↦ cc (gt_trans a x y beats over)
    | inr not_beats ↦ not_beats
  ]

  -- What the loop returns, given the server `b` with the score `y`.
  record Best (b : S) (y : F) (servers : List S) (result : Option (S × F)) : Type 0 where
    server : S
    value : F
    returned : result ≡ some (server, value)
    unbeaten : IsUnbeaten value servers
    above : AtLeast value y
    origin :
        ((server ≡ b) × (value ≡ y))
        ⊎ (IsCandidate server × Memᴰ server servers × (value ≡ score server))

  -- The servers of the list are searched after `s`, which is no better than the result.
  Best-cons :
      {b : S} {y : F} {servers : List S} {result : Option (S × F)} (s : S)
      → (best : Best b y servers result) → (IsCandidate s → gt (score s) best.value ≡ false)
      → Best b y (s ∷ servers) result
  Best-cons {b} {y} {servers} s best h = record {
    server = best.server;
    value = best.value;
    returned = best.returned;
    unbeaten = (h, best.unbeaten);
    above = best.above;
    origin = elim best.origin [ inl kept ↦ inl kept | inr (c, m, e) ↦ inr (c, Memᴰ.tail m, e) ];
  }

  -- A candidate that beats `y` takes its place.
  Best-replace :
      {y : F} {servers : List S} {result : Option (S × F)} (b s : S)
      → IsCandidate s
      → gt (score s) y ≡ true
      → Best s (score s) servers result
      → Best b y (s ∷ servers) result
  Best-replace {y} b s c over best = record {
    server = best.server;
    value = best.value;
    returned = best.returned;
    unbeaten = (
      λ _. unbeaten_by (score s) best.value (score s) best.above (gt_irrefl (score s)),
      best.unbeaten,
    );
    above = elim best.above [
      | inl e ↦ inr (rw e over)
      | inr higher ↦ inr (gt_trans best.value (score s) y higher over)
    ];
    origin = elim best.origin [
      | inl (same, e) ↦ inr (rw same c, Memᴰ.head same, rw same e)
      | inr (c', m, e) ↦ inr (c', Memᴰ.tail m, e)
    ];
  }

  abbrev search : Option (S × F) → List S → Option (S × F)
  search = search_servers floats SocketAddr p t

  search-nil : (best : Option (S × F)) → search best [] ≡ best
  unfolding search_servers
  search-nil best = refl

  search-stopped :
      (best : Option (S × F)) (s : S) (servers : List S)
      → passes floats SocketAddr p t s ≡ false
      → search best (s ∷ servers) ≡ search best servers
  unfolding search_servers
  search-stopped best s servers stopped = rw stopped refl

  search-poor :
      (best : Option (S × F)) (s : S) (servers : List S)
      → passes floats SocketAddr p t s ≡ true
      → le (score s) (decimal 1 0) ≡ true
      → search best (s ∷ servers) ≡ search best servers
  unfolding search_servers
  search-poor best s servers passed poor = rw (passed, poor) refl

  search-good :
      (best : Option (S × F)) (s : S) (servers : List S)
      → passes floats SocketAddr p t s ≡ true
      → le (score s) (decimal 1 0) ≡ false
      → search best (s ∷ servers) ≡ search (better floats SocketAddr p best s) servers
  unfolding search_servers
  search-good best s servers passed good = rw (passed, good) refl

  search_some :
      (b : S) (y : F) (servers : List S)
      → Best b y servers (search_servers floats SocketAddr p t (some (b, y)) servers)
  unfolding search_servers
  search_some b y [] = record {
    server = b;
    value = y;
    returned = refl;
    unbeaten = tt;
    above = inl refl;
    origin = inl (refl, refl);
  }
  search_some b y (s ∷ servers) = elim (Bool-cases (passes floats SocketAddr p t s)) [
    | inl passed ↦ elim (Bool-cases (le (score s) (decimal 1 0))) [
      | inl poor ↦
          rw (passed, poor) (Best-cons s (search_some b y servers) (λ c. cc (sym poor ∙ c.1)))
      | inr good ↦ elim (Bool-cases (gt (score s) y)) [
        | inl over ↦
            rw (passed, good, over)
              (Best-replace b s (passed, good) over (search_some s (score s) servers))
        | inr under ↦
            let rest = search_some b y servers in
            rw (passed, good, under)
              (Best-cons s rest (λ _. unbeaten_by (score s) rest.value y rest.above under))
      ]
    ]
    | inr stopped ↦ rw stopped (Best-cons s (search_some b y servers) (λ c. cc (sym stopped ∙ c.0)))
  ]

  -- What the search returns: nothing, where there is no candidate; or a candidate of the list, with
  -- its score, that no candidate of the list beats.
  abbrev Finds : List S → Option (S × F) → Type 0
  Finds servers result =
      ((result ≡ none) × All (λ s. ¬ IsCandidate s) servers)
      ⊎ ((r : S) × (result ≡ some (r, score r))
          × IsCandidate r
          × Memᴰ r servers
          × IsUnbeaten (score r) servers)

  IsUnbeaten-eq : {x y : F} (servers : List S) → x ≡ y → IsUnbeaten x servers → IsUnbeaten y servers
  IsUnbeaten-eq servers e h = subst (λ z. IsUnbeaten z servers) e h

  IsUnbeaten-head : {x y : F} (s : S) → x ≡ y → AtLeast x (score s) → gt (score s) y ≡ false
  IsUnbeaten-head {x} s e above =
      subst (λ z. gt (score s) z ≡ false) e
        (unbeaten_by (score s) x (score s) above (gt_irrefl (score s)))

  Finds-first :
      {servers : List S} {result : Option (S × F)} (s : S)
      → IsCandidate s
      → Best s (score s) servers result
      → Finds (s ∷ servers) result
  Finds-first {servers} s c best = elim best.origin [
    | inl (same, e) ↦ inr (
      s,
      best.returned ∙ rw (same, e) refl,
      c,
      Memᴰ.head refl,
      (λ _. gt_irrefl (score s), IsUnbeaten-eq servers e best.unbeaten),
    )
    | inr (c', m, e) ↦ inr (
      best.server,
      best.returned ∙ rw e refl,
      c',
      Memᴰ.tail m,
      (λ _. IsUnbeaten-head s e best.above, IsUnbeaten-eq servers e best.unbeaten),
    )
  ]

  -- A server that is not a candidate changes nothing.
  Finds-skip :
      {servers : List S} {result : Option (S × F)} (s : S)
      → ¬ IsCandidate s
      → Finds servers result
      → Finds (s ∷ servers) result
  Finds-skip s stopped (inl (e, h)) = inl (e, (stopped, h))
  Finds-skip s stopped (inr (r, e, c, m, h)) =
      inr (r, e, c, Memᴰ.tail m, (λ c'. absurd (stopped c'), h))

  search_none :
      (servers : List S) → Finds servers (search_servers floats SocketAddr p t none servers)
  unfolding better
  search_none [] = inl (search-nil none, tt)
  search_none (s ∷ servers) = elim (Bool-cases (passes floats SocketAddr p t s)) [
    | inl passed ↦ elim (Bool-cases (le (score s) (decimal 1 0))) [
      | inl poor ↦
          subst (Finds (s ∷ servers)) (sym (search-poor none s servers passed poor))
            (Finds-skip s (λ c. cc (sym poor ∙ c.1)) (search_none servers))
      | inr good ↦
          subst (Finds (s ∷ servers)) (sym (search-good none s servers passed good))
            (Finds-first s (passed, good) (search_some s (score s) servers))
    ]
    | inr stopped ↦
        subst (Finds (s ∷ servers)) (sym (search-stopped none s servers stopped))
          (Finds-skip s (λ c. cc (sym stopped ∙ c.0)) (search_none servers))
  ]

-- `find_server` returns nothing exactly where no server of the list passes the filter of the
-- user's preferences with a score over 1; otherwise it returns the address of such a server of the
-- list, whose score no other such server of the list exceeds.
pub find_server-Optimal :
    (floats : Floats) (SocketAddr : Type 0) (p : QuickplayPreferences)
    (servers : List (Server floats SocketAddr))
    → let t = build_filter_tags p in
      ((find_server floats SocketAddr p servers ≡ none)
        × All (λ s. ¬ IsCandidate floats SocketAddr p t s) servers)
      ⊎ ((r : Server floats SocketAddr) × (find_server floats SocketAddr p servers ≡ some r.addr)
          × IsCandidate floats SocketAddr p t r
          × Memᴰ r servers
          × IsUnbeaten floats SocketAddr p t (score_of floats SocketAddr p r) servers)
unfolding find_server
find_server-Optimal floats SocketAddr p servers =
    elim (search_none floats SocketAddr p (build_filter_tags p) servers) [
      | inl (e, h) ↦ inl (ap (address_of floats SocketAddr) e, h)
      | inr (r, e, c, m, h) ↦ inr (r, ap (address_of floats SocketAddr) e, c, m, h)
    ]
