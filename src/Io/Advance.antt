-- ===== src/Io/Advance.antt =====
-- A read from any bits either fails with an error or yields a value that satisfies `P` and leaves
-- the reader at a later place in the same data: it does not panic and does not run out of fuel.
use quickplay_server.Base.{
  reject_if, ℕ, ◌+◌, ◌^◌, ◌≤◌, ◌<◌, ◌≡◌, refl, inl, inr, Bool, true, false, if◌then◌else◌, List,
  length, Outcome, ok, err, ◌>>=◌, arith,
}
use quickplay_server.Errors.{Error}
use quickplay_server.Io.{BitIo}
use quickplay_server.Io.Laws.{read_in_cases, read_bit_cases}

module _ (s : BitIo) where
  open s use {Reader, read_in, read_bit, holding}

  -- At least `n` bits are taken.
  pub data Advances {A : Type 0} (P : A → Type 0) (n p : ℕ) (bs : List Bool)
      (m : Outcome Error (A × Reader)) : Type 0 where
    fails : (e : Error) → m ≡ err e → Advances P n p bs m
    reads :
        (a : A) (q : ℕ) (rest : List Bool)
        → P a
        → p + n ≤ q
        → q + length rest ≡ p + length bs
        → m ≡ ok (a, holding q rest)
        → Advances P n p bs m

  pub read_in-Advances :
      (n p : ℕ) (bs : List Bool) → Advances (λ v. v < 2 ^ n) n p bs (read_in n (holding p bs))
  read_in-Advances n p bs = elim (read_in_cases s n p bs) [
    | inl e ↦ fails Error.io e
    | inr (v, rest, lt, len, e) ↦ reads v (p + n) rest lt (omega arith) (omega arith) e
  ]

  pub read_bit-Advances :
      (p : ℕ) (bs : List Bool) → Advances (λ b. Unit {0}) 1 p bs (read_bit (holding p bs))
  read_bit-Advances p bs = elim (read_bit_cases s p bs) [
    | inl e ↦ fails Error.io e
    | inr (b, rest, e, r) ↦ reads b (p + 1) rest tt (omega arith) (ground arith) r
  ]

  -- One read after another, `n` bits and then `k`; the second knows what the first has taken.
  pub bind_taken-Advances :
      {A B : Type 0} {P : A → Type 0} {Q : B → Type 0} {n j p : ℕ} {bs : List Bool}
      {m : Outcome Error (A × Reader)} (k : ℕ) (f : A × Reader → Outcome Error (B × Reader))
      → j ≤ n + k
      → Advances P n p bs m
      → ((a : A) (q : ℕ) (rest : List Bool)
          → P a
          → p + n ≤ q
          → q + length rest ≡ p + length bs
          → Advances Q k q rest (f (a, holding q rest)))
      → Advances Q j p bs (m >>= f)
  bind_taken-Advances k f le (fails e h) g = fails e (rw h)
  bind_taken-Advances k f le (reads a q rest pa le' len h) g = elim (g a q rest pa le' len) [
    | fails e h' ↦ fails e (rw h h')
    | reads b q' rest' qb le'' len' h' ↦ reads b q' rest' qb (omega arith) (omega arith) (rw h h')
  ]

  pub bind-Advances :
      {A B : Type 0} {P : A → Type 0} {Q : B → Type 0} {n j p : ℕ} {bs : List Bool}
      {m : Outcome Error (A × Reader)} (k : ℕ) (f : A × Reader → Outcome Error (B × Reader))
      → j ≤ n + k
      → Advances P n p bs m
      → ((a : A) (q : ℕ) (rest : List Bool)
          → P a
          → q + length rest ≡ p + length bs
          → Advances Q k q rest (f (a, holding q rest)))
      → Advances Q j p bs (m >>= f)
  bind-Advances k f le first g =
      bind_taken-Advances k f le first (λ a q rest h _ len. g a q rest h len)

  -- Both branches of a test, each knowing its outcome.
  pub if-Advances :
      {A : Type 0} {P : A → Type 0} {n p : ℕ} {bs : List Bool} {x y : Outcome Error (A × Reader)}
      (b : Bool)
      → (b ≡ true → Advances P n p bs x)
      → (b ≡ false → Advances P n p bs y)
      → Advances P n p bs (if b then x else y)
  if-Advances true hx hy = hx refl
  if-Advances false hx hy = hy refl

  pub ok-Advances :
      {A : Type 0} (P : A → Type 0) (p : ℕ) (bs : List Bool) (a : A)
      → P a
      → Advances P 0 p bs (ok (a, holding p bs))
  ok-Advances P p bs a h = reads a p bs h (omega arith) refl refl

  pub err-Advances :
      {A : Type 0} (P : A → Type 0) (n p : ℕ) (bs : List Bool) (e : Error)
      → Advances {A = A} P n p bs (err e)
  err-Advances P n p bs e = fails e refl

  -- It may be said to take fewer bits, and less may be said of the value.
  pub weaken :
      {A : Type 0} {P Q : A → Type 0} {n k p : ℕ} {bs : List Bool} {m : Outcome Error (A × Reader)}
      → Advances P n p bs m
      → k ≤ n
      → ((a : A) → P a → Q a)
      → Advances Q k p bs m
  weaken (fails e h) le f = fails e h
  weaken (reads a q rest pa le' len h) le f = reads a q rest (f a pa) (omega arith) len h

  -- `if test { return Err(e) }`, and then a read.
  pub reject-Advances :
      {A : Type 0} {P : A → Type 0} {n p : ℕ} {bs : List Bool} (b : Bool) (e : Error)
      (m : Unit {0} → Outcome Error (A × Reader))
      → Advances P n p bs (m tt)
      → Advances P n p bs (reject_if b e >>= m)
  reject-Advances true e m h = fails e refl
  reject-Advances false e m h = h
