-- ===== src/Net/NetChannel/Invariant.antt =====
-- What holds of a channel between two calls: the sizes of its arrays, and the count of fragments.
pub mod Acknowledged
pub mod Outgoing
pub mod Written
pub mod Headers
pub mod Incoming
pub mod Received
use quickplay_server.Base.{
  ℕ, zero, suc, ◌+◌, ◌≤◌, ◌<◌, ◌^◌, ◌≡◌, refl, ap, ◌∙◌, List, [], ◌∷◌, Option, none, some, All,
  All-replicate, length, replicate, get_elem?, set, arith, Bool, true, false, Outcome, ok, err,
  if◌then◌else◌,
}
use quickplay_server.Errors.{Error}
use quickplay_server.Net.NetChannel.Run.{Run, then_run}
use quickplay_server.Net.NetChannel.State.{
  IncomingReliableData, OutgoingReliableData, total_fragments, SubChannel, free, waiting_to_send,
  NetChannel, max_streams, max_subchannels, new, new_free,
}
use quickplay_server.Configuration.{Configuration}

abbrev pub add_lists : List ℕ → List ℕ → List ℕ
add_lists [] ys = []
add_lists (x ∷ xs) [] = []
add_lists (x ∷ xs) (y ∷ ys) = (x + y) ∷ add_lists xs ys

-- The fragments of each stream that the subchannels carry.
abbrev pub in_flight : List SubChannel → List ℕ
in_flight [] = replicate max_streams 0
in_flight (s ∷ ss) = add_lists s.num_fragments (in_flight ss)

abbrev pub IsSubChannel : SubChannel → Type 0
IsSubChannel s =
    (length s.start_fragment ≡ max_streams)
    × (length s.num_fragments ≡ max_streams)
    × (s.state ≡ free → s.num_fragments ≡ replicate max_streams 0)

abbrev pub IsFresh : OutgoingReliableData → Type 0
IsFresh d = (d.acked_fragments ≡ 0) × (d.pending_fragments ≡ 0)

-- `n` fragments of a stream are in flight: they are the pending ones of its first transfer, which
-- has not more fragments acknowledged and pending than it has; the transfers behind it wait.
abbrev pub Account : ℕ → List OutgoingReliableData → Type 0
Account n [] = n ≡ 0
Account n (d ∷ ds) =
    (d.pending_fragments ≡ n)
    × (d.acked_fragments + d.pending_fragments ≤ total_fragments d)
    × All IsFresh ds

abbrev pub Accounts : List ℕ → List (List OutgoingReliableData) → Type 0
Accounts [] [] = Unit {0}
Accounts (n ∷ ns) (q ∷ qs) = Account n q × Accounts ns qs
Accounts [] (q ∷ qs) = ⊥
Accounts (n ∷ ns) [] = ⊥

-- A transfer that is being received has a size of 32 bits.
abbrev pub IsIncoming : Option IncomingReliableData → Type 0
IsIncoming none = Unit {0}
IsIncoming (some d) = length d.content < 2 ^ 32

-- What a channel is made of.
pub record Origin : Type 0 where
  pub challenge : ℕ
  pub configuration : Configuration

-- A channel of that origin.
pub record IsChannel (k : Origin) (c : NetChannel) : Type 0 where
  pub same_challenge : c.challenge ≡ k.challenge
  pub same_configuration : c.configuration ≡ k.configuration
  pub two_incoming : length c.incoming_reliable_data ≡ max_streams
  pub incoming : All IsIncoming c.incoming_reliable_data
  pub eight_subchannels : length c.outgoing_subchannels ≡ max_subchannels
  pub subchannels : All IsSubChannel c.outgoing_subchannels
  pub accounts : Accounts (in_flight c.outgoing_subchannels) c.outgoing_reliable_data

pub length-add_lists :
    (xs ys : List ℕ) → length xs ≡ length ys → length (add_lists xs ys) ≡ length ys
length-add_lists [] [] e = refl
length-add_lists [] (y ∷ ys) e = e
length-add_lists (x ∷ xs) [] e = refl
length-add_lists (x ∷ xs) (y ∷ ys) e = ap suc (length-add_lists xs ys (omega arith))

pub add_lists_left_comm :
    (xs ys zs : List ℕ) → add_lists xs (add_lists ys zs) ≡ add_lists ys (add_lists xs zs)
add_lists_left_comm [] [] zs = refl
add_lists_left_comm [] (y ∷ ys) [] = refl
add_lists_left_comm [] (y ∷ ys) (z ∷ zs) = refl
add_lists_left_comm (x ∷ xs) [] [] = refl
add_lists_left_comm (x ∷ xs) [] (z ∷ zs) = refl
add_lists_left_comm (x ∷ xs) (y ∷ ys) [] = refl
add_lists_left_comm (x ∷ xs) (y ∷ ys) (z ∷ zs) = ground (arith, add_lists_left_comm xs ys zs)

pub length-in_flight :
    (ss : List SubChannel) → All IsSubChannel ss → length (in_flight ss) ≡ max_streams
length-in_flight [] h = refl
length-in_flight (s ∷ ss) h =
    let rest = length-in_flight ss h.1 in
    omega (arith, length-add_lists s.num_fragments (in_flight ss) (omega arith))

-- A call that ends with a success or an error, and leaves a channel that satisfies the invariant.
pub data Settles {A : Type 0} (k : Origin) (P : A → Type 0) (m : Outcome Error A × NetChannel)
    : Type 0 where
  fails : (e : Error) → m.0 ≡ err e → IsChannel k m.1 → Settles k P m
  returns : (a : A) → P a → m.0 ≡ ok a → IsChannel k m.1 → Settles k P m

pub if-Settles :
    {A : Type 0} {k : Origin} {P : A → Type 0} (b : Bool) {x y : Outcome Error A × NetChannel}
    → Settles k P x
    → Settles k P y
    → Settles k P (if b then x else y)
if-Settles true hx hy = hx
if-Settles false hx hy = hy

pub then_run-Settles :
    {A B : Type 0} {k : Origin} {P : A → Type 0} {Q : B → Type 0} (r : Outcome Error A)
    (c : NetChannel) (f : A → Run B)
    → Settles k P (r, c)
    → ((a : A) → P a → IsChannel k c → Settles k Q (f a c))
    → Settles k Q (then_run r c f)
then_run-Settles r c f (fails e failed h) next = rw failed (fails e refl h)
then_run-Settles r c f (returns a p returned h) next = rw returned (next a p h)

-- The channel after a call that settles, and another.
pub then_run-kept :
    {A B : Type 0} {k : Origin} {P : A → Type 0} (r : Outcome Error A) (c : NetChannel)
    (f : A → Run B)
    → Settles k P (r, c)
    → ((a : A) → P a → IsChannel k c → IsChannel k (f a c).1)
    → IsChannel k (then_run r c f).1
then_run-kept r c f (fails e failed h) next = rw failed h
then_run-kept r c f (returns a p returned h) next = rw returned (next a p h)

-- A channel that is new.
pub new-IsChannel :
    (challenge : ℕ) (configuration : Configuration)
    → IsChannel
        (record { challenge = challenge; configuration = configuration })
        (new challenge configuration)
unfolding new
new-IsChannel challenge configuration = record {
  same_challenge = refl;
  same_configuration = refl;
  two_incoming = refl;
  incoming = All-replicate IsIncoming 2 none tt;
  eight_subchannels = refl;
  subchannels = All-replicate IsSubChannel 8 new_free (refl, refl, λ _. refl);
  accounts = (refl, (refl, tt));
}

pub to_send_ne_free : waiting_to_send ≡ free → ⊥
to_send_ne_free e = cc e

-- One subchannel's share, and that of the others, which a change of this one keeps.
pub in_flight-split :
    (ss : List SubChannel) (i : ℕ) (s : SubChannel)
    → All IsSubChannel ss
    → get_elem? ss i ≡ some s
    → (others : List ℕ) × (length others ≡ max_streams)
      × (in_flight ss ≡ add_lists s.num_fragments others)
      × ((t : SubChannel) → in_flight (set ss i t) ≡ add_lists t.num_fragments others)
in_flight-split [] i s h e = cc e
in_flight-split (x ∷ ss) zero s h e = (in_flight ss, length-in_flight ss h.1, cc e, λ t. refl)
in_flight-split (x ∷ ss) (suc i) s h e =
    let (others, len, whole, change) = in_flight-split ss i s h.1 e in
    (
      add_lists x.num_fragments others,
      omega (arith, length-add_lists x.num_fragments others (omega arith)),
      ap (add_lists x.num_fragments) whole
          ∙ add_lists_left_comm x.num_fragments s.num_fragments others,
      λ t.
          ap (add_lists x.num_fragments) (change t)
          ∙ add_lists_left_comm x.num_fragments t.num_fragments others,
    )
