-- ===== src/Net/NetChannel/State/Fragments.antt =====
-- The number of fragments of a transfer.
use quickplay_server.Base.{ℕ, ◌-◌, ◌*◌, ◌≤◌, ◌<◌, ◌^◌, ◌≡◌, ◌⊎◌, inl, inr, arith}
use native.Mathlib.Decide.{dec_le}
use quickplay_server.Net.NetChannel.State.{bytes_to_fragments, fragment_size}

-- For a size up to 2^32 - 256, `bytes_to_fragments` is the least number of fragments that hold the
-- bytes: they do, and no number that does is smaller. For the 255 larger sizes of a `u32` its
-- arithmetic wraps, and the number is 0.
pub bytes_to_fragments-least :
    (size n : ℕ)
    → size < 2 ^ 32
    → size ≤ n * fragment_size
    → ((size ≤ 2 ^ 32 - fragment_size)
        × (size ≤ bytes_to_fragments size * fragment_size)
        × (bytes_to_fragments size ≤ n))
      ⊎ ((2 ^ 32 - fragment_size < size) × (bytes_to_fragments size ≡ 0))
unfolding bytes_to_fragments
bytes_to_fragments-least size n fits enough = elim (dec_le size (2 ^ 32 - 256)) [
  | yes small ↦ inl (small, omega arith, omega arith)
  | no large ↦ inr (omega arith, omega arith)
]
