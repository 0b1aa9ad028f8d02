-- ===== src/IoUtil/Utf8.antt =====
-- Which byte strings are UTF-8, as `String::from_utf8` of the standard library decides: the table
-- of well-formed byte sequences of the Unicode standard, which leaves out overlong forms,
-- surrogates and what lies past U+10FFFF.
use quickplay_server.Base.{
  ℕ, zero, suc, Bool, true, false, ◌&&◌, List, [], ◌∷◌, ◌≡◌, leb, if◌then◌else◌, ◌<◌, All, arith,
  refl,
}

abbrev between : ℕ → ℕ → ℕ → Bool
between lo hi b = leb lo b && leb b hi

-- What is awaited: `more` continuation bytes, the next of which lies between `lo` and `hi`.
record Awaited : Type 0 where
  more : ℕ
  lo : ℕ
  hi : ℕ

abbrev await : ℕ → ℕ → ℕ → Awaited
await more lo hi = record { more = more; lo = lo; hi = hi }

-- By the first byte of a character; a byte that begins none awaits what no byte satisfies.
abbrev begin : ℕ → Awaited
begin b =
    if between 0x00 0x7f b
    then await 0 0 0
    else if between 0xc2 0xdf b
    then await 1 0x80 0xbf
    else if between 0xe0 0xe0 b
    then await 2 0xa0 0xbf
    else if between 0xed 0xed b
    then await 2 0x80 0x9f
    else if between 0xe1 0xef b
    then await 2 0x80 0xbf
    else if between 0xf0 0xf0 b
    then await 3 0x90 0xbf
    else if between 0xf1 0xf3 b
    then await 3 0x80 0xbf
    else if between 0xf4 0xf4 b
    then await 3 0x80 0x8f
    else await 1 1 0

check : ℕ → ℕ → ℕ → List ℕ → Bool
check zero lo hi [] = true
check zero lo hi (b ∷ bs) = let a = begin b in check a.more a.lo a.hi bs
check (suc more) lo hi [] = false
check (suc more) lo hi (b ∷ bs) = let rest = check more 0x80 0xbf bs in between lo hi b && rest

unfoldable pub is_utf8 : List ℕ → Bool
unfolding check
is_utf8 s = check 0 0 0 s

check_ascii : (s : List ℕ) (lo hi : ℕ) → All (λ b. b < 128) s → check 0 lo hi s ≡ true
unfolding check
check_ascii [] lo hi h = refl
check_ascii (b ∷ s) lo hi h = ground (arith, check_ascii s 0 0 h.1)

-- ASCII is UTF-8.
pub is_utf8_ascii : (s : List ℕ) → All (λ b. b < 128) s → is_utf8 s ≡ true
unfolding is_utf8
is_utf8_ascii s h = check_ascii s 0 0 h
