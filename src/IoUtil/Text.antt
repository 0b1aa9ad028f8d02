-- ===== src/IoUtil/Text.antt =====
-- `read_string` and `write_string`: the terminator, the bound on the length, and every input.
use quickplay_server.Base.{
  ℕ, zero, suc, ◌+◌, ◌*◌, ◌≤◌, ◌<◌, ◌≡◌, ◌≢◌, refl, ◌∙◌, Bool, true, List, [], ◌∷◌, ◌++◌,
  append_assoc, append-nil, length, length-append, All, IsByte, ok, inl, inr, Bool-cases,
  All-append, arith, leb, ◌==◌, bits_of, bits_of-append, ne→==, max,
}
use quickplay_server.Errors.{utf8}
use quickplay_server.Io.{BitIo}
use quickplay_server.Io.Laws.{read_byte, write_byte}
use quickplay_server.Io.Advance.{
  Advances, read_in-Advances, bind-Advances, if-Advances, ok-Advances, err-Advances,
}
use quickplay_server.IoUtil.{write_string, read_string_loop, read_string}
use quickplay_server.IoUtil.Utf8.{is_utf8}

-- A byte of a text that a NUL can end.
abbrev pub IsTextByte : ℕ → Type 0
IsTextByte b = (b ≢ 0) × (b < 256)

pub All-IsTextByte-IsByte : (s : List ℕ) → All IsTextByte s → All IsByte s
All-IsTextByte-IsByte [] h = tt
All-IsTextByte-IsByte (b ∷ s) h = (h.0.1, All-IsTextByte-IsByte s h.1)

-- What the reader may yield under the bound `max_len`.
abbrev pub IsRead : ℕ → List ℕ → Type 0
IsRead max_len s = All IsTextByte s × (length s ≤ max 1 max_len)

abbrev pub IsText : ℕ → List ℕ → Type 0
IsText max_len s = IsRead max_len s × (is_utf8 s ≡ true)

module _ (io : BitIo) where
  open io use {holding, written}

  pub write_string_lem :
      (s : List ℕ) (bs : List Bool)
      → All IsByte s
      → write_string io s (written bs) ≡ ok (written (bs ++ bits_of (s ++ 0 ∷ [])))
  unfolding write_string
  write_string_lem s bs h = rw (
    io.write_bytes_lem s bs h,
    write_byte io 0 (bs ++ bits_of s) (omega arith),
    bits_of-append s (0 ∷ []),
    append_assoc bs (bits_of s) (bits_of (0 ∷ [])),
  )

  -- One round on a byte of the text, and on the NUL.
  loop_byte :
      (f max_len c p b : ℕ) (text s : List ℕ) (rest : List Bool)
      → IsTextByte b
      → c + 1 < max_len
      → read_string_loop io (suc f) max_len text c (holding p (bits_of (b ∷ s) ++ rest))
        ≡ read_string_loop io f max_len
            (text ++ b ∷ [])
            (c + 1)
            (holding (p + 8) (bits_of s ++ rest))
  unfolding read_string_loop
  loop_byte f max_len c p b text s rest h lt =
      rw (read_byte io p b s rest h.1, ne→== b 0 h.0) (ground arith)

  loop_nul :
      (f max_len c p : ℕ) (text : List ℕ) (rest : List Bool)
      → read_string_loop io (suc f) max_len text c (holding p (bits_of (0 ∷ []) ++ rest))
        ≡ ok (text, holding (p + 8) rest)
  unfolding read_string_loop
  loop_nul f max_len c p text rest = rw (read_byte io p 0 [] rest (omega arith))

  loop_last :
      (f max_len c p b : ℕ) (text s : List ℕ) (rest : List Bool)
      → IsTextByte b
      → max_len ≤ c + 1
      → read_string_loop io (suc f) max_len text c (holding p (bits_of (b ∷ s) ++ rest))
        ≡ ok (text ++ b ∷ [], holding (p + 8) (bits_of s ++ rest))
  unfolding read_string_loop
  loop_last f max_len c p b text s rest h le =
      rw (read_byte io p b s rest h.1, ne→== b 0 h.0) (ground arith)

  loop_fits :
      (s : List ℕ) (f max_len c p : ℕ) (text : List ℕ) (rest : List Bool)
      → length s < f
      → All IsTextByte s
      → c + length s < max_len
      → read_string_loop io f max_len text c (holding p (bits_of (s ++ 0 ∷ []) ++ rest))
        ≡ ok (text ++ s, holding (p + 8 * (length s + 1)) rest)
  loop_fits [] zero max_len c p text rest hf h lt = absurd (omega arith)
  loop_fits [] (suc f) max_len c p text rest hf h lt =
      loop_nul f max_len c p text rest ∙ rw append-nil (ground arith)
  loop_fits (b ∷ s) zero max_len c p text rest hf h lt = absurd (omega arith)
  loop_fits (b ∷ s) (suc f) max_len c p text rest hf h lt =
      loop_byte f max_len c p b text (s ++ 0 ∷ []) rest h.0 (omega arith)
      ∙ loop_fits s f max_len (c + 1) (p + 8) (text ++ b ∷ []) rest (omega arith) h.1 (omega arith)
      ∙ rw (append_assoc text (b ∷ []) s) (ground arith)

  -- A text shorter than the bound is read, and its NUL is taken with it.
  pub read-write_string :
      (s : List ℕ) (max_len p : ℕ) (rest : List Bool)
      → All IsTextByte s
      → is_utf8 s ≡ true
      → length s < max_len
      → read_string io (holding p (bits_of (s ++ 0 ∷ []) ++ rest)) max_len
        ≡ ok (s, holding (p + 8 * (length s + 1)) rest)
  unfolding read_string
  read-write_string s max_len p rest h valid lt =
      rw (loop_fits s (max_len + 1) max_len 0 p [] rest (omega arith) h (omega arith), valid)

  -- A text of UTF-8 without NULs is written with a NUL after it. With a bound over its length it is
  -- read back from what was written, the NUL is taken too, and what follows is left unread.
  pub read_string-write_string :
      (s : List ℕ) (max_len p : ℕ) (before after : List Bool)
      → All IsTextByte s
      → is_utf8 s ≡ true
      → length s < max_len
      → (write_string io s (written before) ≡ ok (written (before ++ bits_of (s ++ 0 ∷ []))))
        × (read_string io (holding p (bits_of (s ++ 0 ∷ []) ++ after)) max_len
            ≡ ok (s, holding (p + 8 * (length s + 1)) after))
  read_string-write_string s max_len p before after h valid lt = (
    write_string_lem s before (All-IsTextByte-IsByte s h),
    read-write_string s max_len p after h valid lt,
  )

  loop_full :
      (s : List ℕ) (f max_len c p b : ℕ) (text more : List ℕ) (rest : List Bool)
      → length s < f
      → All IsTextByte (b ∷ s)
      → c + suc (length s) ≡ max_len
      → read_string_loop io f max_len text c (holding p (bits_of ((b ∷ s) ++ more) ++ rest))
        ≡ ok (text ++ b ∷ s, holding (p + 8 * suc (length s)) (bits_of more ++ rest))
  loop_full s zero max_len c p b text more rest hf h e = absurd (omega arith)
  loop_full [] (suc f) max_len c p b text more rest hf h e =
      loop_last f max_len c p b text more rest h.0 (omega arith)
  loop_full (d ∷ s) (suc f) max_len c p b text more rest hf h e =
      loop_byte f max_len c p b text (d ∷ s ++ more) rest h.0 (omega arith)
      ∙ loop_full s f max_len (c + 1) (p + 8) d (text ++ b ∷ []) more rest (omega arith) h.1
          (omega arith)
      ∙ rw (append_assoc text (b ∷ []) (d ∷ s)) (ground arith)

  -- From a text of UTF-8 without NULs that is exactly as long as the bound, and not empty, the whole
  -- text is read, whatever bytes come next; these stay in the stream, also the NUL after the text.
  pub read_string_full :
      (b : ℕ) (s more : List ℕ) (p : ℕ) (rest : List Bool)
      → All IsTextByte (b ∷ s)
      → is_utf8 (b ∷ s) ≡ true
      → read_string io (holding p (bits_of ((b ∷ s) ++ more) ++ rest)) (length (b ∷ s))
        ≡ ok (b ∷ s, holding (p + 8 * length (b ∷ s)) (bits_of more ++ rest))
  unfolding read_string
  read_string_full b s more p rest h valid = rw (
    loop_full s (length (b ∷ s) + 1) (length (b ∷ s)) 0 p b [] more rest (omega arith) h
        (omega arith),
    valid,
  )

  loop-Advances :
      (f max_len c p : ℕ) (text : List ℕ) (bs : List Bool)
      → max 1 max_len ≤ f + c
      → c < max 1 max_len
      → length text ≡ c
      → All IsTextByte text
      → Advances io (IsRead max_len) 0 p bs (read_string_loop io f max_len text c (holding p bs))
  unfolding read_string_loop
  loop-Advances zero max_len c p text bs hf hc e h = absurd (omega arith)
  loop-Advances (suc f) max_len c p text bs hf hc e h =
      bind-Advances io 0 _ (omega arith) (read_in-Advances io 8 p bs) λ b q rest hb len.
        if-Advances io (b == 0) (λ nul. ok-Advances io _ q rest text (h, omega arith))
          λ byte.
            let longer : All IsTextByte (text ++ b ∷ []) =
              All-append _ text (b ∷ []) h ((ground arith, hb), tt) in
            let count : length (text ++ b ∷ []) ≡ c + 1 =
              omega (arith, length-append text (b ∷ []), e) in
            if-Advances io (leb max_len (c + 1))
              (λ full. ok-Advances io _ q rest _ (longer, omega arith))
              λ more.
                loop-Advances f max_len (c + 1) q _ rest (omega arith) (ground arith) count longer

  -- On any bits `read_string` ends without a panic: with a UTF-8 text without NULs that is no
  -- longer than the bound (or one byte, where the bound is 0) and a later place in the data, or
  -- with an error.
  pub read_string-Advances :
      (max_len p : ℕ) (bs : List Bool)
      → Advances io (IsText max_len) 0 p bs (read_string io (holding p bs) max_len)
  unfolding read_string
  read_string-Advances max_len p bs =
      bind-Advances io 0 _ (omega arith)
        (loop-Advances (max_len + 1) max_len 0 p [] bs (omega arith) (omega arith) refl tt)
        λ text q rest h len. elim (Bool-cases (is_utf8 text)) [
          | inl valid ↦ rw valid (ok-Advances io _ q rest text (h, valid))
          | inr invalid ↦ rw invalid (err-Advances io _ 0 q rest utf8)
        ]
