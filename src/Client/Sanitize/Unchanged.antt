-- ===== src/Client/Sanitize/Unchanged.antt =====
-- SanitizeTerminal changes nothing in a safe text.
use mathlib.Core.List.{append_assoc, append-nil}
use walspool.Base.{
  ℕ, zero, suc, ◌+◌, ◌*◌, ◌/◌, ◌%◌, ◌<◌, ◌≤◌, ◌≡◌, refl, sym, ap, ◌∙◌, Bool, true, false, not, ◌&&◌,
  ◌||◌, ◌==◌, ltb, List, [], ◌∷◌, ◌++◌, Option, some, Bytes, length, All, arith, if_cases,
  length-append,
}
use walspool.Client.Sanitize.{
  rune_error, is_in, decode_three, decode_four, decode_rune, encode_rune, is_bidi, is_zero_width,
  shown, is_clean, sanitize_runes, sanitize_terminal,
}
use walspool.Client.Sanitize.Decoding.{is_scalar}
use walspool.Client.Sanitize.Safe.{is_safe, encoded, IsSafe}

module _ (r : ℕ) (rest : Bytes) where
  -- The rune itself, from its sequence.
  one_byte : r < 128 → decode_rune r rest ≡ (r, rest)
  unfolding decode_rune
  one_byte h = ground arith

  two_bytes : 128 ≤ r → r < 2048 → decode_rune (192 + r / 64) ((128 + r % 64) ∷ rest) ≡ (r, rest)
  unfolding decode_rune
  two_bytes h k = rw (a, b, c) (λ i. (value i, rest))
    where
      a : ltb (192 + r / 64) 128 ≡ false
      a = ground arith

      b : is_in 194 223 (192 + r / 64) ≡ true
      b = ground arith

      c : is_in 128 191 (128 + r % 64) ≡ true
      c = ground arith

      value : (192 + r / 64) % 32 * 64 + (128 + r % 64) % 64 ≡ r
      value = omega arith

  three :
      (low high : ℕ)
      → low ≤ 128 + r / 64 % 64
      → 128 + r / 64 % 64 ≤ high
      → r < 65536
      → decode_three low high (224 + r / 4096) ((128 + r / 64 % 64) ∷ (128 + r % 64) ∷ rest)
        ≡ (r, rest)
  three low high h k l = rw (c, d) (λ i. (value i, rest))
    where
      c : is_in low high (128 + r / 64 % 64) ≡ true
      c = ground arith

      d : is_in 128 191 (128 + r % 64) ≡ true
      d = ground arith

      value : (224 + r / 4096) % 16 * 4096 + (128 + r / 64 % 64) % 64 * 64 + (128 + r % 64) % 64 ≡ r
      value = omega arith

  four :
      (low high : ℕ)
      → low ≤ 128 + r / 4096 % 64
      → 128 + r / 4096 % 64 ≤ high
      → r < 1114112
      → decode_four low high
          (240 + r / 262144)
          ((128 + r / 4096 % 64) ∷ (128 + r / 64 % 64) ∷ (128 + r % 64) ∷ rest)
        ≡ (r, rest)
  four low high h k l = rw (b, c, d) (λ i. (value i, rest))
    where
      b : is_in low high (128 + r / 4096 % 64) ≡ true
      b = ground arith

      c : is_in 128 191 (128 + r / 64 % 64) ≡ true
      c = ground arith

      d : is_in 128 191 (128 + r % 64) ≡ true
      d = ground arith

      value :
          (240 + r / 262144) % 8 * 262144
            + (128 + r / 4096 % 64) % 64 * 4096
            + (128 + r / 64 % 64) % 64 * 64
            + (128 + r % 64) % 64
          ≡ r
      value = omega arith

  abbrev Decodes : ℕ × Bytes → Type 0
  Decodes d = d ≡ (r, rest)

  three_bytes :
      2048 ≤ r
      → is_scalar r ≡ true
      → r < 65536
      → decode_rune (224 + r / 4096) ((128 + r / 64 % 64) ∷ (128 + r % 64) ∷ rest) ≡ (r, rest)
  unfolding decode_rune
  three_bytes h s k =
      rw (a, b)
        (if_cases Decodes (lead == 224) (λ t. three 160 191 (ground arith) (omega arith) k)
          (λ t.
            if_cases Decodes (lead == 237) (λ u. three 128 159 (omega arith) (ground arith) k)
              (λ u. rw (last t) (three 128 191 (omega arith) (omega arith) k))))
    where
      lead : ℕ
      lead = 224 + r / 4096

      a : ltb (224 + r / 4096) 128 ≡ false
      a = ground arith

      b : is_in 194 223 (224 + r / 4096) ≡ false
      b = ground arith

      last : (lead == 224) ≡ false → is_in 225 239 (224 + r / 4096) ≡ true
      last t = ground arith

  four_bytes :
      65536 ≤ r
      → r < 1114112
      → decode_rune
          (240 + r / 262144)
          ((128 + r / 4096 % 64) ∷ (128 + r / 64 % 64) ∷ (128 + r % 64) ∷ rest)
        ≡ (r, rest)
  unfolding decode_rune
  four_bytes h k =
      rw (a, b, c, d, f)
        (if_cases Decodes (lead == 240) (λ t. four 144 191 (ground arith) (omega arith) k)
          (λ t.
            if_cases Decodes (is_in 241 243 lead) (λ u. four 128 191 (omega arith) (omega arith) k)
              (λ u. rw (last t u) (four 128 143 (omega arith) (ground arith) k))))
    where
      lead : ℕ
      lead = 240 + r / 262144

      a : ltb (240 + r / 262144) 128 ≡ false
      a = ground arith

      b : is_in 194 223 (240 + r / 262144) ≡ false
      b = ground arith

      c : ((240 + r / 262144) == 224) ≡ false
      c = ground arith

      d : ((240 + r / 262144) == 237) ≡ false
      d = ground arith

      f : is_in 225 239 (240 + r / 262144) ≡ false
      f = ground arith

      last : (lead == 240) ≡ false → is_in 241 243 lead ≡ false → ((240 + r / 262144) == 244) ≡ true
      last t u = ground arith

module _ (single_line : Bool) where
  shown_safe : (r : ℕ) → is_safe single_line r ≡ true → shown single_line r ≡ encode_rune r
  unfolding shown encode_rune
  shown_safe r s =
      if_cases P (r == rune_error) (λ h. absurd (ground arith))
        (λ bad.
          if_cases P (r == 9) (λ h. same 9 h)
            (λ tab.
              if_cases P (r == 10) (λ h. rw (lines 10 h refl) (same 10 h))
                (λ newline.
                  if_cases P (r == 13) (λ h. rw (lines 13 h refl) (same 13 h))
                    (λ return. rw (c0 tab newline return, c1, bidi, hidden) refl))))
    where
      P : Bytes → Type 0
      P bs = bs ≡ encode_rune r

      same : (c : ℕ) → (r == c) ≡ true → encode_rune c ≡ encode_rune r
      same c h = let e : c ≡ r = ground arith in ap encode_rune e

      lines : (c : ℕ) → (r == c) ≡ true → (ltb c 32 && not (c == 9)) ≡ true → single_line ≡ false
      lines c h k = ground arith

      c0 : (r == 9) ≡ false → (r == 10) ≡ false → (r == 13) ≡ false → (ltb r 32 || r == 127) ≡ false
      c0 t n c = ground arith

      c1 : is_in 128 159 r ≡ false
      c1 = ground arith

      bidi : is_bidi r ≡ false
      bidi = ground arith

      hidden : is_zero_width r ≡ false
      hidden = ground arith

  step :
      (n r : ℕ) (rest buf : Bytes)
      → is_scalar r ≡ true
      → sanitize_runes (suc n) single_line (encode_rune r ++ rest) buf
        ≡ sanitize_runes n single_line rest (buf ++ shown single_line r)
  unfolding sanitize_runes encode_rune
  step n r rest buf s =
      if_cases P (ltb r 128) (λ h. ap next (one_byte r rest (ground arith)))
        (λ h1.
          if_cases P (ltb r 2048) (λ h. ap next (two_bytes r rest (ground arith) (ground arith)))
            (λ h2.
              if_cases P (is_in 55296 57343 r || ltb 1114111 r) (λ h. absurd (ground arith))
                (λ h3.
                  if_cases P (ltb r 65536)
                    (λ h. ap next (three_bytes r rest (ground arith) s (ground arith)))
                    (λ h. ap next (four_bytes r rest (ground arith) (ground arith))))))
    where
      next : ℕ × Bytes → Option Bytes
      next d = sanitize_runes n single_line d.1 (buf ++ shown single_line d.0)

      P : Bytes → Type 0
      P bs =
          sanitize_runes (suc n) single_line (bs ++ rest) buf
          ≡ sanitize_runes n single_line rest (buf ++ shown single_line r)

  some_bytes : (r : ℕ) → 0 < length (encode_rune r)
  unfolding encode_rune
  some_bytes r =
      if_cases P (ltb r 128) (λ h. omega arith)
        (λ h.
          if_cases P (ltb r 2048) (λ h. omega arith)
            (λ h.
              if_cases P (is_in 55296 57343 r || ltb 1114111 r) (λ h. omega arith)
                (λ h. if_cases P (ltb r 65536) (λ h. omega arith) (λ h. omega arith))))
    where
      P : Bytes → Type 0
      P bs = 0 < length bs

  runes_unchanged :
      (n : ℕ) (rs : List ℕ) (buf : Bytes)
      → length (encoded rs) < n
      → All (IsSafe single_line) rs
      → sanitize_runes n single_line (encoded rs) buf ≡ some (buf ++ encoded rs)
  unfolding sanitize_runes encoded
  runes_unchanged zero rs buf f p = absurd (omega arith)
  runes_unchanged (suc n) [] buf f p = ap some (sym (append-nil buf))
  runes_unchanged (suc n) (r ∷ rs) buf f ((s, v), p) =
      step n r (encoded rs) buf v
      ∙ ap (λ b. sanitize_runes n single_line (encoded rs) (buf ++ b)) (shown_safe r s)
      ∙ runes_unchanged n rs (buf ++ encode_rune r)
          (omega (arith, length-append (encode_rune r) (encoded rs), some_bytes r)) p
      ∙ ap some (append_assoc buf (encode_rune r) (encoded rs))

-- The UTF-8 text of safe runes that are Unicode scalar values comes back as it is.
pub sanitize_terminal-unchanged :
    (single_line : Bool) (rs : List ℕ)
    → All (IsSafe single_line) rs
    → sanitize_terminal (encoded rs) single_line ≡ some (encoded rs)
unfolding sanitize_terminal
sanitize_terminal-unchanged single_line rs p =
    if_cases (λ o. o ≡ some (encoded rs)) (is_clean single_line (encoded rs)) (λ clean. refl)
      (λ dirty. runes_unchanged single_line (length (encoded rs) + 1) rs [] (omega arith) p)
