-- ===== src/Client/Sanitize/Safe.antt =====
-- What SanitizeTerminal writes is the encoding of safe runes.
use mathlib.Core.List.{append_assoc, append-nil}
use mathlib.Core.Path.{ap₂}
use walspool.Base.{
  ℕ, zero, suc, ◌+◌, ◌/◌, ◌%◌, ◌<◌, ◌≤◌, ◌≡◌, refl, sym, ap, ◌∙◌, Bool, true, false, not, ◌&&◌,
  ◌||◌, ◌==◌, ltb, leb, if◌then◌else◌, List, [], ◌∷◌, ◌++◌, Option, some, Bytes, length, All, arith,
  if_cases,
}
use walspool.Client.Sanitize.{
  rune_error, is_in, decode_rune, encode_rune, hex_digit, line_ending, is_bidi, is_zero_width,
  shown, is_clean_byte, is_clean, sanitize_runes, sanitize_terminal,
}
use walspool.Client.Sanitize.Decoding.{is_scalar, decode_rune_shorter, decode_rune-scalar}

-- Neither a control character, nor one that reorders or hides text, nor the mark of bad text; a
-- tab is safe, and a line end where lines are kept.
abbrev pub is_safe : Bool → ℕ → Bool
is_safe single_line r =
    if ltb r 32
    then r == 9 || (not single_line && (r == 10 || r == 13))
    else not (
        is_in 127 159 r
        || (is_in 8203 8207 r
            || (is_in 8234 8238 r || (is_in 8294 8297 r || (r == 65279 || r == 65533)))))

abbrev pub IsSafe : Bool → ℕ → Type 0
IsSafe single_line r = (is_safe single_line r ≡ true) × (is_scalar r ≡ true)

unfoldable pub encoded : List ℕ → Bytes
encoded [] = []
encoded (r ∷ rs) = encode_rune r ++ encoded rs

-- A text of safe runes, each of which stands for itself.
pub record IsSafeText (single_line : Bool) (bs : Bytes) : Type 0 where
  pub runes : List ℕ
  pub text : bs ≡ encoded runes
  pub safe : All (IsSafe single_line) runes

module _ (single_line : Bool) where
  -- A safe character of ASCII.
  abbrev IsPrintable : ℕ → Type 0
  IsPrintable c = (c < 128) × (is_safe single_line c ≡ true)

  ascii : (cs : Bytes) → All IsPrintable cs → IsSafeText single_line cs
  unfolding encode_rune encoded
  ascii cs p = record { runes = cs; text = text cs p; safe = safe cs p }
    where
      one : (c : ℕ) → c < 128 → encode_rune c ≡ c ∷ []
      one c h = ground arith

      text : (cs : Bytes) → All IsPrintable cs → cs ≡ encoded cs
      text [] p = refl
      text (c ∷ cs) ((h, s), p) = ap₂ (◌++◌) (sym (one c h)) (text cs p)

      scalar : (c : ℕ) → c < 128 → is_scalar c ≡ true
      scalar c h = ground arith

      safe : (cs : Bytes) → All IsPrintable cs → All (IsSafe single_line) cs
      safe [] p = tt
      safe (c ∷ cs) ((h, s), p) = ((s, scalar c h), safe cs p)

  join :
      (a b : Bytes)
      → IsSafeText single_line a
      → IsSafeText single_line b
      → IsSafeText single_line (a ++ b)
  unfolding encoded
  join a b p q = record {
    runes = p.runes ++ q.runes;
    text = (λ i. p.text i ++ q.text i) ∙ texts p.runes;
    safe = safes p.runes p.safe;
  }
    where
      texts : (rs : List ℕ) → encoded rs ++ encoded q.runes ≡ encoded (rs ++ q.runes)
      texts [] = refl
      texts (r ∷ rs) =
          append_assoc (encode_rune r) (encoded rs) (encoded q.runes)
          ∙ ap (λ b. encode_rune r ++ b) (texts rs)

      safes : (rs : List ℕ) → All (IsSafe single_line) rs → All (IsSafe single_line) (rs ++ q.runes)
      safes [] s = q.safe
      safes (r ∷ rs) (s, ss) = (s, safes rs ss)

  one_rune : (r : ℕ) → IsSafe single_line r → IsSafeText single_line (encode_rune r)
  unfolding encoded
  one_rune r s = record { runes = r ∷ []; text = sym (append-nil (encode_rune r)); safe = (s, tt) }

  printable : (c : ℕ) → 32 ≤ c → c < 127 → IsPrintable c
  printable c h k = (omega arith, ground arith)

  hex_digit_lem : (n : ℕ) → n < 16 → IsPrintable (hex_digit n)
  hex_digit_lem n h =
      if_cases IsPrintable (ltb n 10) (λ o. printable (48 + n) (omega arith) (ground arith))
        (λ o. printable (87 + n) (omega arith) (omega arith))

  abbrev are_printable : Bytes → Bool
  are_printable [] = true
  are_printable (c ∷ cs) = (leb 32 c && ltb c 127) && are_printable cs

  literal : (cs : Bytes) → are_printable cs ≡ true → IsSafeText single_line cs
  literal cs h = ascii cs (all cs h)
    where
      all : (cs : Bytes) → are_printable cs ≡ true → All IsPrintable cs
      all [] h = tt
      all (c ∷ cs) h = (printable c (ground arith) (ground arith), all cs (ground arith))

  in_hex :
      (cs : Bytes) (r : ℕ)
      → are_printable cs ≡ true
      → r < 256
      → IsSafeText single_line (cs ++ (hex_digit (r / 16) ∷ hex_digit (r % 16) ∷ []))
  in_hex cs r h k =
      join cs _ (literal cs h)
        (ascii _ (hex_digit_lem (r / 16) (omega arith), (hex_digit_lem (r % 16) (omega arith), tt)))

  line_end :
      (letter c : ℕ)
      → 32 ≤ letter
      → letter < 127
      → (single_line ≡ false → IsPrintable c)
      → IsSafeText single_line (line_ending single_line letter c)
  line_end letter c h k q =
      if_cases (IsSafeText single_line) single_line
        (λ s. ascii _ (printable 92 (omega arith) (omega arith), (printable letter h k, tt)))
        (λ s. ascii _ (q s, tt))

  clean_byte : (b : ℕ) → is_clean_byte single_line b ≡ true → IsPrintable b
  clean_byte b h = (ground arith, ground arith)

  kept :
      (r : ℕ)
      → (r == rune_error) ≡ false
      → (ltb r 32 || r == 127) ≡ false
      → is_in 128 159 r ≡ false
      → is_bidi r ≡ false
      → is_zero_width r ≡ false
      → is_safe single_line r ≡ true
  kept r bad c0 c1 bidi hidden = ground arith

  shown-IsSafeText : (r : ℕ) → is_scalar r ≡ true → IsSafeText single_line (shown single_line r)
  unfolding shown
  shown-IsSafeText r scalar =
      if_cases P (r == rune_error) (λ h. literal _ refl)
        (λ bad.
          if_cases P (r == 9) (λ h. ascii _ ((omega arith, refl), tt))
            (λ tab.
              if_cases P (r == 10)
                (λ h. line_end 110 10 (omega arith) (omega arith) (λ s. (omega arith, rw s refl)))
                (λ newline.
                  if_cases P (r == 13)
                    (λ h.
                      line_end 114 13 (omega arith) (omega arith) (λ s. (omega arith, rw s refl)))
                    (λ return.
                      if_cases P (ltb r 32 || r == 127)
                        (λ h. in_hex (92 ∷ 120 ∷ []) r refl (ground arith))
                        (λ c0.
                          if_cases P (is_in 128 159 r)
                            (λ h. in_hex (92 ∷ 117 ∷ 48 ∷ 48 ∷ []) r refl (ground arith))
                            (λ c1.
                              if_cases P (is_bidi r) (λ h. literal _ refl)
                                (λ bidi.
                                  if_cases P (is_zero_width r) (λ h. ascii _ tt)
                                    (λ hidden.
                                      one_rune r (kept r bad c0 c1 bidi hidden, scalar)))))))))
    where
      P : Bytes → Type 0
      P bs = IsSafeText single_line bs

-- A result that is a safe text.
pub record Writes (single_line : Bool) (out : Option Bytes) : Type 0 where
  pub written : Bytes
  pub result : out ≡ some written
  pub safe_text : IsSafeText single_line written

sanitize_runes-Writes :
    (n : ℕ) (single_line : Bool) (bs buf : Bytes)
    → length bs < n
    → IsSafeText single_line buf
    → Writes single_line (sanitize_runes n single_line bs buf)
unfolding sanitize_runes
sanitize_runes-Writes zero single_line bs buf f p = absurd (omega arith)
sanitize_runes-Writes (suc n) single_line [] buf f p = record {
  written = buf;
  result = refl;
  safe_text = p;
}
sanitize_runes-Writes (suc n) single_line (b ∷ bs) buf f p =
    sanitize_runes-Writes n single_line (decode_rune b bs).1
      (buf ++ shown single_line (decode_rune b bs).0) (omega (arith, decode_rune_shorter b bs))
      (join single_line buf (shown single_line (decode_rune b bs).0) p
        (shown-IsSafeText single_line (decode_rune b bs).0 (decode_rune-scalar b bs)))

is_clean-IsPrintable :
    (single_line : Bool) (bs : Bytes)
    → is_clean single_line bs ≡ true
    → All (IsPrintable single_line) bs
unfolding is_clean
is_clean-IsPrintable single_line [] h = tt
is_clean-IsPrintable single_line (b ∷ bs) h =
    (clean_byte single_line b (ground arith), is_clean-IsPrintable single_line bs (ground arith))

-- SanitizeTerminal ends for any bytes, and what it returns is the UTF-8 text of Unicode scalar
-- values none of which is a control character other than a tab (or, where lines are kept, a line end), a direction
-- override, a zero-width character or the replacement character.
pub sanitize_terminal-Writes :
    (s : Bytes) (single_line : Bool) → Writes single_line (sanitize_terminal s single_line)
unfolding sanitize_terminal
sanitize_terminal-Writes s single_line =
    if_cases (Writes single_line) (is_clean single_line s)
      (λ clean. record {
        written = s;
        result = refl;
        safe_text = ascii single_line s (is_clean-IsPrintable single_line s clean);
      })
      (λ dirty.
        sanitize_runes-Writes (length s + 1) single_line s [] (omega arith)
          (ascii single_line [] tt))
