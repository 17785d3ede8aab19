-- ===== src/Client/Tests.antt =====
-- Lines read at concrete streams, and concrete texts shown.
use walspool.Base.{List, ℕ, refl, ◌∷◌, [], Bytes, some, true, false, ◌≡◌, arith}
use walspool.Client.Lines.{read_line, strip_cr}
use walspool.Client.Lines.Whole.{read_line_lem, IsPlain}
use walspool.Client.Sanitize.{
  decode_rune, encode_rune, shown, is_clean, sanitize_runes, sanitize_terminal,
}
use walspool.Client.Sanitize.Safe.{encoded, Writes, sanitize_terminal-Writes}
use walspool.Client.Sanitize.Unchanged.{sanitize_terminal-unchanged}

-- "abc" with a carriage return.
abbrev abc : Bytes
abc = 97 ∷ 98 ∷ 99 ∷ 13 ∷ []

abc-IsPlain : IsPlain abc
abc-IsPlain = (omega arith, (omega arith, (omega arith, (omega arith, tt))))

read_line_lem_example :
    read_line 2 (97 ∷ 98 ∷ 99 ∷ 13 ∷ 10 ∷ 120 ∷ [])
    ≡ some (record { bytes = 97 ∷ 98 ∷ []; truncated = true; at_end = false; left = 120 ∷ [] })
unfolding strip_cr
read_line_lem_example = read_line_lem 2 abc (120 ∷ []) abc-IsPlain

-- The escape that clears a terminal, with its escape character spelled out.
escape_spelled :
    sanitize_terminal (27 ∷ 91 ∷ 50 ∷ 74 ∷ []) true ≡ some (92 ∷ 120 ∷ 49 ∷ 98 ∷ 91 ∷ 50 ∷ 74 ∷ [])
unfolding sanitize_terminal sanitize_runes is_clean shown decode_rune encode_rune
escape_spelled = refl

sanitize_terminal-Writes_example : Writes true (sanitize_terminal (27 ∷ 91 ∷ 50 ∷ 74 ∷ []) true)
sanitize_terminal-Writes_example = sanitize_terminal-Writes (27 ∷ 91 ∷ 50 ∷ 74 ∷ []) true

-- Runes of one, two, three and four bytes.
abbrev wide : List ℕ
wide = 9 ∷ 233 ∷ 8364 ∷ 128512 ∷ []

sanitize_terminal-unchanged_example : sanitize_terminal (encoded wide) true ≡ some (encoded wide)
sanitize_terminal-unchanged_example =
    sanitize_terminal-unchanged true wide
      ((refl, refl), ((refl, refl), ((refl, refl), ((refl, refl), tt))))
