-- ===== src/Client/Sanitize.antt =====
-- cmd/walspool/security.go: SanitizeTerminal, with what it uses of unicode/utf8. A string is its
-- bytes, a rune a number.
pub mod Decoding
pub mod Safe
pub mod Unchanged
use walspool.Base.{
  ℕ, zero, suc, ◌+◌, ◌*◌, ◌/◌, ◌%◌, Bool, true, false, not, ◌&&◌, ◌||◌, ◌==◌, ltb, leb,
  if◌then◌else◌, List, [], ◌∷◌, ◌++◌, Option, none, some, Bytes, length,
}

abbrev pub rune_error : ℕ
rune_error = 65533

abbrev pub is_in : ℕ → ℕ → ℕ → Bool
is_in low high b = leb low b && leb b high

-- `utf8.DecodeRuneInString`: the first rune and the bytes behind it. A bad sequence counts as
-- one byte.
abbrev pub decode_two : ℕ → Bytes → ℕ × Bytes
decode_two a [] = (rune_error, [])
decode_two a (b ∷ bs) = if is_in 128 191 b then (a % 32 * 64 + b % 64, bs) else (rune_error, b ∷ bs)

abbrev pub decode_three : ℕ → ℕ → ℕ → Bytes → ℕ × Bytes
decode_three low high a [] = (rune_error, [])
decode_three low high a (b ∷ []) = (rune_error, b ∷ [])
decode_three low high a (b ∷ c ∷ bs) =
    if is_in low high b && is_in 128 191 c
    then (a % 16 * 4096 + b % 64 * 64 + c % 64, bs)
    else (rune_error, b ∷ c ∷ bs)

abbrev pub decode_four : ℕ → ℕ → ℕ → Bytes → ℕ × Bytes
decode_four low high a [] = (rune_error, [])
decode_four low high a (b ∷ []) = (rune_error, b ∷ [])
decode_four low high a (b ∷ c ∷ []) = (rune_error, b ∷ c ∷ [])
decode_four low high a (b ∷ c ∷ d ∷ bs) =
    if is_in low high b && (is_in 128 191 c && is_in 128 191 d)
    then (a % 8 * 262144 + b % 64 * 4096 + c % 64 * 64 + d % 64, bs)
    else (rune_error, b ∷ c ∷ d ∷ bs)

unfoldable pub decode_rune : ℕ → Bytes → ℕ × Bytes
decode_rune a bs =
    if ltb a 128
    then (a, bs)
    else if is_in 194 223 a
    then decode_two a bs
    else if a == 224
    then decode_three 160 191 a bs
    else if a == 237
    then decode_three 128 159 a bs
    else if is_in 225 239 a
    then decode_three 128 191 a bs
    else if a == 240
    then decode_four 144 191 a bs
    else if is_in 241 243 a
    then decode_four 128 191 a bs
    else if a == 244
    then decode_four 128 143 a bs
    else (rune_error, bs)

-- The bytes that `strings.Builder.WriteRune` writes.
unfoldable pub encode_rune : ℕ → Bytes
encode_rune r =
    if ltb r 128
    then r ∷ []
    else if ltb r 2048
    then (192 + r / 64) ∷ (128 + r % 64) ∷ []
    else if is_in 55296 57343 r || ltb 1114111 r
    then 239 ∷ 191 ∷ 189 ∷ []
    else if ltb r 65536
    then (224 + r / 4096) ∷ (128 + r / 64 % 64) ∷ (128 + r % 64) ∷ []
    else (240 + r / 262144) ∷ (128 + r / 4096 % 64) ∷ (128 + r / 64 % 64) ∷ (128 + r % 64) ∷ []

-- `hexDigits` at an index below 16.
abbrev pub hex_digit : ℕ → ℕ
hex_digit n = if ltb n 10 then 48 + n else 87 + n

-- `\n` and its like, in two bytes.
abbrev pub line_ending : Bool → ℕ → ℕ → Bytes
line_ending single_line letter b = if single_line then 92 ∷ letter ∷ [] else b ∷ []

abbrev pub is_bidi : ℕ → Bool
is_bidi r = is_in 8234 8238 r || is_in 8294 8297 r

abbrev pub is_zero_width : ℕ → Bool
is_zero_width r = is_in 8203 8207 r || r == 65279

-- The switch: what is written for a rune.
unfoldable pub shown : Bool → ℕ → Bytes
shown single_line r =
    if r == rune_error
    then 92 ∷ 117 ∷ 70 ∷ 70 ∷ 70 ∷ 68 ∷ []
    else if r == 9
    then 9 ∷ []
    else if r == 10
    then line_ending single_line 110 10
    else if r == 13
    then line_ending single_line 114 13
    else if ltb r 32 || r == 127
    then 92 ∷ 120 ∷ hex_digit (r / 16) ∷ hex_digit (r % 16) ∷ []
    else if is_in 128 159 r
    then 92 ∷ 117 ∷ 48 ∷ 48 ∷ hex_digit (r / 16) ∷ hex_digit (r % 16) ∷ []
    else if is_bidi r
    then 91 ∷ 66 ∷ 73 ∷ 68 ∷ 73 ∷ 93 ∷ []
    else if is_zero_width r
    then []
    else encode_rune r

-- The test of the fast path.
abbrev pub is_clean_byte : Bool → ℕ → Bool
is_clean_byte single_line b =
    not (ltb b 32 && (not (b == 9) && (single_line || (not (b == 10) && not (b == 13)))))
    && not (leb 127 b)

unfoldable pub is_clean : Bool → Bytes → Bool
is_clean single_line [] = true
is_clean single_line (b ∷ bs) = is_clean_byte single_line b && is_clean single_line bs

-- The loop of the slow path; `none` means that the fuel ran out.
unfoldable pub sanitize_runes : ℕ → Bool → Bytes → Bytes → Option Bytes
sanitize_runes zero single_line bs buf = none
sanitize_runes (suc n) single_line [] buf = some buf
sanitize_runes (suc n) single_line (b ∷ bs) buf =
    let (r, rest) = decode_rune b bs in
    sanitize_runes n single_line rest (buf ++ shown single_line r)

unfoldable pub sanitize_terminal : Bytes → Bool → Option Bytes
sanitize_terminal s single_line =
    if is_clean single_line s then some s else sanitize_runes (length s + 1) single_line s []
