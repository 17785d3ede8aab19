-- ===== src/Record/Endian.antt =====
-- Big-endian fields: what is written is read back, and what is read would be written so.
use mathlib.Core.Path.{ap₂}
use native.Mathlib.Nat.{
  pow-suc, mod-eq_of_lt, mod-lt, one-le-pow, div-add-mod', add-mul-mod_self_left, mul-add-div_right,
  div-eq_of_lt,
}
use walspool.Base.{
  ℕ, zero, suc, ◌+◌, ◌*◌, ◌/◌, ◌%◌, ◌^◌, ◌<◌, ◌≡◌, refl, ap, ◌∙◌, [], ◌∷◌, Bytes, length, All,
  arith,
}
use walspool.Record.{put_be, be_from, get_be}

abbrev pub IsByte : ℕ → Type 0
IsByte b = b < 256

pub length-put_be : (n v : ℕ) → length (put_be n v) ≡ n
unfolding put_be
length-put_be zero v = refl
length-put_be (suc n) v = ap suc (length-put_be n v)

pow_step : (n : ℕ) → 256 ^ suc n ≡ 256 * 256 ^ n
pow_step n = rw pow-suc (omega arith)

byte_pow_pos : (n : ℕ) → 0 < 256 ^ n
byte_pow_pos n = one-le-pow n 256 (omega arith)

-- The low digits of `v`, with the next one in front.
mod_split : (p v : ℕ) → 0 < p → v % (256 * p) ≡ v / p % 256 * p + v % p
mod_split p v h =
    ap (λ (x : ℕ). x % (256 * p)) whole
    ∙ add-mul-mod_self_left low (256 * p) (v / p / 256)
    ∙ mod-eq_of_lt small
  where
    low : ℕ
    low = v / p % 256 * p + v % p

    whole : v ≡ low + 256 * p * (v / p / 256)
    whole = omega (arith, div-add-mod' v p, ap (λ (x : ℕ). x * p) (div-add-mod' (v / p) 256))

    small : low < 256 * p
    small = grind (arith, mod-lt v h, mod-lt (v / p) {m = 256} (omega arith))

be_from-put_be : (n acc v : ℕ) → be_from acc (put_be n v) ≡ acc * 256 ^ n + v % 256 ^ n
unfolding be_from put_be
be_from-put_be zero acc v = omega arith
be_from-put_be (suc n) acc v =
    be_from-put_be n (acc * 256 + v / 256 ^ n % 256) v
    ∙ rw (pow_step n, mod_split (256 ^ n) v (byte_pow_pos n)) (omega arith)

-- A field of `n` bytes holds the numbers below `256 ^ n`.
pub get_be-put_be : (n v : ℕ) → v < 256 ^ n → get_be (put_be n v) ≡ v
get_be-put_be n v h = be_from-put_be n 0 v ∙ rw (mod-eq_of_lt h) (omega arith)

be_from_acc : (acc : ℕ) (bs : Bytes) → be_from acc bs ≡ acc * 256 ^ length bs + get_be bs
unfolding be_from
be_from_acc acc [] = omega arith
be_from_acc acc (b ∷ bs) =
    be_from_acc (acc * 256 + b) bs
    ∙ rw (pow_step (length bs)) (omega (arith, be_from_acc (0 + b) bs))

get_be_cons : (b : ℕ) (bs : Bytes) → get_be (b ∷ bs) ≡ b * 256 ^ length bs + get_be bs
get_be_cons b bs = unfold be_from in omega (arith, be_from_acc (0 + b) bs)

digit_lt : (b p r : ℕ) → b < 256 → r < p → b * p + r < 256 * p
digit_lt b p r hb hr = grind arith

pub get_be-lt : (bs : Bytes) → All IsByte bs → get_be bs < 256 ^ length bs
get_be-lt [] h = unfold be_from in omega arith
get_be-lt (b ∷ bs) (hb, h) =
    rw (get_be_cons b bs, pow_step (length bs)) (digit_lt b _ _ hb (get_be-lt bs h))

-- Only the digits below the `n`th place are written.
put_be_mod : (n a v : ℕ) → put_be n (a * 256 ^ n + v) ≡ put_be n v
unfolding put_be
put_be_mod zero a v = refl
put_be_mod (suc n) a v = rw shift (
    ap₂ ◌∷◌ (rw (mul-add-div_right (byte_pow_pos n) (a * 256) v) (omega arith))
      (put_be_mod n (a * 256) v))
  where
    shift : a * 256 ^ suc n ≡ a * 256 * 256 ^ n
    shift = rw (pow_step n) (omega arith)

pub put_be-get_be : (bs : Bytes) → All IsByte bs → put_be (length bs) (get_be bs) ≡ bs
unfolding put_be
put_be-get_be [] h = refl
put_be-get_be (b ∷ bs) (hb, h) = rw (get_be_cons b bs) (
    ap₂ ◌∷◌
      (rw
        (mul-add-div_right (byte_pow_pos (length bs)) b (get_be bs), div-eq_of_lt (get_be-lt bs h))
        (omega arith))
      (put_be_mod (length bs) b (get_be bs) ∙ put_be-get_be bs h))
