-- ===== src/Record/Decode.antt =====
-- What a decoder's answer says of the bytes it was given: prefixes, and exactness.
use mathlib.Core.List.{append-nil}
use walspool.Base.{
  ℕ, zero, suc, ◌+◌, ◌<◌, ◌≤◌, ◌≡◌, refl, sym, ap, ◌∙◌, true, [], ◌∷◌, ◌++◌, Bytes, length, arith,
  get_or, length-append, Bool-cases, inl, inr, ltb,
}
use walspool.Errors.{sentinel, truncated_data, ok, err}
use walspool.Record.{
  Record, slice, body, header_size, has_magic, checksum_ieee, topic_len, payload_len, total_len,
  marshal_binary, unmarshal_binary,
}
use walspool.Record.RoundTrip.{marshal-frame}
use walspool.Record.Layout.{IsWire, frame, total_len-frame}

-- A slice inside the front part does not see what follows.
slice_append :
    (lo n : ℕ) (front more : Bytes)
    → lo + n ≤ length front
    → slice lo n (front ++ more) ≡ slice lo n front
slice_append zero zero front more h = refl
slice_append zero (suc n) [] more h = absurd (omega arith)
slice_append zero (suc n) (x ∷ front) more h =
    ap (◌∷◌ x) (slice_append zero n front more (omega arith))
slice_append (suc lo) n [] more h = absurd (omega arith)
slice_append (suc lo) n (x ∷ front) more h = slice_append lo n front more (omega arith)

get_or_append :
    (front more : Bytes) (i : ℕ) → i < length front → get_or (front ++ more) i 0 ≡ get_or front i 0
get_or_append [] more i h = absurd (omega arith)
get_or_append (x ∷ front) more zero h = refl
get_or_append (x ∷ front) more (suc i) h = get_or_append front more i (omega arith)

-- The header fields of a longer input are those of its front.
pub header_append :
    (front more : Bytes)
    → header_size ≤ length front
    → (has_magic (front ++ more) ≡ has_magic front) × (total_len (front ++ more) ≡ total_len front)
unfolding total_len topic_len payload_len has_magic
header_append front more h = (
  rw
      (
        get_or_append front more 0 (omega arith),
        get_or_append front more 1 (omega arith),
        get_or_append front more 2 (omega arith),
      )
      refl,
  rw (slice_append 23 2 front more (omega arith), slice_append 25 4 front more (omega arith)) refl,
)

-- An input that stops short of the record its header announces, or inside the header, is truncated.
truncated_of_short :
    (base : Record) (front : Bytes)
    → (header_size ≤ length front → (has_magic front ≡ true) × (length front < total_len front))
    → unmarshal_binary base front ≡ err (sentinel truncated_data)
unfolding unmarshal_binary
truncated_of_short base front h = elim (Bool-cases (ltb (length front) header_size)) [
  | inl p ↦ rw p
  | inr p ↦ let (m, t) = h (ground arith) in rw (p, m) (ground arith)
]

-- Every proper prefix of an encoded record is reported as truncated data.
pub unmarshal_prefix :
    (base r : Record) (front : Bytes) (x : ℕ) (back : Bytes)
    → IsWire r
    → marshal_binary r ≡ ok (front ++ (x ∷ back))
    → unmarshal_binary base front ≡ err (sentinel truncated_data)
unfolding has_magic
unmarshal_prefix base r front x back w e = truncated_of_short base front λ long. (
  sym (header_append front (x ∷ back) long).0 ∙ ap has_magic (sym whole),
  omega (
    arith,
    (header_append front (x ∷ back) long).1,
    ap total_len whole,
    announced,
    ap length whole,
    length-append front (x ∷ back),
  ),
)
  where
    whole : frame r ≡ front ++ (x ∷ back)
    whole = cc ((marshal-frame r).0 w.topic_fits)

    announced : total_len (frame r) ≡ length (frame r)
    announced = rw append-nil at (total_len-frame (checksum_ieee (body r)) r [] w)
