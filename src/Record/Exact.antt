-- ===== src/Record/Exact.antt =====
-- The decoder accepts nothing but encodings.
use mathlib.Core.List.{append_assoc}
use walspool.Base.{
  ℕ, zero, suc, ◌+◌, ◌^◌, ◌<◌, ◌≤◌, ◌≡◌, refl, sym, ap, ◌∙◌, true, [], ◌∷◌, ◌++◌, Bytes, length,
  take, drop, arith, All, length-append, length-take, length-drop, take_append, drop_append,
  drop-drop, take-append-drop, ==_iff,
}
use walspool.Errors.{ok}
use walspool.Record.{
  Record, decoded, sum_matches, put_be, get_be, slice, body, magic_byte1, magic_byte2, wire_version,
  header_size, has_magic, checksum_ieee, topic_len, payload_len, total_len, marshal_binary,
  unmarshal_binary,
}
use walspool.Record.Endian.{IsByte, get_be-lt, put_be-get_be}
use walspool.Record.RoundTrip.{marshal-frame}
use walspool.Record.Layout.{IsWire, length-body, frame}

All-take : (n : ℕ) (bs : Bytes) → All IsByte bs → All IsByte (take n bs)
All-take zero bs h = tt
All-take (suc n) [] h = tt
All-take (suc n) (b ∷ bs) h = (h.0, All-take n bs h.1)

All-drop : (n : ℕ) (bs : Bytes) → All IsByte bs → All IsByte (drop n bs)
All-drop zero bs h = h
All-drop (suc n) [] h = tt
All-drop (suc n) (b ∷ bs) h = All-drop n bs h.1

module _ (bs : Bytes) (bytes : All IsByte bs) where
  length-slice : (lo n : ℕ) → lo + n ≤ length bs → length (slice lo n bs) ≡ n
  length-slice lo n h = omega (arith, length-take n (drop lo bs), length-drop lo bs)

  field_lt : (lo n : ℕ) → lo + n ≤ length bs → get_be (slice lo n bs) < 256 ^ n
  field_lt lo n h =
      rw (length-slice lo n h) at
        (get_be-lt (slice lo n bs) (All-take n (drop lo bs) (All-drop lo bs bytes)))

  field_bytes : (lo n : ℕ) → lo + n ≤ length bs → put_be n (get_be (slice lo n bs)) ≡ slice lo n bs
  field_bytes lo n h =
      rw (length-slice lo n h) at
        (put_be-get_be (slice lo n bs) (All-take n (drop lo bs) (All-drop lo bs bytes)))

  -- A field and what follows it.
  split_at : (lo n hi : ℕ) → lo + n ≡ hi → slice lo n bs ++ drop hi bs ≡ drop lo bs
  split_at lo n hi e = rw (sym (drop-drop lo n hi bs e)) (take-append-drop n (drop lo bs))

magic_bytes :
    (bs : Bytes)
    → 3 ≤ length bs
    → has_magic bs ≡ true
    → magic_byte1 ∷ magic_byte2 ∷ wire_version ∷ drop 3 bs ≡ bs
unfolding has_magic
magic_bytes [] h m = absurd (omega arith)
magic_bytes (a ∷ []) h m = absurd (omega arith)
magic_bytes (a ∷ b ∷ []) h m = absurd (omega arith)
magic_bytes (a ∷ b ∷ c ∷ bs) h m = ground arith

-- What the decoder checks before it accepts, and the record that it builds.
unmarshal_accepted :
    (base : Record) (bs : Bytes) (r : Record)
    → unmarshal_binary base bs ≡ ok r
    → (header_size ≤ length bs)
      × (has_magic bs ≡ true)
      × (total_len bs ≤ length bs)
      × (sum_matches bs ≡ true)
      × (r ≡ decoded base bs)
unfolding unmarshal_binary
unmarshal_accepted base bs r e = ground arith

-- The middle of three parts.
middle :
    (n total : ℕ) (a b c bs : Bytes)
    → (a ++ b) ++ c ≡ bs
    → length a ≡ n
    → n + length b ≡ total
    → drop n (take total bs) ≡ b
middle n total a b c bs e ha hb =
    ap (λ x. drop n (take total x)) (sym e)
    ∙ ap (drop n) (take_append total (a ++ b) c (omega (arith, length-append a b)))
    ∙ drop_append n a b ha

-- The parts of an accepted input.
module _ (base : Record) (bs : Bytes) (bytes : All IsByte bs)
    (total : total_len bs ≤ length bs) where
  abbrev r : Record
  r = decoded base bs

  abbrev rest : Bytes
  rest = drop (total_len bs) bs

  lengths : (length r.topic ≡ topic_len bs) × (length r.payload ≡ payload_len bs)
  unfolding decoded total_len
  lengths = (
    length-slice bs bytes header_size (topic_len bs) (omega arith),
    length-slice bs bytes (header_size + topic_len bs) (payload_len bs) (omega arith),
  )

  decoded-IsWire : IsWire r
  unfolding decoded total_len topic_len payload_len
  decoded-IsWire = record {
    id_word = field_lt bs bytes 7 8 (omega arith);
    time_word = field_lt bs bytes 15 8 (omega arith);
    topic_fits = (omega (arith, lengths, field_lt bs bytes 23 2 (omega arith)));
    payload_fits = (omega (arith, lengths, field_lt bs bytes 25 4 (omega arith)));
  }

  header_fields :
      (put_be 8 r.id ≡ slice 7 8 bs)
      × (put_be 8 r.timestamp ≡ slice 15 8 bs)
      × (put_be 2 (length r.topic) ≡ slice 23 2 bs)
      × (put_be 4 (length r.payload) ≡ slice 25 4 bs)
  unfolding decoded total_len topic_len payload_len
  header_fields = (
    field_bytes bs bytes 7 8 (omega arith),
    field_bytes bs bytes 15 8 (omega arith),
    rw (lengths.0) (field_bytes bs bytes 23 2 (omega arith)),
    rw (lengths.1) (field_bytes bs bytes 25 4 (omega arith)),
  )

  body_fields :
      body r
      ≡ slice 7 8 bs
        ++ (slice 15 8 bs ++ (slice 23 2 bs ++ (slice 25 4 bs ++ (r.topic ++ r.payload))))
  unfolding body
  body_fields = let (i, t, n, m) = header_fields in rw (i, t, n, m) refl

  payload_rest : r.payload ++ rest ≡ drop (29 + topic_len bs) bs
  unfolding decoded total_len
  payload_rest = split_at bs bytes (29 + topic_len bs) (payload_len bs) _ (omega arith)

  topic_rest : r.topic ++ drop (29 + topic_len bs) bs ≡ drop 29 bs
  unfolding decoded
  topic_rest = split_at bs bytes 29 (topic_len bs) _ (omega arith)

  body-rest : body r ++ rest ≡ drop 7 bs
  body-rest = rw (body_fields) (
      simp append_assoc (
        rw
          (
            payload_rest,
            topic_rest,
            split_at bs bytes 25 4 29 (omega arith),
            split_at bs bytes 23 2 25 (omega arith),
            split_at bs bytes 15 8 23 (omega arith),
          )
          (split_at bs bytes 7 8 15 (omega arith))))

  length-body-decoded : length (body r) + 7 ≡ total_len bs
  unfolding total_len
  length-body-decoded = omega (arith, length-body r, lengths)

  body_input : drop 7 (take (total_len bs) bs) ≡ body r
  unfolding total_len
  body_input =
      middle 7 (total_len bs) (take 7 bs) (body r) rest bs
        (append_assoc (take 7 bs) (body r) rest
          ∙ ap (◌++◌ (take 7 bs)) body-rest
          ∙ take-append-drop 7 bs)
        (omega (arith, length-take 7 bs)) (omega (arith, length-body-decoded))

  module _ (magic : has_magic bs ≡ true) (sum : sum_matches bs ≡ true) where
    sum_input : get_be (slice 3 4 bs) ≡ checksum_ieee (body r)
    unfolding sum_matches
    sum_input = rw (sym body_input) ((==_iff _ _).0 sum)

    frame-rest : frame r ++ rest ≡ bs
    unfolding total_len
    frame-rest =
        rw (sym sum_input, field_bytes bs bytes 3 4 (omega arith))
          (ap (λ (x : Bytes). magic_byte1 ∷ magic_byte2 ∷ wire_version ∷ x)
              (append_assoc (slice 3 4 bs) (body r) rest
                ∙ ap (◌++◌ (slice 3 4 bs)) body-rest
                ∙ split_at bs bytes 3 4 7 (omega arith))
            ∙ magic_bytes bs (omega arith) magic)

-- The decoder accepts no bytes but an encoding: when it answers with `r` on a list of bytes, the
-- fields of `r` are in range, the input is exactly what `marshal_binary r` writes followed by some
-- rest, the checksum is that of the body, and the offset is the receiver's.
pub unmarshal_exact :
    (base : Record) (bs : Bytes) (r : Record)
    → All IsByte bs
    → unmarshal_binary base bs ≡ ok r
    → IsWire r
      × ((rest : Bytes) × (marshal_binary r ≡ ok (frame r)) × (bs ≡ frame r ++ rest))
      × (r.checksum ≡ checksum_ieee (body r))
      × (r.offset ≡ base.offset)
unfolding decoded
unmarshal_exact base bs r bytes e =
    let (long, magic, total, sum, is_decoded) = unmarshal_accepted base bs r e in
    rw is_decoded (
      decoded-IsWire base bs bytes total,
      (
        drop (total_len bs) bs,
        (marshal-frame (decoded base bs)).0 (decoded-IsWire base bs bytes total).topic_fits,
        sym (frame-rest base bs bytes total magic sum),
      ),
      sum_input base bs bytes total magic sum,
      refl,
    )
