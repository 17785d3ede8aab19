-- ===== src/Record/Layout.antt =====
-- Where each field of a marshalled record stands.
use mathlib.Core.List.{append_assoc}
use walspool.Base.{
  ℕ, ◌+◌, ◌^◌, ◌<◌, ◌≤◌, ◌≡◌, refl, sym, true, ◌∷◌, ◌++◌, Bytes, length, take, drop, arith,
  length-append, take_append, drop_append, drop-drop,
}
use walspool.Record.{
  Record, put_be, slice, body, magic_byte1, magic_byte2, wire_version, has_magic, checksum_ieee,
  topic_len, payload_len, total_len,
}
use walspool.Record.Endian.{get_be-put_be}

-- The ranges of the fields: Go's types, and what the length fields can hold.
pub record IsWire (r : Record) : Type 0 where
  pub id_word : r.id < 2 ^ 64
  pub time_word : r.timestamp < 2 ^ 64
  pub topic_fits : length r.topic ≤ 65535
  pub payload_fits : length r.payload < 2 ^ 32

abbrev pub frame_with : ℕ → Record → Bytes
frame_with sum r = magic_byte1 ∷ magic_byte2 ∷ wire_version ∷ put_be 4 sum ++ body r

-- The bytes of a record that `marshal_binary` accepts.
abbrev pub frame : Record → Bytes
frame r = frame_with (checksum_ieee (body r)) r

pub length-body : (r : Record) → length (body r) ≡ 22 + length r.topic + length r.payload
unfolding body put_be
length-body r = omega (arith, length-append r.topic r.payload)

module _ (sum : ℕ) (r : Record) where
  pub length-frame_with : length (frame_with sum r) ≡ 29 + length r.topic + length r.payload
  unfolding put_be
  length-frame_with = omega (arith, length-body r)

  module _ (rest : Bytes) where
    abbrev d : Bytes
    d = frame_with sum r ++ rest

    pub has_magic-frame : has_magic d ≡ true
    unfolding has_magic
    has_magic-frame = refl

    pub sum_field : slice 3 4 d ≡ put_be 4 sum
    unfolding put_be body
    sum_field = refl

    pub id_field : slice 7 8 d ≡ put_be 8 r.id
    unfolding put_be body
    id_field = refl

    pub time_field : slice 15 8 d ≡ put_be 8 r.timestamp
    unfolding put_be body
    time_field = refl

    contents : drop 29 d ≡ r.topic ++ (r.payload ++ rest)
    unfolding put_be body
    contents = append_assoc r.topic r.payload rest

    pub topic_len-frame : IsWire r → topic_len d ≡ length r.topic
    unfolding put_be body topic_len
    topic_len-frame w = get_be-put_be 2 (length r.topic) (omega arith)

    pub payload_len-frame : IsWire r → payload_len d ≡ length r.payload
    unfolding put_be body payload_len
    payload_len-frame w = get_be-put_be 4 (length r.payload) (omega arith)

    pub total_len-frame : IsWire r → total_len d ≡ length (frame_with sum r)
    unfolding total_len
    total_len-frame w = omega (arith, topic_len-frame w, payload_len-frame w, length-frame_with)

    pub topic_field : slice 29 (length r.topic) d ≡ r.topic
    topic_field = rw contents (take_append _ r.topic (r.payload ++ rest) refl)

    pub payload_field : slice (29 + length r.topic) (length r.payload) d ≡ r.payload
    payload_field =
        rw
          (
            sym (drop-drop 29 (length r.topic) _ d refl),
            contents,
            drop_append _ r.topic (r.payload ++ rest) refl,
          )
          (take_append _ r.payload rest refl)

    pub body_field : drop 7 (take (length (frame_with sum r)) d) ≡ body r
    unfolding put_be
    body_field = rw (take_append _ (frame_with sum r) rest refl) refl
