-- ===== src/Record/RoundTrip.antt =====
-- Decoding what was encoded, and what a decoded record says of its bytes.
use walspool.Base.{
  ℕ, ◌+◌, ◌^◌, ◌<◌, ◌≤◌, ◌≡◌, ◌≢◌, refl, sym, ◌∙◌, true, ◌++◌, Bytes, length, take, drop, arith,
  if◌then◌else◌, length-append, ==_iff, ◌==◌,
}
use walspool.Errors.{sentinel, wrap, corrupt_record, precondition_violated, ok, err, ◌>>=◌}
use walspool.Record.{
  Record, decoded, sum_matches, get_be, slice, body, header_size, has_magic, checksum_ieee,
  topic_len, payload_len, total_len, marshal_binary, unmarshal_binary,
}
use walspool.Record.Endian.{get_be-put_be}
use walspool.Record.Layout.{
  IsWire, frame, frame_with, length-frame_with, has_magic-frame, sum_field, id_field, time_field,
  topic_len-frame, payload_len-frame, topic_field, payload_field, body_field,
}

checksum-lt : (bs : Bytes) → checksum_ieee bs < 2 ^ 32
unfolding checksum_ieee
checksum-lt bs = omega arith

-- A record is encoded to its frame exactly when its topic has at most 65535 bytes; a longer one
-- is refused as a violated precondition.
pub marshal-frame :
    (r : Record)
    → (length r.topic ≤ 65535 → marshal_binary r ≡ ok (frame r))
      × (65535 < length r.topic → marshal_binary r ≡ err (wrap (sentinel precondition_violated)))
unfolding marshal_binary
marshal-frame r = (λ h. ground arith, λ h. ground arith)

-- The decoder on any bytes that hold the fields of `r`, the checksum `sum` and the body `b`.
unmarshal_of_fields :
    (base r : Record) (sum : ℕ) (b bs : Bytes)
    → has_magic bs ≡ true
    → topic_len bs ≡ length r.topic
    → payload_len bs ≡ length r.payload
    → header_size + length r.topic + length r.payload ≤ length bs
    → get_be (slice 3 4 bs) ≡ sum
    → drop 7 (take (header_size + length r.topic + length r.payload) bs) ≡ b
    → get_be (slice 7 8 bs) ≡ r.id
    → get_be (slice 15 8 bs) ≡ r.timestamp
    → slice header_size (length r.topic) bs ≡ r.topic
    → slice (header_size + length r.topic) (length r.payload) bs ≡ r.payload
    → unmarshal_binary base bs ≡ (
        if sum == checksum_ieee b
        then ok (record r { offset = base.offset; checksum = sum })
        else err (wrap (sentinel corrupt_record)))
unfolding unmarshal_binary decoded sum_matches total_len
unmarshal_of_fields base r sum b bs magic tl pl total se be ie te pe qe =
    rw (magic, tl, pl, se, be, ie, te, pe, qe) (ground arith)

-- The answer on a frame with any checksum field.
unmarshal-frame_with :
    (base r : Record) (sum : ℕ) (rest : Bytes)
    → IsWire r
    → sum < 2 ^ 32
    → unmarshal_binary base (frame_with sum r ++ rest) ≡ (
        if sum == checksum_ieee (body r)
        then ok (record r { offset = base.offset; checksum = sum })
        else err (wrap (sentinel corrupt_record)))
unmarshal-frame_with base r sum rest w h =
    unmarshal_of_fields base r sum (body r) (frame_with sum r ++ rest) (has_magic-frame sum r rest)
      (topic_len-frame sum r rest w) (payload_len-frame sum r rest w)
      (omega (arith, length-append (frame_with sum r) rest, length-frame_with sum r))
      (rw (sum_field sum r rest) (get_be-put_be 4 sum (omega arith)))
      (rw (sym (length-frame_with sum r)) (body_field sum r rest))
      (rw (id_field sum r rest) (get_be-put_be 8 r.id (omega arith)))
      (rw (time_field sum r rest) (get_be-put_be 8 r.timestamp (omega arith)))
      (topic_field sum r rest) (payload_field sum r rest)

-- Encoding a record and decoding the bytes, whatever follows them, gives the record back: only
-- the offset is the receiver's, and the checksum is that of the encoded body. Go's types bound the
-- fields, the topic has at most 65535 bytes and the payload fewer than 2 ^ 32.
pub unmarshal-marshal :
    (base r : Record) (rest : Bytes)
    → IsWire r
    → (marshal_binary r >>= λ bs. unmarshal_binary base (bs ++ rest))
      ≡ ok (record r { offset = base.offset; checksum = checksum_ieee (body r) })
unmarshal-marshal base r rest w = rw ((marshal-frame r).0 w.topic_fits) (
    unmarshal-frame_with base r (checksum_ieee (body r)) rest w (checksum-lt (body r))
    ∙ rw ((==_iff _ _).1 refl))

-- A frame whose checksum field is not the checksum of its body is refused as corrupt.
pub unmarshal_bad_sum :
    (base r : Record) (sum : ℕ) (rest : Bytes)
    → IsWire r
    → sum < 2 ^ 32
    → sum ≢ checksum_ieee (body r)
    → unmarshal_binary base (frame_with sum r ++ rest) ≡ err (wrap (sentinel corrupt_record))
unmarshal_bad_sum base r sum rest w h ne = unmarshal-frame_with base r sum rest w h ∙ ground arith
