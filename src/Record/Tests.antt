-- ===== src/Record/Tests.antt =====
-- Concrete records, and the theorems at them.
use walspool.Base.{◌≡◌, ◌<◌, ◌≤◌, refl, [], ◌∷◌, ◌++◌, Bytes, take, drop, length, arith}
use walspool.Errors.{
  sentinel, wrap, truncated_data, corrupt_record, precondition_violated, ok, err, ◌>>=◌,
}
use walspool.Record.{
  Record, zero_record, body, checksum_ieee, marshal_binary, unmarshal_binary, put_be, be_from,
  total_len, has_magic, sum_matches, decoded,
}
use walspool.Record.Layout.{IsWire, frame, frame_with}
use walspool.Record.RoundTrip.{marshal-frame, unmarshal-marshal, unmarshal_bad_sum}
use walspool.Record.Decode.{unmarshal_prefix}
use walspool.Record.Exact.{unmarshal_exact}

-- The check value of CRC-32: the checksum of "123456789".
crc_check :
    checksum_ieee (b'1' ∷ b'2' ∷ b'3' ∷ b'4' ∷ b'5' ∷ b'6' ∷ b'7' ∷ b'8' ∷ b'9' ∷ []) ≡ 0xcbf43926
unfolding checksum_ieee
crc_check = refl

abbrev sample : Record
sample = record {
  offset = 7;
  id = 3;
  timestamp = 1_700_000_000_000_000_000;
  topic = b'a' ∷ b'b' ∷ [];
  payload = b'{' ∷ b'}' ∷ [];
  checksum = 0;
}

abbrev sample-IsWire : IsWire sample
sample-IsWire = record {
  id_word = omega arith;
  time_word = omega arith;
  topic_fits = omega arith;
  payload_fits = omega arith;
}

unmarshal-marshal_example :
    (marshal_binary sample >>= λ bs. unmarshal_binary zero_record (bs ++ (1 ∷ [])))
    ≡ ok (record sample { offset = 0; checksum = checksum_ieee (body sample) })
unmarshal-marshal_example = unmarshal-marshal zero_record sample (1 ∷ []) sample-IsWire

marshal-frame_example :
    (length sample.topic ≤ 65535 → marshal_binary sample ≡ ok (frame sample))
    × (65535 < length sample.topic
        → marshal_binary sample ≡ err (wrap (sentinel precondition_violated)))
marshal-frame_example = marshal-frame sample

unmarshal_bad_sum_example :
    unmarshal_binary zero_record (frame_with 5 sample ++ []) ≡ err (wrap (sentinel corrupt_record))
unfolding checksum_ieee body put_be
unmarshal_bad_sum_example =
    unmarshal_bad_sum zero_record sample 5 [] sample-IsWire (omega arith) (omega arith)

-- The bytes of `sample`.
abbrev sample_bytes : Bytes
sample_bytes =
    87 ∷ 83 ∷ 1 ∷ 82 ∷ 157 ∷ 9 ∷ 90 ∷ 0 ∷ 0 ∷ 0 ∷ 0 ∷ 0 ∷ 0 ∷ 0 ∷ 3 ∷ 23 ∷ 151 ∷ 156 ∷ 254 ∷ 54 ∷ 42
    ∷ 0 ∷ 0 ∷ 0 ∷ 2 ∷ 0 ∷ 0 ∷ 0 ∷ 2 ∷ 97 ∷ 98 ∷ 123 ∷ 125 ∷ []

sample_encoded : marshal_binary sample ≡ ok sample_bytes
unfolding marshal_binary put_be checksum_ieee
sample_encoded = refl

sample_decoded :
    unmarshal_binary zero_record (sample_bytes ++ (9 ∷ []))
    ≡ ok (record sample { offset = 0; checksum = 0x529d095a })
unfolding unmarshal_binary total_len has_magic sum_matches decoded be_from checksum_ieee
sample_decoded = refl

unmarshal_prefix_example :
    unmarshal_binary zero_record (take 20 sample_bytes) ≡ err (sentinel truncated_data)
unmarshal_prefix_example =
    unmarshal_prefix zero_record sample (take 20 sample_bytes) 42 (drop 21 sample_bytes)
      sample-IsWire sample_encoded

unmarshal_exact_example :
    let r : Record = record sample { offset = 0; checksum = 0x529d095a } in
    IsWire r
    × ((rest : Bytes) × (marshal_binary r ≡ ok (frame r))
        × (sample_bytes ++ (9 ∷ []) ≡ frame r ++ rest))
    × (r.checksum ≡ checksum_ieee (body r))
    × (r.offset ≡ 0)
unmarshal_exact_example =
    unmarshal_exact zero_record (sample_bytes ++ (9 ∷ []))
      (record sample { offset = 0; checksum = 0x529d095a }) (omega arith) sample_decoded
