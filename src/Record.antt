-- ===== src/Record.antt =====
-- record.go: the record and its wire format.
-- Layout: magic 2, version 1, CRC32 4, id 8, time 8, topic length 2, payload length 4, topic, payload.
mod Tests
pub mod Endian
pub mod Decode
pub mod Exact
pub mod RoundTrip
pub mod Layout
use Prim.Native.Nat.{bit_xor}
use mathlib.Core.List.{foldl}
use walspool.Base.{
  ℕ, zero, suc, ◌+◌, ◌*◌, ◌/◌, ◌%◌, ◌^◌, Bool, true, false, not, ◌&&◌, ◌||◌, List, [], ◌∷◌, ◌++◌,
  Bytes, length, take, drop, get_or, ltb, ◌==◌, if◌then◌else◌,
}
use walspool.Errors.{
  Error, sentinel, wrap, truncated_data, corrupt_record, precondition_violated, Result, ok, err,
}

-- `Offset`, `id` and `checksum` are unsigned words; `timestamp` is the bit pattern of `UnixNano()`.
pub record Record : Type 0 where
  pub offset : ℕ
  pub id : ℕ
  pub timestamp : ℕ
  pub topic : Bytes
  pub payload : Bytes
  pub checksum : ℕ

abbrev pub magic_byte1 : ℕ
magic_byte1 = 0x57

abbrev pub magic_byte2 : ℕ
magic_byte2 = 0x53

abbrev pub wire_version : ℕ
wire_version = 0x01

abbrev pub header_size : ℕ
header_size = 29

-- `binary.BigEndian.PutUint64` and the like, for `n` bytes: only the low `n` bytes are kept.
unfoldable pub put_be : ℕ → ℕ → Bytes
put_be zero v = []
put_be (suc n) v = v / 256 ^ n % 256 ∷ put_be n v

-- `binary.BigEndian.Uint64` and the like, of all the bytes given.
unfoldable pub be_from : ℕ → Bytes → ℕ
be_from acc [] = acc
be_from acc (b ∷ bs) = be_from (acc * 256 + b) bs

abbrev pub get_be : Bytes → ℕ
get_be bs = be_from 0 bs

-- `data[lo:hi]`
abbrev pub slice : ℕ → ℕ → Bytes → Bytes
slice lo n bs = take n (drop lo bs)

-- hash/crc32, the IEEE polynomial, bit by bit.
crc_bit : ℕ → ℕ
crc_bit c = if c % 2 == 1 then bit_xor (c / 2) 0xedb88320 else c / 2

crc_bits : ℕ → ℕ → ℕ
crc_bits zero c = c
crc_bits (suc n) c = crc_bits n (crc_bit c)

crc_byte : ℕ → ℕ → ℕ
unfolding crc_bits crc_bit
crc_byte c b = crc_bits 8 (bit_xor c b)

-- `crc32.ChecksumIEEE`, a `uint32`.
pub checksum_ieee : Bytes → ℕ
unfolding crc_byte
checksum_ieee bs = bit_xor (foldl crc_byte 0xffffffff bs) 0xffffffff % 2 ^ 32

-- What follows the checksum: `buf[7:]`.
unfoldable pub body : Record → Bytes
body r =
    put_be 8 r.id
    ++ (put_be 8 r.timestamp
        ++ (put_be 2 (length r.topic) ++ (put_be 4 (length r.payload) ++ (r.topic ++ r.payload))))

pub marshal_binary : Record → Result Bytes
unfolding body
marshal_binary r =
    if ltb 65535 (length r.topic)
    then err (wrap (sentinel precondition_violated))
    else ok (magic_byte1 ∷ magic_byte2 ∷ wire_version ∷ put_be 4 (checksum_ieee (body r)) ++ body r)

unfoldable pub has_magic : Bytes → Bool
has_magic bs =
    get_or bs 0 0 == magic_byte1 && (get_or bs 1 0 == magic_byte2 && get_or bs 2 0 == wire_version)

-- The two length fields of a header, and the length of the whole record.
unfoldable pub topic_len : Bytes → ℕ
topic_len bs = get_be (slice 23 2 bs)

unfoldable pub payload_len : Bytes → ℕ
payload_len bs = get_be (slice 25 4 bs)

unfoldable pub total_len : Bytes → ℕ
unfolding topic_len payload_len
total_len bs = header_size + topic_len bs + payload_len bs

-- The checksum field against the checksum of what follows it.
pub sum_matches : Bytes → Bool
sum_matches bs = get_be (slice 3 4 bs) == checksum_ieee (drop 7 (take (total_len bs) bs))

-- The fields as the decoder assigns them; the receiver's `offset` is left as it was.
pub decoded : Record → Bytes → Record
decoded r bs = record r {
  id = get_be (slice 7 8 bs);
  timestamp = get_be (slice 15 8 bs);
  topic = slice header_size (topic_len bs) bs;
  checksum = get_be (slice 3 4 bs);
  payload = slice (header_size + topic_len bs) (payload_len bs) bs;
}

pub unmarshal_binary : Record → Bytes → Result Record
unmarshal_binary r bs =
    if ltb (length bs) header_size
    then err (sentinel truncated_data)
    else if not (has_magic bs)
    then err (wrap (sentinel corrupt_record))
    else if ltb (length bs) (total_len bs)
    then err (sentinel truncated_data)
    else if not (sum_matches bs)
    then err (wrap (sentinel corrupt_record))
    else ok (decoded r bs)

abbrev pub zero_record : Record
zero_record = record { offset = 0; id = 0; timestamp = 0; topic = []; payload = []; checksum = 0 }
