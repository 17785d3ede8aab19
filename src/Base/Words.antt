-- ===== src/Base/Words.antt =====
-- Go's 64-bit integers. An `int`, `int64` or `time.Duration` is its bit pattern, a number below
-- 2 ^ 64, so that the conversions between signed and unsigned are the identity.
use Prim.Native.Nat.{ℕ, ◌+◌, ◌-◌, ◌*◌, ◌%◌, ◌^◌}
use mathlib.Core.Bool.{Bool}
use walspool.Base.Tests.{ltb, leb}

abbrev pub word : ℕ
word = 2 ^ 64

abbrev pub half_word : ℕ
half_word = 2 ^ 63

-- The largest `int`.
abbrev pub max_int : ℕ
max_int = 2 ^ 63 - 1

-- A batch size within which no index into a log overflows.
abbrev pub max_batch : ℕ
max_batch = 2 ^ 32

-- The number of records of a log within which no offset overflows.
abbrev pub max_log : ℕ
max_log = 2 ^ 62

abbrev pub add64 : ℕ → ℕ → ℕ
add64 a b = (a + b) % word

abbrev pub sub64 : ℕ → ℕ → ℕ
sub64 a b = (a + word - b) % word

abbrev pub mul64 : ℕ → ℕ → ℕ
mul64 a b = a * b % word

-- Signed `a < b` and `a <= b`, on bit patterns.
abbrev pub slt : ℕ → ℕ → Bool
slt a b = ltb ((a + half_word) % word) ((b + half_word) % word)

abbrev pub sle : ℕ → ℕ → Bool
sle a b = leb ((a + half_word) % word) ((b + half_word) % word)
