-- ===== src/Errors.antt =====
-- errors.go: the sentinel errors, wrapping, and classification.
use walspool.Base.{ℕ, Bool, ◌||◌, Option, none, some, ◌==◌}

-- The package's error values, those of a context, and those of other packages by a number.
-- `panic` is no error value: it stands for a run-time panic, such as a slice out of range.
pub data Sentinel : Type 0 where
  precondition_violated spooler_closed hub_closed corrupt_record truncated_data : Sentinel
  spool_full permanent_rejection storage_unavailable sink_unavailable : Sentinel
  context_canceled deadline_exceeded : Sentinel
  foreign : ℕ → Sentinel
  panic : Sentinel

-- An error: a sentinel; `fmt.Errorf` with one `%w` or two (its text is not kept); or a
-- `*CorruptRecordError`.
pub data Error : Type 0 where
  sentinel : Sentinel → Error
  wrap : Error → Error
  wrap_both : Error → Error → Error
  corrupt_at : ℕ → Error → Error

abbrev pub code : Sentinel → ℕ
code precondition_violated = 0
code spooler_closed = 1
code hub_closed = 2
code corrupt_record = 3
code truncated_data = 4
code spool_full = 5
code permanent_rejection = 6
code storage_unavailable = 7
code sink_unavailable = 8
code context_canceled = 9
code deadline_exceeded = 10
code (foreign n) = 11
code panic = 12

abbrev pub foreign_number : Sentinel → ℕ
foreign_number (foreign n) = n
foreign_number _ = 0

abbrev pub same : Sentinel → Sentinel → Bool
same (foreign m) (foreign n) = m == n
same s t = code s == code t

-- `errors.Is(err, target)` for a sentinel target: the error itself or what it unwraps to.
-- `ErrHubClosed` wraps `ErrSpoolerClosed`, and `CorruptRecordError.Unwrap` gives three errors.
unfoldable pub is : Sentinel → Error → Bool
is t (sentinel hub_closed) = same hub_closed t || same spooler_closed t
is t (sentinel s) = same s t
is t (wrap e) = is t e
is t (wrap_both e f) = is t e || is t f
is t (corrupt_at n e) = same storage_unavailable t || (same corrupt_record t || is t e)

abbrev pub or_else {ℓ} : {A : Type ℓ} → Option A → Option A → Option A
or_else none o = o
or_else (some a) o = some a

-- `errors.As(err, &corrupt)`: the offset of the first `*CorruptRecordError` on the way.
unfoldable pub as_corrupt : Error → Option ℕ
as_corrupt (sentinel s) = none
as_corrupt (wrap e) = as_corrupt e
as_corrupt (wrap_both e f) = or_else (as_corrupt e) (as_corrupt f)
as_corrupt (corrupt_at n e) = some n

unfoldable pub is_transient : Error → Bool
unfolding is
is_transient e = is sink_unavailable e

-- Go's `(value, error)` pair.
pub data Result {ℓ} (A : Type ℓ) : Type ℓ where
  ok : A → Result A
  err : Error → Result A

infixl 5 ◌>>=◌
abbrev pub ◌>>=◌ {ℓ κ} : {A : Type ℓ} {B : Type κ} → Result A → (A → Result B) → Result B
ok a >>= f = f a
err e >>= f = err e
