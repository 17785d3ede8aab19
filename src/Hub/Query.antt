-- ===== src/Hub/Query.antt =====
-- hub.go, Query: by trace id, by service, or over the whole ring, newest first, and the result in
-- chronological order. Copies of entries are entries.
pub mod Walk
pub mod Scan
pub mod Reversal
pub mod Answer
use mathlib.Core.List.{reverse}
use walspool.Base.{
  ℕ, zero, suc, ◌+◌, ◌-◌, ◌%◌, Bool, not, ◌&&◌, ◌||◌, ◌==◌, leb, if◌then◌else◌, List, [], ◌∷◌, ◌++◌,
  Option, none, some, Bytes, get_or, length, lookup, str_eq, sle, slt,
}
use walspool.Hub.Types.{Text, LogEntry, LogQuery, is_empty}
use walspool.Hub.Index.{Side, trace, service, no_link, IndexSpan, prev_at}
use walspool.Hub.State.{MemoryLogHub}
use walspool.Hub.Ingest.{spans_of, indices}

-- The limit in force.
pub limit_of : ℕ → ℕ
limit_of limit =
    let limit' = if sle limit 0 then 100 else limit in if slt 10000 limit' then 10000 else limit'

-- `matched = append(matched, item)`, behind the tests of the loop's body.
pub collect : (LogEntry → Bool) → Option LogEntry → List LogEntry → List LogEntry
collect test none matched = matched
collect test (some item) matched = if test item then matched ++ (item ∷ []) else matched

-- The loop along `prev…` links; `none` means that the fuel ran out.
pub walk :
    Side → (LogEntry → Bool) → ℕ → MemoryLogHub → ℕ → ℕ → List LogEntry → Option (List LogEntry)
walk sd test limit h zero curr matched = none
walk sd test limit h (suc f) curr matched =
    let next =
      walk sd test limit h f (prev_at sd h.links curr)
        (collect test (get_or h.entries curr none) matched) in
    if curr == no_link || leb limit (length matched) then some matched else next

-- The loop over the ring, with the rounds that are left.
pub scan : (LogEntry → Bool) → ℕ → MemoryLogHub → ℕ → ℕ → List LogEntry → List LogEntry
scan test limit h zero i matched = matched
scan test limit h (suc left) i matched =
    let next = scan test limit h left (i + 1) (
      collect test (get_or h.entries ((h.head + h.count - 1 - i + h.capacity) % h.capacity) none)
        matched) in
    if leb limit (length matched) then matched else next

-- `q == "" || q == s`
abbrev pub admits : Bytes → Bytes → Bool
admits q s = is_empty q || str_eq s q

pub walk_span :
    Side → (LogEntry → Bool) → ℕ → MemoryLogHub → Option IndexSpan → Option (List LogEntry)
walk_span sd test limit h none = some []
walk_span sd test limit h (some span) = walk sd test limit h (h.count + 1) span.tail []

-- The entries matched, newest first, for normalised criteria.
pub matches : Bytes → Bytes → Bytes → ℕ → MemoryLogHub → Option (List LogEntry)
matches trace_id service_name level limit h =
    if not (is_empty trace_id)
    then walk_span trace (λ e. admits service_name e.service && admits level e.level) limit h
        (lookup trace_id h.by_trace_id)
    else if not (is_empty service_name)
    then walk_span service (λ e. admits level e.level) limit h (lookup service_name h.by_service)
    else some (scan (λ e. admits level e.level) limit h h.count 0 [])

abbrev pub in_order : Option (List LogEntry) → Option (List LogEntry)
in_order none = none
in_order (some matched) = some (reverse matched)

pub query : Text → LogQuery → MemoryLogHub → Option (List LogEntry)
query text q h =
    if h.closed
    then some []
    else in_order (
        matches (text.trim_space q.trace_id) (text.to_lower (text.trim_space q.service))
          (text.to_upper (text.trim_space q.level)) (limit_of q.limit) h)
