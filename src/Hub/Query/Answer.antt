-- ===== src/Hub/Query/Answer.antt =====
-- `query` against its specification: the newest matching entries, in order.
use mathlib.Core.List.{reverse, reverse-reverse}
use walspool.Base.{
  ℕ, ◌+◌, ◌<◌, ◌≤◌, ◌^◌, ◌≡◌, refl, sym, ap, ◌∙◌, inl, inr, List, [], ◌∷◌, All, arith, length, take,
  Bool, true, false, ◌&&◌, Bool-cases, if◌then◌else◌, Option, some, Bytes, str_eq, str_eq_iff,
  lookup,
}
use walspool.Hub.Types.{Text, LogEntry, LogQuery, is_empty}
use walspool.Hub.Ring.{All-slots-lt, length-slots}
use walspool.Hub.Index.{Side, trace, service, Spans}
use walspool.Hub.Index.Linked.{IsIndexed, All-Same, All-everywhere}
use walspool.Hub.State.{MemoryLogHub}
use walspool.Hub.Ingest.{key_of, spans_of, indices}
use walspool.Hub.Ingest.Sides.{IsIndexOf}
use walspool.Hub.Ingest.Holding.{holding, All-holding, length-holding}
use walspool.Hub.Ingest.Log.{entries_at, used, log, newest, IsHub}
use walspool.Hub.Query.{walk, walk_span, scan, limit_of, admits, matches, in_order, query}
use walspool.Hub.Query.Walk.{filter, after, after_end, walk-after, IsBack-reverse, first-reverse}
use walspool.Hub.Query.Scan.{scan-after}
use walspool.Hub.Query.Reversal.{
  length-reverse_aux, reverse-take, filter-reverse, filter-filter, filter_same, entries_at-reverse,
  entries_at-holding,
}

module _ (sd : Side) (test : LogEntry → Bool) (limit : ℕ) (h : MemoryLogHub) (m : Spans)
    (k : Bytes) where
  -- The chain of a key, walked from its tail.
  walk_span-after :
      (ps : List ℕ)
      → All (λ p. p < 2 ^ 31) ps
      → length ps ≤ h.count
      → IsIndexed sd (h.links, m) k ps
      → walk_span sd test limit h (lookup k m)
        ≡ some (after test limit [] (entries_at h.entries (reverse ps)))
  unfolding walk_span
  walk_span-after [] lt few e = rw e (ap some (sym (after_end test limit [])))
  walk_span-after (p ∷ ps) lt few (e, c) = rw e (
      ap (λ q. walk sd test limit h (h.count + 1) q []) (sym (first-reverse p ps []))
      ∙ walk-after sd test limit h (h.count + 1) (reverse (p ∷ ps)) []
          (omega (arith, length-reverse_aux (p ∷ ps) []))
          (IsBack-reverse sd h.links (p ∷ ps) []
            (All-Same (λ q. q < 2 ^ 31) (λ q. Unit {0}) _ (λ q a _ b. omega arith) (p ∷ ps) lt
              (All-everywhere _ (λ q. tt) (p ∷ ps)))
            c tt))

-- Newest first, what a loop has matched at its end; in order, the newest.
reverse-after :
    (test : LogEntry → Bool) (limit : ℕ) (es : List LogEntry)
    → reverse (after test limit [] (reverse es)) ≡ newest limit (filter test es)
reverse-after test limit es =
    ap (λ n. reverse (take n (filter test (reverse es)))) (omega arith)
    ∙ reverse-take limit (filter test (reverse es))
    ∙ ap (λ xs. newest limit (reverse xs)) (filter-reverse test es)
    ∙ ap (newest limit) (reverse-reverse (filter test es))

module _ (h : MemoryLogHub) (v : IsHub h) (limit : ℕ) where
  -- A loop over one key's chain, in order.
  keyed :
      (sd : Side) (test : LogEntry → Bool) (k : Bytes)
      → is_empty k ≡ false
      → IsIndexOf sd h.entries (used h) (indices h)
      → in_order (walk_span sd test limit h (lookup k (spans_of sd (indices h))))
        ≡ some (newest limit (filter (λ e. str_eq k (key_of sd e) && test e) (log h)))
  keyed sd test k ne idx =
      ap in_order
        (walk_span-after sd test limit h (spans_of sd (indices h)) k chain inside few (idx k ne))
      ∙ ap (λ es. some (reverse (after test limit [] es))) (entries_at-reverse h.entries chain)
      ∙ ap some (reverse-after test limit (entries_at h.entries chain))
      ∙ ap (λ es. some (newest limit (filter test es))) (entries_at-holding h.entries sd k (used h))
      ∙ ap (λ es. some (newest limit es)) (filter-filter test (λ e. str_eq k (key_of sd e)) (log h))
    where
      chain : List ℕ
      chain = holding sd k h.entries (used h)

      inside : All (λ p. p < 2 ^ 31) chain
      inside = All-holding sd k h.entries _ (used h) (
          All-Same (λ q. q < h.capacity) (λ q. Unit {0}) _ (λ q a _. omega (arith, a, v.small))
            (used h) (All-slots-lt h.capacity h.head 0 h.count v.some_room)
            (All-everywhere _ (λ q. tt) (used h)))

      few : length chain ≤ h.count
      few =
          omega (
            arith,
            length-holding sd k h.entries (used h),
            length-slots h.capacity h.head 0 h.count,
          )

  whole :
      (test : LogEntry → Bool)
      → reverse (scan test limit h h.count 0 []) ≡ newest limit (filter test (log h))
  whole test =
      ap reverse (scan-after test limit h h.count 0 [] (omega arith))
      ∙ ap (λ es. reverse (after test limit [] es)) (entries_at-reverse h.entries (used h))
      ∙ reverse-after test limit (log h)

-- The criteria of a query on an entry, where an empty criterion holds of all.
abbrev pub wanted : Bytes → Bytes → Bytes → LogEntry → Bool
wanted trace_id service_name level e =
    admits trace_id e.trace_id && (admits service_name e.service && admits level e.level)

str_eq_sym : (a b : Bytes) → str_eq a b ≡ str_eq b a
str_eq_sym a b = ground (arith, str_eq_iff a b, str_eq_iff b a)

module _ (trace_id service_name level : Bytes) (limit : ℕ) (h : MemoryLogHub) (v : IsHub h) where
  abbrev Answers : Option (List LogEntry) → Type 0
  Answers r = in_order r ≡ some (newest limit (filter (wanted trace_id service_name level) (log h)))

  matches_all :
      is_empty trace_id ≡ true
      → is_empty service_name ≡ true
      → (e : LogEntry) → admits level e.level ≡ wanted trace_id service_name level e
  matches_all a b e = rw (a, b) refl

  matches_service :
      is_empty trace_id ≡ true
      → is_empty service_name ≡ false
      → (e : LogEntry)
      → (str_eq service_name e.service && admits level e.level)
        ≡ wanted trace_id service_name level e
  matches_service a b e = rw (a, b, str_eq_sym service_name e.service) refl

  matches_trace :
      is_empty trace_id ≡ false
      → (e : LogEntry)
      → (str_eq trace_id e.trace_id && (admits service_name e.service && admits level e.level))
        ≡ wanted trace_id service_name level e
  matches_trace a e = rw (a, str_eq_sym trace_id e.trace_id) refl

  matches-Answers : Answers (matches trace_id service_name level limit h)
  unfolding matches
  matches-Answers = elim (Bool-cases (is_empty trace_id)) [
    | inl a ↦ elim (Bool-cases (is_empty service_name)) [
      | inl b ↦
          rw (a, b)
            (ap some (
              whole h v limit (λ e. admits level e.level)
              ∙ ap (newest limit) (filter_same _ _ (log h) (matches_all a b))))
      | inr b ↦
          rw (a, b)
            (keyed h v limit service (λ e. admits level e.level) service_name b v.indexed.1
              ∙ ap (λ es. some (newest limit es)) (filter_same _ _ (log h) (matches_service a b)))
    ]
    | inr a ↦ rw a (
        keyed h v limit trace (λ e. admits service_name e.service && admits level e.level) trace_id
          a v.indexed.0
        ∙ ap (λ es. some (newest limit es)) (filter_same _ _ (log h) (matches_trace a)))
  ]

module _ (text : Text) (q : LogQuery) (h : MemoryLogHub) where
  -- What a query asks for, in the spelling of the hub.
  abbrev pub asked : LogEntry → Bool
  asked =
      wanted (text.trim_space q.trace_id) (text.to_lower (text.trim_space q.service))
        (text.to_upper (text.trim_space q.level))

  -- A query of a hub that keeps its invariant ends, and answers with the newest entries held that
  -- match every criterion, as many as the limit in force, oldest of them first; on a closed hub
  -- with none.
  pub query-newest :
      IsHub h
      → query text q h
        ≡ some (if h.closed then [] else newest (limit_of q.limit) (filter asked (log h)))
  unfolding query
  query-newest v = elim (Bool-cases h.closed) [
    | inl c ↦ simp c
    | inr c ↦ simp c (matches-Answers _ _ _ (limit_of q.limit) h v)
  ]
