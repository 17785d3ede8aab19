-- ===== src/Hub/Ingest/Keeps.antt =====
-- `place`: a hub stays one, and holds the newest entries.
use mathlib.Core.Path.{subst}
use native.Mathlib.Nat.{mod-eq_of_lt, mod-lt}
use walspool.Base.{
  ℕ, ◌+◌, ◌%◌, ◌<◌, ◌^◌, ◌≡◌, ◌≢◌, sym, ap, ◌∙◌, List, [], ◌∷◌, ◌++◌, All, length, arith, Option,
  none, some, get_or, set, length-set, get_or-set_self,
}
use walspool.Hub.Types.{LogEntry}
use walspool.Hub.Ring.{slots, slots-suc, All-slots-ne}
use walspool.Hub.State.{MemoryLogHub}
use walspool.Hub.Ingest.{Indices, indices, link_entry, add_newest}
use walspool.Hub.Ingest.Sides.{AreSlots}
use walspool.Hub.Ingest.Entries.{AreIndices, link_entry-AreIndices}
use walspool.Hub.Ingest.Log.{
  used, entries_at, log, Filled, IsHub, entries_at-append, entries_at-set, Filled-set,
  AreIndices-set, Filled-append, used-AreSlots, before,
}

flipped : (p : ℕ) (ps : List ℕ) → All (λ q. q ≢ p) ps → All (λ q. p ≢ q) ps
flipped p [] h = tt
flipped p (q ∷ qs) h = (λ e. h.0 (sym e), flipped p qs h.1)

-- A slot `p` that is none of `ps` takes an entry.
module _ (es : List (Option LogEntry)) (p : ℕ) (item : LogEntry) (ps : List ℕ)
    (fresh : All (λ q. p ≢ q) ps) (lt : p < length es) where
  abbrev pub es' : List (Option LogEntry)
  es' = set es p (some item)

  taken : get_or es' p none ≡ some item
  taken = get_or-set_self es p (some item) none lt

  pub entries_at-joined : entries_at es' (ps ++ (p ∷ [])) ≡ entries_at es ps ++ (item ∷ [])
  entries_at-joined =
      entries_at-append es' ps (p ∷ [])
      ∙ ap (λ r. entries_at es' ps ++ before r []) taken
      ∙ ap (λ r. r ++ (item ∷ [])) (entries_at-set es p (some item) ps fresh)

  pub Filled-joined : All (Filled es) ps → All (Filled es') (ps ++ (p ∷ []))
  Filled-joined f = Filled-append es' ps p (Filled-set es p (some item) ps fresh f) (item, taken)

  pub AreIndices-joined :
      (ix : Indices)
      → length ix.0 ≡ length es
      → AreSlots (length ix.0) ps
      → AreIndices es ps ix
      → AreIndices es' (ps ++ (p ∷ [])) (link_entry p item ix)
        × (length (link_entry p item ix).0 ≡ length ix.0)
  AreIndices-joined ix len slots idx =
      link_entry-AreIndices es' p item taken ps ix (rw len lt) fresh slots
        (AreIndices-set es p (some item) ps ix fresh idx)

module _ (item : LogEntry) (h : MemoryLogHub) (v : IsHub h) where
  abbrev behind : ℕ
  behind = (h.head + h.count) % h.capacity % 2 ^ 32

  module _ (room : h.count < h.capacity) where
    behind_eq : behind ≡ (h.head + (0 + h.count)) % h.capacity
    behind_eq =
        mod-eq_of_lt {n = (h.head + h.count) % h.capacity} {m = 2 ^ 32}
          (omega (arith, mod-lt (h.head + h.count) v.some_room, v.small))
        ∙ ap (λ k. (h.head + k) % h.capacity) (omega arith)

    fresh_behind : All (λ q. behind ≢ q) (used h)
    fresh_behind = flipped behind (used h) (
        subst (λ p. All (λ q. q ≢ p) (used h)) (sym behind_eq)
          (All-slots-ne h.capacity h.head 0 h.count (0 + h.count) (omega arith) (omega arith)))

    behind_lt : behind < length h.entries
    behind_lt = rw (behind_eq, v.sized) (mod-lt (h.head + (0 + h.count)) v.some_room)

    more_used : slots h.capacity h.head 0 (h.count + 1) ≡ used h ++ (behind ∷ [])
    more_used =
        ap (slots h.capacity h.head 0) (omega arith)
        ∙ slots-suc h.capacity h.head 0 h.count
        ∙ ap (λ p. used h ++ (p ∷ [])) (sym behind_eq)

    pub add_newest-IsHub :
        IsHub (add_newest item h) × (log (add_newest item h) ≡ log h ++ (item ∷ []))
    unfolding add_newest
    add_newest-IsHub = (
      record {
        some_room = v.some_room;
        small = v.small;
        fits = omega (arith, room);
        head_within = v.head_within;
        sized = length-set h.entries behind _ ∙ v.sized;
        linked = joined.1 ∙ v.linked;
        filled =
            subst (All (Filled (set h.entries behind (some item)))) (sym more_used)
              (Filled-joined h.entries behind item (used h) fresh_behind behind_lt v.filled);
        indexed =
            subst
              (λ ps.
                AreIndices (set h.entries behind (some item)) ps
                  (link_entry behind item (indices h)))
              (sym more_used) joined.0;
      },
      ap (entries_at (set h.entries behind (some item))) more_used
          ∙ entries_at-joined h.entries behind item (used h) fresh_behind behind_lt,
    )
      where
        joined :
            AreIndices
              (set h.entries behind (some item))
              (used h ++ (behind ∷ []))
              (link_entry behind item (indices h))
            × (length (link_entry behind item (indices h)).0 ≡ length h.links)
        joined =
            AreIndices-joined h.entries behind item (used h) fresh_behind behind_lt (indices h)
              (v.linked ∙ sym v.sized) (used-AreSlots h v) v.indexed
