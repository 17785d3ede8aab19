-- ===== src/Hub/Ingest/Replaces.antt =====
-- `place` in a full hub, where the oldest entry makes room, and `place` as a whole.
use mathlib.Core.Path.{subst, ap₂}
use native.Mathlib.Nat.{mod-eq_of_lt, mod-lt, mod-add-mod, mod-eq-sub-mod}
use walspool.Base.{
  ℕ, suc, ◌+◌, ◌-◌, ◌%◌, ◌<◌, ◌^◌, ◌≡◌, refl, sym, ap, ◌∙◌, List, [], ◌∷◌, ◌++◌, All, length, arith,
  Option, none, some, get_or, set, drop, length-set,
}
use walspool.Hub.Types.{LogEntry}
use walspool.Hub.Ring.{slots, slots-suc, slots_shift}
use walspool.Hub.State.{MemoryLogHub}
use walspool.Hub.Ingest.{Indices, indices, with_indices, unlink_entry, link_entry, replace_oldest}
use walspool.Hub.Ingest.Sides.{AreSlots}
use walspool.Hub.Ingest.Entries.{AreIndices, unlink_entry-AreIndices}
use walspool.Hub.Ingest.Log.{
  used, entries_at, log, Filled, IsHub, entries_at-set, Filled-set, AreIndices-set, used-AreSlots,
  before,
}
use walspool.Hub.Ingest.Keeps.{entries_at-joined, Filled-joined, AreIndices-joined}

module _ (item : LogEntry) (h : MemoryLogHub) (v : IsHub h) (full : h.count ≡ h.capacity) where
  abbrev pub front : ℕ
  front = h.head % 2 ^ 32

  abbrev pub rest : List ℕ
  rest = slots h.capacity h.head 1 (h.count - 1)

  front_eq : front ≡ h.head
  front_eq = mod-eq_of_lt {n = h.head} {m = 2 ^ 32} (omega (arith, v.head_within, v.small))

  count_suc : h.count ≡ suc (h.count - 1)
  count_suc = omega (arith, v.some_room, full)

  unfolded :
      (n : ℕ)
      → slots h.capacity h.head 0 (suc n) ≡ (h.head + 0) % h.capacity ∷ slots h.capacity h.head 1 n
  unfolding slots
  unfolded n = refl

  used_split : used h ≡ front ∷ rest
  used_split =
      ap (slots h.capacity h.head 0) count_suc
      ∙ unfolded (h.count - 1)
      ∙ ap (λ p. p ∷ rest)
          (ap (λ k. k % h.capacity) (omega arith) ∙ mod-eq_of_lt v.head_within ∙ sym front_eq)

  wrapped : ((h.head + 1) % h.capacity + (0 + (h.count - 1))) % h.capacity ≡ h.head
  wrapped =
      mod-add-mod (h.head + 1) h.capacity (0 + (h.count - 1))
      ∙ ap (λ k. k % h.capacity) (omega (arith, v.some_room, full))
      ∙ mod-eq-sub-mod {n = h.head + h.capacity} {m = h.capacity} (omega arith)
      ∙ ap (λ k. k % h.capacity) (omega arith)
      ∙ mod-eq_of_lt v.head_within

  now_used : slots h.capacity ((h.head + 1) % h.capacity) 0 h.count ≡ rest ++ (front ∷ [])
  now_used =
      ap (slots h.capacity ((h.head + 1) % h.capacity) 0) count_suc
      ∙ slots-suc h.capacity ((h.head + 1) % h.capacity) 0 (h.count - 1)
      ∙ ap₂ (λ ps p. ps ++ (p ∷ [])) (slots_shift h.capacity h.head 0 (h.count - 1))
          (wrapped ∙ sym front_eq)

  slots_split : AreSlots (length h.links) (front ∷ rest)
  slots_split = subst (AreSlots (length h.links)) used_split (used-AreSlots h v)

  pub Filled-split : All (Filled h.entries) (front ∷ rest)
  Filled-split = subst (All (Filled h.entries)) used_split v.filled

  abbrev pub old : LogEntry
  old = Filled-split.0.0

  at_front : get_or h.entries front none ≡ some old
  at_front = Filled-split.0.1

  abbrev pub emptied : List (Option LogEntry)
  emptied = set h.entries front none

  abbrev pub freed : Indices
  freed = unlink_entry front (some old) (indices h)

  freed-AreIndices : AreIndices h.entries rest freed × (length freed.0 ≡ length h.links)
  freed-AreIndices =
      unlink_entry-AreIndices h.entries front old at_front rest (indices h) slots_split
        (subst (λ ps. AreIndices h.entries ps (indices h)) used_split v.indexed)

  rest-AreSlots : AreSlots (length freed.0) rest
  rest-AreSlots = rw (freed-AreIndices.1) (record {
    within = slots_split.within.1;
    distinct = slots_split.distinct.1;
    small = slots_split.small;
    few = omega (arith, slots_split.few);
  })

  front_lt : front < length emptied
  front_lt = omega (arith, length-set h.entries front none, v.sized, v.head_within, front_eq)

  joined :
      AreIndices
        (set emptied front (some item))
        (rest ++ (front ∷ []))
        (link_entry front item freed)
      × (length (link_entry front item freed).0 ≡ length freed.0)
  joined =
      AreIndices-joined emptied front item rest slots_split.distinct.0 front_lt freed
        (freed-AreIndices.1 ∙ v.linked ∙ sym (length-set h.entries front none ∙ v.sized))
        rest-AreSlots
        (AreIndices-set h.entries front none rest freed slots_split.distinct.0 freed-AreIndices.0)

  -- The hub that results, with the oldest entry named.
  abbrev pub replaced : MemoryLogHub
  replaced = record (with_indices (link_entry front item freed) h) {
    entries = set emptied front (some item);
    head = (h.head + 1) % h.capacity;
  }

  pub replace_oldest_lem : replace_oldest item h ≡ replaced
  unfolding replace_oldest
  replace_oldest_lem =
      ap
        (λ o. record (with_indices (link_entry front item (unlink_entry front o (indices h))) h) {
          entries = set emptied front (some item);
          head = (h.head + 1) % h.capacity;
        })
        at_front

  pub replaced-IsHub : IsHub replaced
  replaced-IsHub = record {
    some_room = v.some_room;
    small = v.small;
    fits = v.fits;
    head_within = mod-lt (h.head + 1) v.some_room;
    sized = length-set emptied front (some item) ∙ length-set h.entries front none ∙ v.sized;
    linked = joined.1 ∙ freed-AreIndices.1 ∙ v.linked;
    filled = subst (All (Filled (set emptied front (some item)))) (sym now_used) (
        Filled-joined emptied front item rest slots_split.distinct.0 front_lt
          (Filled-set h.entries front none rest slots_split.distinct.0 Filled-split.1));
    indexed =
        subst (λ ps. AreIndices (set emptied front (some item)) ps (link_entry front item freed))
          (sym now_used) joined.0;
  }

  log-split : log h ≡ old ∷ entries_at h.entries rest
  log-split =
      ap (entries_at h.entries) used_split ∙ ap (λ o. before o (entries_at h.entries rest)) at_front

  pub log-replaced : log replaced ≡ drop 1 (log h) ++ (item ∷ [])
  log-replaced =
      ap (entries_at (set emptied front (some item))) now_used
      ∙ entries_at-joined emptied front item rest slots_split.distinct.0 front_lt
      ∙ ap (λ es. es ++ (item ∷ []))
          (entries_at-set h.entries front none rest slots_split.distinct.0)
      ∙ ap (λ es. drop 1 es ++ (item ∷ [])) (sym log-split)
