-- ===== src/Hub/Ingest/Log.antt =====
-- What a hub holds: its entries, oldest first, and what every operation keeps.
use mathlib.Core.Path.{ap₂}
use walspool.Base.{
  ℕ, suc, ◌-◌, ◌<◌, ◌≤◌, ◌^◌, ◌≡◌, ◌≢◌, refl, ap, ◌∙◌, List, [], ◌∷◌, ◌++◌, All, length, arith,
  Option, none, some, get_or, set, drop, get_or-set_ne,
}
use walspool.Hub.Types.{LogEntry}
use walspool.Hub.Index.{trace, service}
use walspool.Hub.Ring.{slots, All-slots-lt, slots-IsDistinct, length-slots}
use walspool.Hub.State.{MemoryLogHub}
use walspool.Hub.Ingest.{Indices, indices}
use walspool.Hub.Ingest.Holding.{holding-set}
use walspool.Hub.Ingest.Sides.{AreSlots}
use walspool.Hub.Ingest.Entries.{AreIndices}

abbrev pub used : MemoryLogHub → List ℕ
used h = slots h.capacity h.head 0 h.count

abbrev pub before : Option LogEntry → List LogEntry → List LogEntry
before none es = es
before (some e) es = e ∷ es

-- The entries in a list of slots.
abbrev pub entries_at : List (Option LogEntry) → List ℕ → List LogEntry
entries_at es [] = []
entries_at es (p ∷ ps) = before (get_or es p none) (entries_at es ps)

-- The entries of a hub, oldest first.
abbrev pub log : MemoryLogHub → List LogEntry
log h = entries_at h.entries (used h)

abbrev pub Filled : List (Option LogEntry) → ℕ → Type 0
Filled es p = (e : LogEntry) × (get_or es p none ≡ some e)

pub record IsHub (h : MemoryLogHub) : Type 0 where
  pub some_room : 0 < h.capacity
  pub small : h.capacity < 2 ^ 31
  pub fits : h.count ≤ h.capacity
  pub head_within : h.head < h.capacity
  pub sized : length h.entries ≡ h.capacity
  pub linked : length h.links ≡ h.capacity
  pub filled : All (Filled h.entries) (used h)
  pub indexed : AreIndices h.entries (used h) (indices h)

-- The last `n` of a list.
abbrev pub newest {ℓ} : {A : Type ℓ} → ℕ → List A → List A
newest n xs = drop (length xs - n) xs

module _ (es : List (Option LogEntry)) where
  pub entries_at-append :
      (ps qs : List ℕ) → entries_at es (ps ++ qs) ≡ entries_at es ps ++ entries_at es qs
  entries_at-append [] qs = refl
  entries_at-append (p ∷ ps) qs = ground (arith, entries_at-append ps qs)

  pub length-entries_at : (ps : List ℕ) → All (Filled es) ps → length (entries_at es ps) ≡ length ps
  length-entries_at [] f = refl
  length-entries_at (p ∷ ps) ((e, h), f) = rw h (ap suc (length-entries_at ps f))

  module _ (p : ℕ) (v : Option LogEntry) where
    pub entries_at-set :
        (ps : List ℕ) → All (λ q. p ≢ q) ps → entries_at (set es p v) ps ≡ entries_at es ps
    entries_at-set [] h = refl
    entries_at-set (q ∷ qs) h = ap₂ before (get_or-set_ne es v none h.0) (entries_at-set qs h.1)

    pub Filled-set :
        (ps : List ℕ) → All (λ q. p ≢ q) ps → All (Filled es) ps → All (Filled (set es p v)) ps
    Filled-set [] h f = tt
    Filled-set (q ∷ qs) h ((e, x), f) = ((e, get_or-set_ne es v none h.0 ∙ x), Filled-set qs h.1 f)

    pub AreIndices-set :
        (ps : List ℕ) (ix : Indices)
        → All (λ q. p ≢ q) ps
        → AreIndices es ps ix
        → AreIndices (set es p v) ps ix
    AreIndices-set ps ix h (t, s) = (
      λ k ne. rw (holding-set trace k es p v ps h) (t k ne),
      λ k ne. rw (holding-set service k es p v ps h) (s k ne),
    )

pub Filled-append :
    (es : List (Option LogEntry)) (ps : List ℕ) (p : ℕ)
    → All (Filled es) ps
    → Filled es p
    → All (Filled es) (ps ++ (p ∷ []))
Filled-append es [] p f g = (g, tt)
Filled-append es (q ∷ qs) p (x, f) g = (x, Filled-append es qs p f g)

module _ (h : MemoryLogHub) (v : IsHub h) where
  pub length-log : length (log h) ≡ h.count
  length-log =
      length-entries_at h.entries (used h) v.filled ∙ length-slots h.capacity h.head 0 h.count

  pub used-AreSlots : AreSlots (length h.links) (used h)
  used-AreSlots = rw v.linked (record {
    within = All-slots-lt h.capacity h.head 0 h.count v.some_room;
    distinct = slots-IsDistinct h.capacity h.head 0 h.count v.fits;
    small = v.small;
    few = omega (arith, length-slots h.capacity h.head 0 h.count, v.fits, v.small);
  })
