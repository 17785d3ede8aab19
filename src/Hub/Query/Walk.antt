-- ===== src/Hub/Query/Walk.antt =====
-- The loop along a key's chain gives the newest matching entries of the chain.
use mathlib.Core.List.{reverse_aux, append_assoc, append-nil}
use walspool.Base.{
  ℕ, zero, suc, ◌-◌, ◌<◌, ◌≡◌, ◌≢◌, refl, sym, ap, ◌∙◌, inl, inr, List, [], ◌∷◌, ◌++◌, All, arith,
  length, length-append, take, Bool, true, false, leb, if◌then◌else◌, Bool-cases, Option, none,
  some, get_or,
}
use walspool.Hub.Types.{LogEntry}
use walspool.Hub.Index.{Side, no_link, SlotLinks, prev_at}
use walspool.Hub.Index.Chain.{IsChain, first, last_or}
use walspool.Hub.State.{MemoryLogHub}
use walspool.Hub.Query.{collect, walk}
use walspool.Hub.Ingest.Log.{entries_at, before}

-- The entries that pass a test.
abbrev pub filter : (LogEntry → Bool) → List LogEntry → List LogEntry
filter test [] = []
filter test (e ∷ es) = if test e then e ∷ filter test es else filter test es

-- Slots each of which points back at the next of the list.
abbrev pub IsBack : Side → List SlotLinks → List ℕ → Type 0
IsBack sd ls [] = Unit {0}
IsBack sd ls (q ∷ qs) = (q ≢ no_link) × (prev_at sd ls q ≡ first qs) × IsBack sd ls qs

pub IsBack-reverse :
    (sd : Side) (ls : List SlotLinks) (ps qs : List ℕ)
    → All (λ p. p ≢ no_link) ps
    → IsChain sd ls (first qs) ps
    → IsBack sd ls qs
    → IsBack sd ls (reverse_aux ps qs)
IsBack-reverse sd ls [] qs n c b = b
IsBack-reverse sd ls (p ∷ ps) qs n (x, y, c) b = IsBack-reverse sd ls ps (p ∷ qs) n.1 c (n.0, x, b)

pub first-reverse : (p : ℕ) (ps qs : List ℕ) → first (reverse_aux ps (p ∷ qs)) ≡ last_or p ps
first-reverse p [] qs = refl
first-reverse p (r ∷ ps) qs = first-reverse r ps (p ∷ qs)

-- What a loop has matched when it has begun with `matched` and met `es`.
abbrev pub after : (LogEntry → Bool) → ℕ → List LogEntry → List LogEntry → List LogEntry
after test limit matched es = matched ++ take (limit - length matched) (filter test es)

module _ (test : LogEntry → Bool) (limit : ℕ) where
  pub after_enough :
      (matched es : List LogEntry)
      → leb limit (length matched) ≡ true
      → after test limit matched es ≡ matched
  after_enough matched es h =
      let none_left : limit - length matched ≡ 0 = ground arith in
      ap (λ n. matched ++ take n (filter test es)) none_left ∙ append-nil matched

  pub after_end : (matched : List LogEntry) → after test limit matched [] ≡ matched
  after_end matched = elim_nil (limit - length matched) ∙ append-nil matched
    where
      elim_nil : (n : ℕ) → matched ++ take n [] ≡ matched ++ []
      elim_nil zero = refl
      elim_nil (suc n) = refl

  pub after-collect :
      (o : Option LogEntry) (matched es : List LogEntry)
      → leb limit (length matched) ≡ false
      → after test limit (collect test o matched) es ≡ after test limit matched (before o es)
  unfolding collect
  after-collect none matched es h = refl
  after-collect (some e) matched es h = elim (Bool-cases (test e)) [
    | inl t ↦
        let more : limit - length matched ≡ suc (limit - length (matched ++ (e ∷ []))) =
          ground (arith, length-append matched (e ∷ [])) in
        rw (t, more) (append_assoc matched (e ∷ []) _)
    | inr t ↦ rw t refl
  ]

module _ (sd : Side) (test : LogEntry → Bool) (limit : ℕ) (h : MemoryLogHub) where
  walk_end :
      (f : ℕ) (matched : List LogEntry)
      → walk sd test limit h (suc f) no_link matched ≡ some matched
  unfolding walk
  walk_end f matched = refl

  walk_enough :
      (f curr : ℕ) (matched : List LogEntry)
      → leb limit (length matched) ≡ true
      → walk sd test limit h (suc f) curr matched ≡ some matched
  unfolding walk
  walk_enough f curr matched e = ground arith

  walk_on :
      (f curr : ℕ) (matched : List LogEntry)
      → curr ≢ no_link
      → leb limit (length matched) ≡ false
      → walk sd test limit h (suc f) curr matched
        ≡ walk sd test limit h f
            (prev_at sd h.links curr)
            (collect test (get_or h.entries curr none) matched)
  unfolding walk
  walk_on f curr matched n e = ground arith

  -- Enough fuel is one more than there are slots.
  pub walk-after :
      (f : ℕ) (qs : List ℕ) (matched : List LogEntry)
      → length qs < f
      → IsBack sd h.links qs
      → walk sd test limit h f (first qs) matched
        ≡ some (after test limit matched (entries_at h.entries qs))
  walk-after zero qs matched lt b = absurd (omega arith)
  walk-after (suc f) [] matched lt b =
      walk_end f matched ∙ ap some (sym (after_end test limit matched))
  walk-after (suc f) (q ∷ qs) matched lt (n, e, b) =
      elim (Bool-cases (leb limit (length matched))) [
        | inl x ↦ walk_enough f q matched x ∙ ap some (sym (after_enough test limit matched _ x))
        | inr x ↦
            walk_on f q matched n x
            ∙ ap (λ c. walk sd test limit h f c (collect test (get_or h.entries q none) matched)) e
            ∙ walk-after f qs (collect test (get_or h.entries q none) matched) (omega arith) b
            ∙ ap some (
                after-collect test limit (get_or h.entries q none) matched (entries_at h.entries qs)
                  x)
      ]
