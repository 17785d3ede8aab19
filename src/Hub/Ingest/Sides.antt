-- ===== src/Hub/Ingest/Sides.antt =====
-- `unlink_side` and `link_side` on the index of their side and on that of the other.
use mathlib.Core.Path.{subst}
use mathlib.Core.List.{append-nil}
use walspool.Base.{
  ℕ, ◌<◌, ◌^◌, ◌≡◌, ◌≢◌, inl, inr, refl, sym, ap, ◌∙◌, List, [], ◌∷◌, ◌++◌, All, length, arith,
  true, false, Option, none, some, Bytes, get_or, str_eq, str_eq_iff, Bool-cases,
}
use walspool.Hub.Types.{LogEntry, is_empty}
use walspool.Hub.Index.{Side, no_link, SlotLinks, Spans, link, unlink}
use walspool.Hub.Index.Chain.{other}
use walspool.Hub.Index.Writes.{Same, IsChain-Same}
use walspool.Hub.Index.Linked.{IsDistinct, IsIndexed, All-everywhere, All-Same}
use walspool.Hub.Index.Update.{link-IsIndexed, link-IsIndexed_ne}
use walspool.Hub.Index.Removal.{unlink-IsIndexed, unlink-IsIndexed_ne, unlink-other, length-unlink}
use walspool.Hub.Ingest.{key_of, Indices, spans_of}
use walspool.Hub.Ingest.Holding.{
  holds, holding, holding-append, All-holding, holding-IsDistinct, length-holding, All-holds,
}

-- The index of a side is that of the entries in the slots `ps`, oldest first.
abbrev pub IsIndexOf : Side → List (Option LogEntry) → List ℕ → Indices → Type 0
IsIndexOf sd es ps ix =
    (k : Bytes) → is_empty k ≡ false → IsIndexed sd (ix.0, spans_of sd ix) k (holding sd k es ps)

-- Slots of a table of fewer than 2 ^ 31, none twice.
pub record AreSlots (n : ℕ) (ps : List ℕ) : Type 0 where
  pub within : All (λ p. p < n) ps
  pub distinct : IsDistinct ps
  pub small : n < 2 ^ 31
  pub few : length ps < 2 ^ 31

-- Slots with different keys are different.
ne_of_holds :
    (sd : Side) (es : List (Option LogEntry)) (j k : Bytes) (q r : ℕ)
    → str_eq j k ≡ false
    → holds sd j (get_or es q none) ≡ true
    → holds sd k (get_or es r none) ≡ true
    → q ≢ r
ne_of_holds sd es j k q r d a b e =
    unequal (get_or es r none) (subst (λ s. holds sd j (get_or es s none) ≡ true) e a) b
  where
    unequal : (o : Option LogEntry) → holds sd j o ≡ true → holds sd k o ≡ true → ⊥
    unequal none a b = cc
    unequal (some x) a b =
        let e : j ≡ k = (str_eq_iff j (key_of sd x)).0 a ∙ sym ((str_eq_iff k (key_of sd x)).0 b) in
        let t : str_eq j k ≡ true = (str_eq_iff j k).1 e in cc

module _ (sd : Side) (es : List (Option LogEntry)) where
  apart :
      (j k : Bytes) (ps qs : List ℕ)
      → str_eq j k ≡ false
      → All (λ r. All (λ q. q ≢ r) (holding sd j es ps)) (holding sd k es qs)
  apart j k ps qs d =
      All-Same (λ r. holds sd k (get_or es r none) ≡ true) (λ r. Unit {0}) _
        (λ r b _.
          All-Same (λ q. holds sd j (get_or es q none) ≡ true) (λ q. Unit {0}) _
            (λ q a _. ne_of_holds sd es j k q r d a b) (holding sd j es ps) (All-holds sd j es ps)
            (All-everywhere _ (λ q. tt) _))
        (holding sd k es qs) (All-holds sd k es qs) (All-everywhere _ (λ q. tt) _)

str_eq_sym_false : (a b : Bytes) → str_eq a b ≡ false → str_eq b a ≡ false
str_eq_sym_false a b h = elim (Bool-cases (str_eq b a)) [
  | inl e ↦ let t : str_eq a b ≡ true = (str_eq_iff a b).1 (sym ((str_eq_iff b a).0 e)) in cc
  | inr e ↦ e
]

pub IsIndexed-Same :
    (sd : Side) (ls ls' : List SlotLinks) (m : Spans) (k : Bytes) (qs : List ℕ)
    → ((r : ℕ) → Same sd ls ls' r)
    → IsIndexed sd (ls, m) k qs
    → IsIndexed sd (ls', m) k qs
IsIndexed-Same sd ls ls' m k [] f h = h
IsIndexed-Same sd ls ls' m k (q ∷ qs) f (e, c) =
    (e, IsChain-Same sd ls ls' no_link (q ∷ qs) (All-everywhere _ f (q ∷ qs)) c)

pub nothing_held : (sd : Side) (es : List (Option LogEntry)) (k : Bytes) → holding sd k es [] ≡ []
unfolding holding
nothing_held sd es k = refl

-- A slot `p` that holds the entry `e`.
module _ (sd : Side) (es : List (Option LogEntry)) (p : ℕ) (e : LogEntry)
    (at_p : get_or es p none ≡ some e) where
  pub held :
      (k : Bytes) (ps : List ℕ)
      → str_eq k (key_of sd e) ≡ true
      → holding sd k es (p ∷ ps) ≡ p ∷ holding sd k es ps
  unfolding holding
  held k ps h = rw (at_p, h)

  pub skipped :
      (k : Bytes) (ps : List ℕ)
      → str_eq k (key_of sd e) ≡ false
      → holding sd k es (p ∷ ps) ≡ holding sd k es ps
  unfolding holding
  skipped k ps h = rw (at_p, h)

  module _ (x : ℕ) (xs : Bytes) (keyed : key_of sd e ≡ x ∷ xs) (ps : List ℕ) (ls : List SlotLinks)
      (m : Spans) where
    own : str_eq (x ∷ xs) (key_of sd e) ≡ true
    own = (str_eq_iff _ _).1 (sym keyed)

    pub unlink_key :
        AreSlots (length ls) (p ∷ ps)
        → ((k : Bytes) → is_empty k ≡ false → IsIndexed sd (ls, m) k (holding sd k es (p ∷ ps)))
        → (k : Bytes) → is_empty k ≡ false
        → IsIndexed sd (unlink sd p (x ∷ xs) (ls, m)) k (holding sd k es ps)
    unlink_key slots idx k ne = elim (Bool-cases (str_eq k (key_of sd e))) [
      | inl h ↦
          subst (λ j. IsIndexed sd (unlink sd p (x ∷ xs) (ls, m)) j (holding sd j es ps))
            (sym ((str_eq_iff k (key_of sd e)).0 h ∙ keyed))
            (unlink-IsIndexed sd p x xs ls m (holding sd (x ∷ xs) es ps) inside apart_p slots.small
              short mine)
      | inr h ↦
          unlink-IsIndexed_ne sd p x xs ls m (holding sd (x ∷ xs) es ps) k (holding sd k es ps)
            (str_eq_sym_false k (x ∷ xs) (subst (λ j. str_eq k j ≡ false) keyed h)) inside apart_p
            slots.small short
            (subst (λ qs. All (λ r. All (λ q. q ≢ r) qs) (holding sd k es ps))
              (held (x ∷ xs) ps own)
              (apart sd es (x ∷ xs) k (p ∷ ps) ps
                (str_eq_sym_false k (x ∷ xs) (subst (λ j. str_eq k j ≡ false) keyed h))))
            mine (subst (IsIndexed sd (ls, m) k) (skipped k ps h) (idx k ne))
    ]
      where
        inside : All (λ q. q < length ls) (holding sd (x ∷ xs) es ps)
        inside = All-holding sd (x ∷ xs) es _ ps slots.within.1

        apart_p : IsDistinct (p ∷ holding sd (x ∷ xs) es ps)
        apart_p = (
          All-holding sd (x ∷ xs) es _ ps slots.distinct.0,
          holding-IsDistinct sd (x ∷ xs) es ps slots.distinct.1,
        )

        short : length (holding sd (x ∷ xs) es ps) < 2 ^ 31
        short = omega (arith, length-holding sd (x ∷ xs) es ps, slots.few)

        mine : IsIndexed sd (ls, m) (x ∷ xs) (p ∷ holding sd (x ∷ xs) es ps)
        mine = subst (IsIndexed sd (ls, m) (x ∷ xs)) (held (x ∷ xs) ps own) (idx (x ∷ xs) refl)

    pub unlink_facts :
        (r : ℕ)
        → AreSlots (length ls) (p ∷ ps)
        → ((k : Bytes) → is_empty k ≡ false → IsIndexed sd (ls, m) k (holding sd k es (p ∷ ps)))
        → Same (other sd) ls (unlink sd p (x ∷ xs) (ls, m)).0 r
          × (length (unlink sd p (x ∷ xs) (ls, m)).0 ≡ length ls)
    unlink_facts r slots idx = (
      unlink-other sd p x xs ls m (holding sd (x ∷ xs) es ps) r inside apart_p slots.small short
          mine,
      length-unlink sd p x xs ls m (holding sd (x ∷ xs) es ps) inside apart_p slots.small short
          mine,
    )
      where
        inside : All (λ q. q < length ls) (holding sd (x ∷ xs) es ps)
        inside = All-holding sd (x ∷ xs) es _ ps slots.within.1

        apart_p : IsDistinct (p ∷ holding sd (x ∷ xs) es ps)
        apart_p = (
          All-holding sd (x ∷ xs) es _ ps slots.distinct.0,
          holding-IsDistinct sd (x ∷ xs) es ps slots.distinct.1,
        )

        short : length (holding sd (x ∷ xs) es ps) < 2 ^ 31
        short = omega (arith, length-holding sd (x ∷ xs) es ps, slots.few)

        mine : IsIndexed sd (ls, m) (x ∷ xs) (p ∷ holding sd (x ∷ xs) es ps)
        mine = subst (IsIndexed sd (ls, m) (x ∷ xs)) (held (x ∷ xs) ps own) (idx (x ∷ xs) refl)

    pub link_key :
        p < length ls
        → All (λ q. p ≢ q) ps
        → AreSlots (length ls) ps
        → ((k : Bytes) → is_empty k ≡ false → IsIndexed sd (ls, m) k (holding sd k es ps))
        → (k : Bytes) → is_empty k ≡ false
        → IsIndexed sd (link sd p (x ∷ xs) (ls, m)) k (holding sd k es (ps ++ (p ∷ [])))
    link_key lt new slots idx k ne = elim (Bool-cases (str_eq k (key_of sd e))) [
      | inl h ↦
          subst
            (λ j. IsIndexed sd (link sd p (x ∷ xs) (ls, m)) j (holding sd j es (ps ++ (p ∷ []))))
            (sym ((str_eq_iff k (key_of sd e)).0 h ∙ keyed))
            (subst (IsIndexed sd (link sd p (x ∷ xs) (ls, m)) (x ∷ xs))
              (sym (
                holding-append sd (x ∷ xs) es ps (p ∷ [])
                ∙ ap (◌++◌ (holding sd (x ∷ xs) es ps))
                    (held (x ∷ xs) [] own ∙ ap (◌∷◌ p) (nothing (x ∷ xs)))))
              (link-IsIndexed sd p x xs ls m (holding sd (x ∷ xs) es ps) lt
                (All-holding sd (x ∷ xs) es _ ps slots.within) (All-holding sd (x ∷ xs) es _ ps new)
                (holding-IsDistinct sd (x ∷ xs) es ps slots.distinct)
                (omega (arith, length-holding sd (x ∷ xs) es ps, slots.few)) (idx (x ∷ xs) refl)))
      | inr h ↦
          subst (IsIndexed sd (link sd p (x ∷ xs) (ls, m)) k)
            (sym (
              holding-append sd k es ps (p ∷ [])
              ∙ ap (◌++◌ (holding sd k es ps)) (skipped k [] h ∙ nothing k)
              ∙ append-nil _))
            (link-IsIndexed_ne sd p x xs ls m (holding sd (x ∷ xs) es ps) k (holding sd k es ps)
              (str_eq_sym_false k (x ∷ xs) (subst (λ j. str_eq k j ≡ false) keyed h))
              (All-holding sd k es _ ps new)
              (apart sd es (x ∷ xs) k ps ps
                (str_eq_sym_false k (x ∷ xs) (subst (λ j. str_eq k j ≡ false) keyed h)))
              (idx (x ∷ xs) refl) (idx k ne))
    ]
      where
        nothing : (j : Bytes) → holding sd j es [] ≡ []
        nothing j = nothing_held sd es j

  -- Slots after the change: the other side reads the same, and their number stays.
  pub holding_snoc :
      (k : Bytes) (ps : List ℕ)
      → str_eq k (key_of sd e) ≡ false
      → holding sd k es (ps ++ (p ∷ [])) ≡ holding sd k es ps
  holding_snoc k ps h =
      holding-append sd k es ps (p ∷ [])
      ∙ ap (◌++◌ (holding sd k es ps)) (skipped k [] h ∙ nothing_held sd es k)
      ∙ append-nil _
