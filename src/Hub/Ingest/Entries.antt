-- ===== src/Hub/Ingest/Entries.antt =====
-- `unlink_entry` and `link_entry` on both indices.
use mathlib.Core.Path.{subst}
use walspool.Base.{
  ℕ, ◌<◌, ◌≡◌, ◌≢◌, ◌⊎◌, inl, inr, refl, sym, ap, ◌∙◌, List, [], ◌∷◌, ◌++◌, All, length, true,
  false, Option, none, some, Bytes, get_or, str_eq, str_eq_iff, Bool-cases,
}
use walspool.Hub.Types.{LogEntry, is_empty}
use walspool.Hub.Index.{Side, trace, service, SlotLinks, Spans, link, unlink}
use walspool.Hub.Index.Chain.{other}
use walspool.Hub.Index.Writes.{Same}
use walspool.Hub.Index.Linked.{IsIndexed}
use walspool.Hub.Index.Update.{link-other, length-link}
use walspool.Hub.Ingest.{
  key_of, Indices, spans_of, with_side, unlink_side, link_side, unlink_entry, link_entry,
}
use walspool.Hub.Ingest.Holding.{holding}
use walspool.Hub.Ingest.Sides.{
  IsIndexOf, AreSlots, IsIndexed-Same, unlink_key, link_key, skipped, unlink_facts, holding_snoc,
}

key_cases : (k : Bytes) → (k ≡ []) ⊎ ((x : ℕ) × (xs : Bytes) × (k ≡ x ∷ xs))
key_cases [] = inl refl
key_cases (x ∷ xs) = inr (x, xs, refl)

links-with_side :
    (sd : Side) (f : List SlotLinks × Spans → List SlotLinks × Spans) (ix : Indices)
    → (with_side sd f ix).0 ≡ (f (ix.0, spans_of sd ix)).0
links-with_side trace f ix = refl
links-with_side service f ix = refl

side-with_side :
    (sd : Side) (f : List SlotLinks × Spans → List SlotLinks × Spans) (ix : Indices)
    → ((with_side sd f ix).0, spans_of sd (with_side sd f ix)) ≡ f (ix.0, spans_of sd ix)
side-with_side trace f ix = refl
side-with_side service f ix = refl

spans-with_side-other :
    (sd : Side) (f : List SlotLinks × Spans → List SlotLinks × Spans) (ix : Indices)
    → spans_of (other sd) (with_side sd f ix) ≡ spans_of (other sd) ix
unfolding other
spans-with_side-other trace f ix = refl
spans-with_side-other service f ix = refl

-- The index of `sd` is that of the slots `ps`, that of the other side that of the slots `qs`.
abbrev Both : Side → List (Option LogEntry) → List ℕ → List ℕ → ℕ → Indices → Type 0
Both sd es ps qs n ix = IsIndexOf sd es ps ix × IsIndexOf (other sd) es qs ix × (length ix.0 ≡ n)

module _ (sd : Side) (es : List (Option LogEntry)) (ps qs rs : List ℕ) (ix : Indices)
    (f : List SlotLinks × Spans → List SlotLinks × Spans) where
  Both-with_side :
      ((k : Bytes)
        → is_empty k ≡ false
        → IsIndexed sd (f (ix.0, spans_of sd ix)) k (holding sd k es ps))
      → ((r : ℕ) → Same (other sd) ix.0 (f (ix.0, spans_of sd ix)).0 r)
      → length (f (ix.0, spans_of sd ix)).0 ≡ length ix.0
      → IsIndexOf (other sd) es qs ix
      → Both sd es ps qs (length ix.0) (with_side sd f ix)
  Both-with_side own same len idx = (
    λ k ne.
        subst (λ r. IsIndexed sd r k (holding sd k es ps)) (sym (side-with_side sd f ix))
          (own k ne),
    λ k ne.
        subst (λ m. IsIndexed (other sd) ((with_side sd f ix).0, m) k (holding (other sd) k es qs))
          (sym (spans-with_side-other sd f ix))
          (subst
            (λ ls. IsIndexed (other sd) (ls, spans_of (other sd) ix) k (holding (other sd) k es qs))
            (sym (links-with_side sd f ix))
            (IsIndexed-Same (other sd) ix.0 _ (spans_of (other sd) ix) k
              (holding (other sd) k es qs) same (idx k ne))),
    ap length (links-with_side sd f ix) ∙ len,
  )

module _ (sd : Side) (es : List (Option LogEntry)) (p : ℕ) (e : LogEntry)
    (at_p : get_or es p none ≡ some e) (ps qs : List ℕ) (ix : Indices) where
  unlink_side_empty : key_of sd e ≡ [] → unlink_side sd p e ix ≡ ix
  unfolding unlink_side
  unlink_side_empty h = rw h

  link_side_empty : key_of sd e ≡ [] → link_side sd p e ix ≡ ix
  unfolding link_side
  link_side_empty h = rw h

  unlink_side_key :
      (x : ℕ) (xs : Bytes)
      → key_of sd e ≡ x ∷ xs
      → unlink_side sd p e ix ≡ with_side sd (unlink sd p (x ∷ xs)) ix
  unfolding unlink_side
  unlink_side_key x xs h = rw h

  link_side_key :
      (x : ℕ) (xs : Bytes)
      → key_of sd e ≡ x ∷ xs
      → link_side sd p e ix ≡ with_side sd (link sd p (x ∷ xs)) ix
  unfolding link_side
  link_side_key x xs h = rw h

  unkeyed : (k : Bytes) → is_empty k ≡ false → key_of sd e ≡ [] → str_eq k (key_of sd e) ≡ false
  unkeyed k ne h = elim (Bool-cases (str_eq k (key_of sd e))) [
    | inl t ↦ let u : is_empty k ≡ true = ap is_empty ((str_eq_iff k (key_of sd e)).0 t ∙ h) in cc
    | inr f ↦ f
  ]

  unlink_side-Both :
      AreSlots (length ix.0) (p ∷ ps)
      → IsIndexOf sd es (p ∷ ps) ix
      → IsIndexOf (other sd) es qs ix
      → Both sd es ps qs (length ix.0) (unlink_side sd p e ix)
  unlink_side-Both slots idx oth = elim (key_cases (key_of sd e)) [
    | inl h ↦ subst (Both sd es ps qs (length ix.0)) (sym (unlink_side_empty h)) (
      λ k ne.
          subst (IsIndexed sd (ix.0, spans_of sd ix) k)
            (skipped sd es p e at_p k ps (unkeyed k ne h)) (idx k ne),
      oth,
      refl,
    )
    | inr (x, xs, h) ↦ subst (Both sd es ps qs (length ix.0)) (sym (unlink_side_key x xs h)) (
        Both-with_side sd es ps qs [] ix (unlink sd p (x ∷ xs))
          (unlink_key sd es p e at_p x xs h ps ix.0 (spans_of sd ix) slots idx)
          (λ r. (unlink_facts sd es p e at_p x xs h ps ix.0 (spans_of sd ix) r slots idx).0)
          (unlink_facts sd es p e at_p x xs h ps ix.0 (spans_of sd ix) 0 slots idx).1 oth)
  ]

  link_side-Both :
      p < length ix.0
      → All (λ q. p ≢ q) ps
      → AreSlots (length ix.0) ps
      → IsIndexOf sd es ps ix
      → IsIndexOf (other sd) es qs ix
      → Both sd es (ps ++ (p ∷ [])) qs (length ix.0) (link_side sd p e ix)
  link_side-Both lt new slots idx oth = elim (key_cases (key_of sd e)) [
    | inl h ↦ subst (Both sd es (ps ++ (p ∷ [])) qs (length ix.0)) (sym (link_side_empty h)) (
      λ k ne.
          subst (IsIndexed sd (ix.0, spans_of sd ix) k)
            (sym (holding_snoc sd es p e at_p k ps (unkeyed k ne h))) (idx k ne),
      oth,
      refl,
    )
    | inr (x, xs, h) ↦
        subst (Both sd es (ps ++ (p ∷ [])) qs (length ix.0)) (sym (link_side_key x xs h)) (
          Both-with_side sd es (ps ++ (p ∷ [])) qs [] ix (link sd p (x ∷ xs))
            (link_key sd es p e at_p x xs h ps ix.0 (spans_of sd ix) lt new slots idx)
            (λ r.
              link-other sd p x xs ix.0 (spans_of sd ix) (holding sd (x ∷ xs) es ps) r
                (idx (x ∷ xs) refl))
            (length-link sd p x xs ix.0 (spans_of sd ix) (holding sd (x ∷ xs) es ps)
              (idx (x ∷ xs) refl))
            oth)
  ]

-- Both indices are those of the slots `ps`.
abbrev pub AreIndices : List (Option LogEntry) → List ℕ → Indices → Type 0
AreIndices es ps ix = IsIndexOf trace es ps ix × IsIndexOf service es ps ix

module _ (es : List (Option LogEntry)) (p : ℕ) (e : LogEntry) (at_p : get_or es p none ≡ some e)
    (ps : List ℕ) (ix : Indices) where
  -- The entry in the oldest slot leaves both.
  pub unlink_entry-AreIndices :
      AreSlots (length ix.0) (p ∷ ps)
      → AreIndices es (p ∷ ps) ix
      → AreIndices es ps (unlink_entry p (some e) ix)
        × (length (unlink_entry p (some e) ix).0 ≡ length ix.0)
  unfolding unlink_entry other
  unlink_entry-AreIndices slots (t, s) =
      let ix' = unlink_side trace p e ix in
      let (t', s', n') = unlink_side-Both trace es p e at_p ps (p ∷ ps) ix slots t s in
      let (s'', t'', n'') =
        unlink_side-Both service es p e at_p ps ps ix'
          (subst (λ n. AreSlots n (p ∷ ps)) (sym n') slots) s' t' in
      ((t'', s''), n'' ∙ n')

  -- An entry joins both, as the newest.
  pub link_entry-AreIndices :
      p < length ix.0
      → All (λ q. p ≢ q) ps
      → AreSlots (length ix.0) ps
      → AreIndices es ps ix
      → AreIndices es (ps ++ (p ∷ [])) (link_entry p e ix)
        × (length (link_entry p e ix).0 ≡ length ix.0)
  unfolding link_entry other
  link_entry-AreIndices lt new slots (t, s) =
      let ix' = link_side trace p e ix in
      let (t', s', n') = link_side-Both trace es p e at_p ps ps ix lt new slots t s in
      let (s'', t'', n'') =
        link_side-Both service es p e at_p ps (ps ++ (p ∷ [])) ix' (subst (λ n. p < n) (sym n') lt)
          new (subst (λ n. AreSlots n ps) (sym n') slots) s' t' in
      ((t'', s''), n'' ∙ n')
