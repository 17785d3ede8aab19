-- ===== src/Storage/Segments.antt =====
-- storage_file.go: the entries of the segment that the index starts with.
use walspool.Base.{
  ℕ, zero, suc, ◌+◌, ◌<◌, ◌≤◌, ◌≡◌, ◌≢◌, refl, sym, ◌∙◌, inl, inr, false, List, [], ◌∷◌, length,
  drop, take, All, arith, Bool-cases, ◌==◌, ==_iff, if◌then◌else◌,
}
use walspool.Storage.{OffsetPos}
use walspool.Storage.Commits.{behind_segment, last_in_segment}
use walspool.Storage.Index.{Counted, InPlace, Before, Ordered, All-map}

-- How many entries of the segment the index starts with.
abbrev pub skipped : ℕ → List OffsetPos → ℕ
skipped base [] = 0
skipped base (e ∷ es) = if e.seg_base == base then suc (skipped base es) else 0

module _ (base : ℕ) where
  pub behind_segment-drop :
      (es : List OffsetPos) → behind_segment base es ≡ drop (skipped base es) es
  unfolding behind_segment
  behind_segment-drop [] = refl
  behind_segment-drop (e ∷ es) = elim (Bool-cases (e.seg_base == base)) [
    | inl h ↦ rw h (behind_segment-drop es)
    | inr h ↦ rw h refl
  ]

  -- They are the entries of that segment.
  pub skipped_there :
      (es : List OffsetPos) → All (λ e. e.seg_base ≡ base) (take (skipped base es) es)
  skipped_there [] = tt
  skipped_there (e ∷ es) = elim (Bool-cases (e.seg_base == base)) [
    | inl h ↦ rw h ((==_iff _ _).0 h, skipped_there es)
    | inr h ↦ rw h tt
  ]

  pub skipped-le : (es : List OffsetPos) → skipped base es ≤ length es
  skipped-le [] = omega arith
  skipped-le (e ∷ es) = ground (arith, skipped-le es)

  pub last_at :
      (b : ℕ) (es : List OffsetPos)
      → Counted (suc b) es
      → last_in_segment base b es ≡ b + skipped base es
  unfolding last_in_segment
  last_at b [] c = omega arith
  last_at b (e ∷ es) (c, cs) = elim (Bool-cases (e.seg_base == base)) [
    | inl h ↦ rw (h, c) (last_at (suc b) es cs ∙ omega arith)
    | inr h ↦ rw h (omega arith)
  ]

  -- The segment ends before the active one starts.
  pub last_before :
      (active limit b : ℕ) (es : List OffsetPos)
      → base ≢ active
      → b < active
      → All (InPlace active limit) es
      → last_in_segment base b es < active
  unfolding last_in_segment
  last_before active limit b [] ne lt p = lt
  last_before active limit b (e ∷ es) ne lt (p, ps) = elim (Bool-cases (e.seg_base == base)) [
    | inl h ↦ rw h (last_before active limit e.offset es ne (before p ((==_iff _ _).0 h)) ps)
    | inr h ↦ rw h lt
  ]
    where
      before : InPlace active limit e → e.seg_base ≡ base → e.offset < active
      before (inl (here, inside, low)) q = absurd (ne (sym q ∙ here))
      before (inr (earlier, low)) q = low

-- The segments behind are later ones.
pub behind_later :
    (e : OffsetPos) (es : List OffsetPos)
    → All (Before e) es
    → Ordered es
    → All (λ x. e.seg_base < x.seg_base) (behind_segment e.seg_base es)
unfolding behind_segment
behind_later e [] b o = tt
behind_later e (x ∷ xs) (b, bs) (h, o) = elim (Bool-cases (x.seg_base == e.seg_base)) [
  | inl q ↦ rw q (behind_later e xs bs o)
  | inr q ↦ rw q (after q b, All-map _ _ xs (λ y c. follows q b y c) h)
]
  where
    after : (x.seg_base == e.seg_base) ≡ false → Before e x → e.seg_base < x.seg_base
    after q (inl l) = l
    after q (inr (s, p)) = absurd (ground arith)

    follows :
        (x.seg_base == e.seg_base) ≡ false
        → Before e x
        → (y : OffsetPos) → Before x y
        → e.seg_base < y.seg_base
    follows q b y (inl l) = let a = after q b in omega arith
    follows q b y (inr (s, p)) = let a = after q b in omega arith

pub Counted-drop : (n k : ℕ) (es : List OffsetPos) → Counted n es → Counted (n + k) (drop k es)
Counted-drop n zero es c = let z : n + 0 ≡ n = omega arith in rw z c
Counted-drop n (suc k) [] c = tt
Counted-drop n (suc k) (e ∷ es) (c, cs) =
    let z : n + suc k ≡ suc n + k = omega arith in rw z (Counted-drop (suc n) k es cs)
