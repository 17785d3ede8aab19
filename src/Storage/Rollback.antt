-- ===== src/Storage/Rollback.antt =====
-- storage_file.go: which entries `rollbackTo` drops.
use walspool.Base.{
  ℕ, suc, ◌+◌, ◌≤◌, ◌≡◌, refl, ap, inl, inr, Bool, true, false, List, [], ◌∷◌, length, take, All,
  arith, Bool-cases, if_cases,
}
use walspool.Storage.{OffsetPos}
use walspool.Storage.Operations.{drop_trailing, keep_before, beyond}
use walspool.Storage.Index.{Counted, InPlace, Before, Ordered}

module _ (test : OffsetPos → Bool) where
  abbrev Prefix : List OffsetPos → List OffsetPos → Type 0
  Prefix es R = R ≡ take (length R) es

  abbrev pub Spared : List OffsetPos → Type 0
  Spared es = All (λ e. test e ≡ false) es

  abbrev pub Picked : List OffsetPos → Type 0
  Picked es = All (λ e. test e ≡ true) es

  -- Behind an entry that is picked all are.
  abbrev pub Monotone : List OffsetPos → Type 0
  Monotone [] = Unit {0}
  Monotone (e ∷ es) = (test e ≡ true → Picked es) × Monotone es

  keep_before-Prefix :
      (e : OffsetPos) (es R : List OffsetPos) → Prefix es R → Prefix (e ∷ es) (keep_before test e R)
  unfolding keep_before
  keep_before-Prefix e es [] h = if_cases (Prefix (e ∷ es)) (test e) (λ t. refl) (λ t. refl)
  keep_before-Prefix e es (x ∷ xs) h = ap (◌∷◌ e) h

  keep_before-Spared :
      (e : OffsetPos) (es R : List OffsetPos)
      → Prefix es R
      → (test e ≡ true → Picked es)
      → Spared R
      → Spared (keep_before test e R)
  unfolding keep_before
  keep_before-Spared e es [] h m s = if_cases Spared (test e) (λ t. tt) (λ t. (t, tt))
  keep_before-Spared e [] (x ∷ xs) h m s = absurd (cc h)
  keep_before-Spared e (y ∷ ys) (x ∷ xs) h m s = elim (Bool-cases (test e)) [
    | inl t ↦ let same : x ≡ y = cc h in absurd (cc (same, s.0, (m t).0))
    | inr t ↦ (t, s)
  ]

  -- What is left is a prefix.
  pub drop_trailing-take :
      (es : List OffsetPos) → drop_trailing test es ≡ take (length (drop_trailing test es)) es
  unfolding drop_trailing
  drop_trailing-take [] = refl
  drop_trailing-take (e ∷ es) =
      keep_before-Prefix e es (drop_trailing test es) (drop_trailing-take es)

  -- None of it is picked.
  pub drop_trailing-Spared : (es : List OffsetPos) → Monotone es → Spared (drop_trailing test es)
  unfolding drop_trailing
  drop_trailing-Spared [] m = tt
  drop_trailing-Spared (e ∷ es) m =
      keep_before-Spared e es (drop_trailing test es) (drop_trailing-take es) m.0
        (drop_trailing-Spared es m.1)

  -- Where none is picked, all are left.
  pub drop_trailing_none : (es : List OffsetPos) → Spared es → drop_trailing test es ≡ es
  unfolding drop_trailing
  drop_trailing_none [] s = refl
  drop_trailing_none (e ∷ es) s = rw (drop_trailing_none es s.1) (alone es)
    where
      alone : (es : List OffsetPos) → keep_before test e es ≡ e ∷ es
      alone [] = rw (s.0) refl
      alone (x ∷ xs) = refl

  -- A number that no picked entry's offset is below stays within what is left.
  pub drop_trailing_bound :
      (c base : ℕ) (es : List OffsetPos)
      → All (λ e. test e ≡ true → c ≤ e.offset) es
      → Counted base es
      → c ≤ base + length es
      → c ≤ base + length (drop_trailing test es)
  unfolding drop_trailing keep_before
  drop_trailing_bound c base [] p n h = h
  drop_trailing_bound c base (e ∷ es) (p, ps) (n, ns) h =
      bounded (drop_trailing test es) (drop_trailing_bound c (suc base) es ps ns (omega arith))
    where
      bounded :
          (R : List OffsetPos) → c ≤ suc base + length R → c ≤ base + length (keep_before test e R)
      bounded [] k =
          if_cases (λ R. c ≤ base + length R) (test e) {x = []} {y = e ∷ []}
            (λ t. let q = p t in omega arith) (λ t. omega arith)
      bounded (x ∷ xs) k = omega arith

module _ (active target : ℕ) where
  later-beyond :
      (limit : ℕ) (e : OffsetPos)
      → beyond active target e ≡ true
      → (es : List OffsetPos) → All (Before e) es
      → All (InPlace active limit) es
      → Picked (beyond active target) es
  unfolding beyond
  later-beyond limit e t [] b p = tt
  later-beyond limit e t (x ∷ xs) (b, bs) (p, ps) = (ground arith, later-beyond limit e t xs bs ps)

  pub beyond-Monotone :
      (limit : ℕ) (es : List OffsetPos)
      → Ordered es
      → All (InPlace active limit) es
      → Monotone (beyond active target) es
  beyond-Monotone limit [] o p = tt
  beyond-Monotone limit (e ∷ es) (b, o) (p, ps) =
      (λ t. later-beyond limit e t es b ps, beyond-Monotone limit es o ps)

  -- An entry that is not picked lies within the target.
  pub Spared-InPlace :
      (limit : ℕ) (es : List OffsetPos)
      → Spared (beyond active target) es
      → All (InPlace active limit) es
      → All (InPlace active target) es
  unfolding beyond
  Spared-InPlace limit [] s p = tt
  Spared-InPlace limit (e ∷ es) (s, ss) (inl (here, inside, low), ps) =
      (inl (here, ground arith, low), Spared-InPlace limit es ss ps)
  Spared-InPlace limit (e ∷ es) (s, ss) (inr p, ps) = (inr p, Spared-InPlace limit es ss ps)

  -- Within the target all are spared.
  pub inside-Spared :
      (es : List OffsetPos) → All (InPlace active target) es → Spared (beyond active target) es
  unfolding beyond
  inside-Spared [] p = tt
  inside-Spared (e ∷ es) (p, ps) = (ground arith, inside-Spared es ps)
