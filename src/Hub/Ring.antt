-- ===== src/Hub/Ring.antt =====
-- The slots that a circular buffer uses, oldest first.
use mathlib.Core.Path.{ap₂}
use native.Mathlib.Nat.{mod-add-mod, mod-eq_of_lt, mod-eq-sub-mod, mod-lt}
use native.Mathlib.Decide.{dec_lt}
use walspool.Hub.Index.Linked.{IsDistinct}
use walspool.Base.{
  ℕ, zero, suc, ◌+◌, ◌-◌, ◌%◌, ◌<◌, ◌≤◌, ◌≡◌, ◌≢◌, refl, ap, ◌∙◌, List, [], ◌∷◌, ◌++◌, All, length,
  arith,
}

-- `n` slots from the `i`th behind `head` on.
unfoldable pub slots : ℕ → ℕ → ℕ → ℕ → List ℕ
slots cap head i zero = []
slots cap head i (suc n) = (head + i) % cap ∷ slots cap head (i + 1) n

module _ (cap : ℕ) where
  -- One more slot at the end.
  pub slots-suc :
      (head i n : ℕ)
      → slots cap head i (suc n) ≡ slots cap head i n ++ ((head + (i + n)) % cap ∷ [])
  unfolding slots
  slots-suc head i zero = ap (λ k. k % cap ∷ []) (omega arith)
  slots-suc head i (suc n) = ap (◌∷◌ ((head + i) % cap)) (
      slots-suc head (i + 1) n ∙ ap (λ k. slots cap head (i + 1) n ++ (k % cap ∷ [])) (omega arith))

  -- The ring that starts one slot later.
  pub slots_shift : (head i n : ℕ) → slots cap ((head + 1) % cap) i n ≡ slots cap head (i + 1) n
  unfolding slots
  slots_shift head i zero = refl
  slots_shift head i (suc n) =
      ap₂ ◌∷◌ (mod-add-mod (head + 1) cap i ∙ ap (λ k. k % cap) (omega arith))
        (slots_shift head (i + 1) n)

  pub All-slots-lt : (head i n : ℕ) → 0 < cap → All (λ p. p < cap) (slots cap head i n)
  unfolding slots
  All-slots-lt head i zero h = tt
  All-slots-lt head i (suc n) h = (mod-lt (head + i) h, All-slots-lt head (i + 1) n h)

  apart : (x d : ℕ) → 0 < d → d < cap → x % cap ≢ (x + d) % cap
  apart x d a b e = elim (dec_lt (x % cap + d) cap) [
    | yes p ↦ omega (arith, mod-add-mod x cap d, mod-eq_of_lt p)
    | no p ↦ omega (
      arith,
      mod-add-mod x cap d,
      mod-eq-sub-mod {n = x % cap + d} {m = cap} (omega arith),
      mod-lt x {m = cap} (omega arith),
      mod-eq_of_lt {n = x % cap + d - cap} {m = cap}
          (omega (arith, mod-lt x {m = cap} (omega arith))),
    )
  ]

  -- The slot behind `n` others is none of them.
  pub All-slots-ne :
      (head i n j : ℕ)
      → i + n ≤ j
      → j < i + cap
      → All (λ p. p ≢ (head + j) % cap) (slots cap head i n)
  unfolding slots
  All-slots-ne head i zero j a b = tt
  All-slots-ne head i (suc n) j a b = (
    let e : head + i + (j - i) ≡ head + j = omega arith in
        rw e at (apart (head + i) (j - i) (omega arith) (omega arith)),
    All-slots-ne head (i + 1) n j (omega arith) (omega arith),
  )

  -- A slot is used once.
  pub slots-IsDistinct : (head i n : ℕ) → n ≤ cap → IsDistinct (slots cap head i n)
  unfolding slots
  slots-IsDistinct head i zero h = tt
  slots-IsDistinct head i (suc n) h = (
    later head i (i + 1) n (omega arith) (omega arith),
    slots-IsDistinct head (i + 1) n (omega arith),
  )
    where
      later :
          (head i j n : ℕ)
          → i < j
          → j + n ≤ i + cap
          → All (λ q. (head + i) % cap ≢ q) (slots cap head j n)
      later head i j zero a b = tt
      later head i j (suc n) a b = (
        let e : head + i + (j - i) ≡ head + j = omega arith in
            rw e at (apart (head + i) (j - i) (omega arith) (omega arith)),
        later head i (j + 1) n (omega arith) (omega arith),
      )

  pub length-slots : (head i n : ℕ) → length (slots cap head i n) ≡ n
  unfolding slots
  length-slots head i zero = refl
  length-slots head i (suc n) = ap suc (length-slots head (i + 1) n)
