-- ===== src/Hub/Index/Writes.antt =====
-- The writes of `link` and `unlink` on a chain: a slot joins at the end or leaves at the front,
-- and chains that do not hold it stay as they are.
use walspool.Base.{ℕ, ◌<◌, ◌≡◌, ◌≢◌, ◌∙◌, List, [], ◌∷◌, All, length, arith}
use walspool.Hub.Index.{Side, no_link, SlotLinks, prev_at, next_at, set_prev, set_next, clear}
use walspool.Hub.Index.Chain.{
  IsChain, other, length-set_prev, length-set_next, prev-set_prev, next-set_next, prev-set_prev_ne,
  next-set_next_ne, next-set_prev, prev-set_next, prev-set_prev-other, next-set_next-other,
}

-- Both links of a slot read the same.
abbrev pub Same : Side → List SlotLinks → List SlotLinks → ℕ → Type 0
Same sd ls ls' p = (prev_at sd ls' p ≡ prev_at sd ls p) × (next_at sd ls' p ≡ next_at sd ls p)

pub IsChain-Same :
    (sd : Side) (ls ls' : List SlotLinks) (b : ℕ) (ps : List ℕ)
    → All (Same sd ls ls') ps
    → IsChain sd ls b ps
    → IsChain sd ls' b ps
IsChain-Same sd ls ls' b [] h c = tt
IsChain-Same sd ls ls' b (p ∷ ps) ((e, f), h) (x, y, c) =
    (e ∙ x, f ∙ y, IsChain-Same sd ls ls' p ps h c)

-- `clear`
module _ (sd : Side) (pos : ℕ) (ls : List SlotLinks) where
  pub length-clear : length (clear sd pos ls) ≡ length ls
  unfolding clear
  length-clear = length-set_next sd _ pos no_link ∙ length-set_prev sd ls pos no_link

  pub clear_self :
      pos < length ls
      → (prev_at sd (clear sd pos ls) pos ≡ no_link) × (next_at sd (clear sd pos ls) pos ≡ no_link)
  unfolding clear
  clear_self h = (
    prev-set_next sd _ pos no_link sd pos ∙ prev-set_prev sd ls pos no_link h,
    next-set_next sd _ pos no_link (omega (arith, length-set_prev sd ls pos no_link)),
  )

  pub clear_ne : (q : ℕ) → pos ≢ q → Same sd ls (clear sd pos ls) q
  unfolding clear
  clear_ne q h = (
    prev-set_next sd _ pos no_link sd q ∙ prev-set_prev_ne sd ls pos no_link q h,
    next-set_next_ne sd _ pos no_link q h ∙ next-set_prev sd ls pos no_link sd q,
  )

  pub clear-other : (q : ℕ) → Same (other sd) ls (clear sd pos ls) q
  unfolding clear
  clear-other q = (
    prev-set_next sd _ pos no_link (other sd) q ∙ prev-set_prev-other sd ls pos no_link q,
    next-set_next-other sd _ pos no_link q ∙ next-set_prev sd ls pos no_link (other sd) q,
  )

-- The writes of `link_behind`: `pos` behind `tail`.
abbrev pub behind : Side → ℕ → ℕ → List SlotLinks → List SlotLinks
behind sd pos tail ls = set_next sd pos no_link (set_prev sd pos tail (set_next sd tail pos ls))

module _ (sd : Side) (pos tail : ℕ) (ls : List SlotLinks) where
  pub length-behind : length (behind sd pos tail ls) ≡ length ls
  length-behind =
      length-set_next sd _ pos no_link
      ∙ length-set_prev sd _ pos tail
      ∙ length-set_next sd ls tail pos

  pub behind_self :
      pos < length ls
      → (prev_at sd (behind sd pos tail ls) pos ≡ tail)
        × (next_at sd (behind sd pos tail ls) pos ≡ no_link)
  behind_self h = (
    prev-set_next sd _ pos no_link sd pos
        ∙ prev-set_prev sd _ pos tail (omega (arith, length-set_next sd ls tail pos)),
    next-set_next sd _ pos no_link (
        omega (
          arith,
          length-set_prev sd (set_next sd tail pos ls) pos tail,
          length-set_next sd ls tail pos,
        )),
  )

  pub behind_tail :
      tail < length ls
      → pos ≢ tail
      → (prev_at sd (behind sd pos tail ls) tail ≡ prev_at sd ls tail)
        × (next_at sd (behind sd pos tail ls) tail ≡ pos)
  behind_tail h ne = (
    prev-set_next sd _ pos no_link sd tail
        ∙ prev-set_prev_ne sd _ pos tail tail ne
        ∙ prev-set_next sd ls tail pos sd tail,
    next-set_next_ne sd _ pos no_link tail ne
        ∙ next-set_prev sd _ pos tail sd tail
        ∙ next-set_next sd ls tail pos h,
  )

  pub behind_ne : (q : ℕ) → pos ≢ q → tail ≢ q → Same sd ls (behind sd pos tail ls) q
  behind_ne q ne ne' = (
    prev-set_next sd _ pos no_link sd q
        ∙ prev-set_prev_ne sd _ pos tail q ne
        ∙ prev-set_next sd ls tail pos sd q,
    next-set_next_ne sd _ pos no_link q ne
        ∙ next-set_prev sd _ pos tail sd q
        ∙ next-set_next_ne sd ls tail pos q ne',
  )

  pub behind-other : (q : ℕ) → Same (other sd) ls (behind sd pos tail ls) q
  behind-other q = (
    prev-set_next sd _ pos no_link (other sd) q
        ∙ prev-set_prev-other sd _ pos tail q
        ∙ prev-set_next sd ls tail pos (other sd) q,
    next-set_next-other sd _ pos no_link q
        ∙ next-set_prev sd _ pos tail (other sd) q
        ∙ next-set_next-other sd ls tail pos q,
  )
