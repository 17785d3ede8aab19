-- ===== src/Hub/Index/Chain.antt =====
-- The slots of one key as a doubly linked chain, and what the link writes do to it.
use walspool.Base.{
  ℕ, zero, suc, ◌<◌, ◌≡◌, ◌≢◌, refl, ap, List, [], ◌∷◌, length, get_or, set, length-set,
  get_or-set_self, get_or-set_ne,
}
use walspool.Hub.Index.{
  Side, trace, service, no_link, SlotLinks, unlinked, prev_of, next_of, with_prev, with_next,
  prev_at, next_at, set_prev, set_next,
}

-- The first of a list of slots, or -1.
abbrev pub first : List ℕ → ℕ
first [] = no_link
first (p ∷ ps) = p

-- The last of a list of slots, or `b`.
abbrev pub last_or : ℕ → List ℕ → ℕ
last_or b [] = b
last_or b (p ∷ ps) = last_or p ps

-- Each slot points back at the one before it (`b` for the first) and forward at the next.
abbrev pub IsChain : Side → List SlotLinks → ℕ → List ℕ → Type 0
IsChain sd ls b [] = Unit {0}
IsChain sd ls b (p ∷ ps) = (prev_at sd ls p ≡ b) × (next_at sd ls p ≡ first ps) × IsChain sd ls p ps

-- A field that a write leaves alone reads as before, at every slot.
untouched :
    (f : SlotLinks → SlotLinks) (g : SlotLinks → ℕ)
    → ((l : SlotLinks) → g (f l) ≡ g l)
    → (ls : List SlotLinks) (p q : ℕ)
    → g (get_or (set ls p (f (get_or ls p unlinked))) q unlinked) ≡ g (get_or ls q unlinked)
untouched f g h [] p q = refl
untouched f g h (l ∷ ls) zero zero = h l
untouched f g h (l ∷ ls) zero (suc q) = refl
untouched f g h (l ∷ ls) (suc p) zero = refl
untouched f g h (l ∷ ls) (suc p) (suc q) = untouched f g h ls p q

unfoldable pub other : Side → Side
other trace = service
other service = trace

with_prev_self : (sd : Side) (v : ℕ) (l : SlotLinks) → prev_of sd (with_prev sd v l) ≡ v
with_prev_self trace v l = refl
with_prev_self service v l = refl

with_next_self : (sd : Side) (v : ℕ) (l : SlotLinks) → next_of sd (with_next sd v l) ≡ v
with_next_self trace v l = refl
with_next_self service v l = refl

next-with_prev :
    (sd sd' : Side) (v : ℕ) (l : SlotLinks) → next_of sd' (with_prev sd v l) ≡ next_of sd' l
next-with_prev trace trace v l = refl
next-with_prev trace service v l = refl
next-with_prev service trace v l = refl
next-with_prev service service v l = refl

prev-with_next :
    (sd sd' : Side) (v : ℕ) (l : SlotLinks) → prev_of sd' (with_next sd v l) ≡ prev_of sd' l
prev-with_next trace trace v l = refl
prev-with_next trace service v l = refl
prev-with_next service trace v l = refl
prev-with_next service service v l = refl

prev-with_prev-other :
    (sd : Side) (v : ℕ) (l : SlotLinks)
    → prev_of (other sd) (with_prev sd v l) ≡ prev_of (other sd) l
unfolding other
prev-with_prev-other trace v l = refl
prev-with_prev-other service v l = refl

next-with_next-other :
    (sd : Side) (v : ℕ) (l : SlotLinks)
    → next_of (other sd) (with_next sd v l) ≡ next_of (other sd) l
unfolding other
next-with_next-other trace v l = refl
next-with_next-other service v l = refl

-- Reads after writes.
module _ (sd : Side) (ls : List SlotLinks) (p v : ℕ) where
  pub length-set_prev : length (set_prev sd p v ls) ≡ length ls
  unfolding set_prev
  length-set_prev = length-set ls p _

  pub length-set_next : length (set_next sd p v ls) ≡ length ls
  unfolding set_next
  length-set_next = length-set ls p _

  pub prev-set_prev : p < length ls → prev_at sd (set_prev sd p v ls) p ≡ v
  unfolding prev_at set_prev
  prev-set_prev h =
      rw (get_or-set_self ls p (with_prev sd v (get_or ls p unlinked)) unlinked h)
        (with_prev_self sd v _)

  pub next-set_next : p < length ls → next_at sd (set_next sd p v ls) p ≡ v
  unfolding next_at set_next
  next-set_next h =
      rw (get_or-set_self ls p (with_next sd v (get_or ls p unlinked)) unlinked h)
        (with_next_self sd v _)

  pub prev-set_prev_ne : (q : ℕ) → p ≢ q → prev_at sd (set_prev sd p v ls) q ≡ prev_at sd ls q
  unfolding prev_at set_prev
  prev-set_prev_ne q h = ap (prev_of sd) (get_or-set_ne ls _ unlinked h)

  pub next-set_next_ne : (q : ℕ) → p ≢ q → next_at sd (set_next sd p v ls) q ≡ next_at sd ls q
  unfolding next_at set_next
  next-set_next_ne q h = ap (next_of sd) (get_or-set_ne ls _ unlinked h)

  pub next-set_prev : (sd' : Side) (q : ℕ) → next_at sd' (set_prev sd p v ls) q ≡ next_at sd' ls q
  unfolding next_at set_prev
  next-set_prev sd' q = untouched (with_prev sd v) (next_of sd') (next-with_prev sd sd' v) ls p q

  pub prev-set_next : (sd' : Side) (q : ℕ) → prev_at sd' (set_next sd p v ls) q ≡ prev_at sd' ls q
  unfolding prev_at set_next
  prev-set_next sd' q = untouched (with_next sd v) (prev_of sd') (prev-with_next sd sd' v) ls p q

  pub prev-set_prev-other :
      (q : ℕ) → prev_at (other sd) (set_prev sd p v ls) q ≡ prev_at (other sd) ls q
  unfolding prev_at set_prev
  prev-set_prev-other q =
      untouched (with_prev sd v) (prev_of (other sd)) (prev-with_prev-other sd v) ls p q

  pub next-set_next-other :
      (q : ℕ) → next_at (other sd) (set_next sd p v ls) q ≡ next_at (other sd) ls q
  unfolding next_at set_next
  next-set_next-other q =
      untouched (with_next sd v) (next_of (other sd)) (next-with_next-other sd v) ls p q
