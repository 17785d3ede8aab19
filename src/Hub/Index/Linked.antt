-- ===== src/Hub/Index/Linked.antt =====
-- The index of a key and its chain of slots: `link` adds a slot at the end, `unlink` takes the
-- first one out.
use walspool.Base.{
  ℕ, ◌<◌, ◌≡◌, ◌≢◌, sym, ◌∙◌, List, [], ◌∷◌, ◌++◌, All, length, none, some, Bytes, lookup,
}
use walspool.Hub.Index.{Side, no_link, SlotLinks, Spans, set_prev, clear}
use walspool.Hub.Index.Chain.{IsChain, last_or, prev-set_prev, prev-set_prev_ne, next-set_prev}
use walspool.Hub.Index.Writes.{IsChain-Same, clear_ne, behind, behind_self, behind_tail, behind_ne}

-- No slot occurs twice.
abbrev pub IsDistinct : List ℕ → Type 0
IsDistinct [] = Unit {0}
IsDistinct (p ∷ ps) = All (λ q. p ≢ q) ps × IsDistinct ps

pub All-last_or {ℓ} : (P : ℕ → Type ℓ) (p : ℕ) (ps : List ℕ) → All P (p ∷ ps) → P (last_or p ps)
All-last_or P p [] h = h.0
All-last_or P p (q ∷ ps) h = All-last_or P q ps h.1

-- Slots other than `a` and `b`.
pub All-Same {ℓ κ μ} :
    (P : ℕ → Type ℓ) (Q : ℕ → Type κ) (R : ℕ → Type μ)
    → ((q : ℕ) → P q → Q q → R q)
    → (qs : List ℕ) → All P qs
    → All Q qs
    → All R qs
All-Same P Q R f [] h k = tt
All-Same P Q R f (q ∷ qs) h k = (f q h.0 k.0, All-Same P Q R f qs h.1 k.1)

pub All-everywhere {ℓ} : (P : ℕ → Type ℓ) → ((q : ℕ) → P q) → (qs : List ℕ) → All P qs
All-everywhere P f [] = tt
All-everywhere P f (q ∷ qs) = (f q, All-everywhere P f qs)

module _ (sd : Side) (ls : List SlotLinks) where
  -- A new slot at the end of a chain.
  pub IsChain-behind :
      (pos b p : ℕ) (ps : List ℕ)
      → pos < length ls
      → All (λ q. q < length ls) (p ∷ ps)
      → All (λ q. pos ≢ q) (p ∷ ps)
      → IsDistinct (p ∷ ps)
      → IsChain sd ls b (p ∷ ps)
      → IsChain sd (behind sd pos (last_or p ps) ls) b ((p ∷ ps) ++ (pos ∷ []))
  IsChain-behind pos b p [] h lt ne d (x, y, c) =
      let (e, f) = behind_tail sd pos p ls lt.0 ne.0 in
      let (e', f') = behind_self sd pos p ls h in (e ∙ x, f, (e', f', tt))
  IsChain-behind pos b p (q ∷ qs) h lt ne d (x, y, c) =
      let (e, f) =
        behind_ne sd pos (last_or q qs) ls p ne.0
          (λ e. All-last_or (λ r. p ≢ r) q qs d.0 (sym e)) in
      (e ∙ x, f ∙ y, IsChain-behind pos p q qs h lt.1 ne.1 d.1 c)

  -- The second slot of a chain becomes the first.
  pub IsChain-front :
      (p q b : ℕ) (qs : List ℕ)
      → q < length ls
      → IsDistinct (p ∷ q ∷ qs)
      → IsChain sd ls b (p ∷ q ∷ qs)
      → IsChain sd (clear sd p (set_prev sd q no_link ls)) no_link (q ∷ qs)
  IsChain-front p q b qs lt d (x, y, (x', y', c)) =
      let (e, f) = clear_ne sd p (set_prev sd q no_link ls) q d.0.0 in
      (
        e ∙ prev-set_prev sd ls q no_link lt,
        f ∙ next-set_prev sd ls q no_link sd q ∙ y',
        IsChain-Same sd ls _ q qs
            (All-Same (λ r. p ≢ r) (λ r. q ≢ r) _
              (λ r n m.
                let (e', f') = clear_ne sd p (set_prev sd q no_link ls) r n in
                (
                  e' ∙ prev-set_prev_ne sd ls q no_link r m,
                  f' ∙ next-set_prev sd ls q no_link sd r,
                ))
              qs d.0.1 d.1.0)
            c,
      )

-- The entry of a key in the map, and the chain of its slots, oldest first.
abbrev pub IsIndexed : Side → List SlotLinks × Spans → Bytes → List ℕ → Type 0
IsIndexed sd (ls, m) k [] = lookup k m ≡ none
IsIndexed sd (ls, m) k (p ∷ ps) =
    (lookup k m ≡ some (record { head = p; tail = last_or p ps; count = length (p ∷ ps) }))
    × IsChain sd ls no_link (p ∷ ps)
