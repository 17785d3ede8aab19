-- ===== src/Hub/Ingest/Holding.antt =====
-- The slots, of a list of slots, whose entries have one key.
use walspool.Base.{
  ℕ, ◌≤◌, ◌≡◌, ◌≢◌, inl, inr, refl, List, [], ◌∷◌, ◌++◌, All, length, arith, Bool, true, false,
  if◌then◌else◌, Option, none, some, Bytes, get_or, set, get_or-set_ne, str_eq, Bool-cases,
}
use walspool.Hub.Types.{LogEntry}
use walspool.Hub.Index.{Side}
use walspool.Hub.Index.Linked.{IsDistinct}
use walspool.Hub.Ingest.{key_of}

abbrev pub holds : Side → Bytes → Option LogEntry → Bool
holds sd k none = false
holds sd k (some e) = str_eq k (key_of sd e)

unfoldable pub holding : Side → Bytes → List (Option LogEntry) → List ℕ → List ℕ
holding sd k es [] = []
holding sd k es (p ∷ ps) =
    if holds sd k (get_or es p none) then p ∷ holding sd k es ps else holding sd k es ps

module _ (sd : Side) (k : Bytes) (es : List (Option LogEntry)) where
  pub holding-append :
      (ps qs : List ℕ) → holding sd k es (ps ++ qs) ≡ holding sd k es ps ++ holding sd k es qs
  unfolding holding
  holding-append [] qs = refl
  holding-append (p ∷ ps) qs = ground (arith, holding-append ps qs)

  pub All-holding {ℓ} : (P : ℕ → Type ℓ) (ps : List ℕ) → All P ps → All P (holding sd k es ps)
  unfolding holding
  All-holding P [] h = tt
  All-holding P (p ∷ ps) h = elim (Bool-cases (holds sd k (get_or es p none))) [
    | inl e ↦ rw e (h.0, All-holding P ps h.1)
    | inr e ↦ rw e (All-holding P ps h.1)
  ]

  pub holding-IsDistinct : (ps : List ℕ) → IsDistinct ps → IsDistinct (holding sd k es ps)
  unfolding holding
  holding-IsDistinct [] h = tt
  holding-IsDistinct (p ∷ ps) h = elim (Bool-cases (holds sd k (get_or es p none))) [
    | inl e ↦ rw e (All-holding (λ q. p ≢ q) ps h.0, holding-IsDistinct ps h.1)
    | inr e ↦ rw e (holding-IsDistinct ps h.1)
  ]

  pub length-holding : (ps : List ℕ) → length (holding sd k es ps) ≤ length ps
  unfolding holding
  length-holding [] = omega arith
  length-holding (p ∷ ps) = ground (arith, length-holding ps)

  pub All-holds :
      (ps : List ℕ) → All (λ q. holds sd k (get_or es q none) ≡ true) (holding sd k es ps)
  unfolding holding
  All-holds [] = tt
  All-holds (p ∷ ps) = elim (Bool-cases (holds sd k (get_or es p none))) [
    | inl e ↦ rw e (e, All-holds ps)
    | inr e ↦ rw e (All-holds ps)
  ]

  -- A write to a slot that is not among them.
  pub holding-set :
      (p : ℕ) (v : Option LogEntry) (ps : List ℕ)
      → All (λ q. p ≢ q) ps
      → holding sd k (set es p v) ps ≡ holding sd k es ps
  unfolding holding
  holding-set p v [] h = refl
  holding-set p v (q ∷ qs) h = rw (get_or-set_ne es v none h.0, holding-set p v qs h.1)
