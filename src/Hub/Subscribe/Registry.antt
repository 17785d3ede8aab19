-- ===== src/Hub/Subscribe/Registry.antt =====
-- The map of subscribers and the objects: which channels are open.
use walspool.Base.{
  ℕ, zero, suc, ◌+◌, ◌<◌, ◌≡◌, ◌≢◌, refl, ap, inl, inr, Bool, false, not, ◌||◌, ◌==◌, if◌then◌else◌,
  List, [], ◌∷◌, ◌++◌, Option, none, some, get_elem?, set, length, map, All, arith, Bool-cases,
}
use walspool.Hub.State.{Subscriber}
use walspool.Hub.Subscribe.{erase_id}

abbrev pub is_open : Option Subscriber → Bool
is_open none = false
is_open (some sub) = not sub.closed

abbrev pub registered : List (ℕ × ℕ) → ℕ → Bool
registered [] b = false
registered ((i, a) ∷ m) b = a == b || registered m b

abbrev pub addresses : List (ℕ × ℕ) → List ℕ
addresses m = map (λ s. s.1) m

abbrev pub Numbered : ℕ × ℕ → Type 0
Numbered s = s.0 ≡ s.1 + 1

module _ {ℓ} {A : Type ℓ} where
  pub get_elem?-set_self :
      (xs : List A) (i : ℕ) (v : A) → i < length xs → get_elem? (set xs i v) i ≡ some v
  get_elem?-set_self [] i v h = absurd (omega arith)
  get_elem?-set_self (x ∷ xs) zero v h = refl
  get_elem?-set_self (x ∷ xs) (suc i) v h = get_elem?-set_self xs i v (omega arith)

  pub get_elem?-set_ne :
      (xs : List A) (i j : ℕ) (v : A) → i ≢ j → get_elem? (set xs i v) j ≡ get_elem? xs j
  get_elem?-set_ne [] i j v h = refl
  get_elem?-set_ne (x ∷ xs) zero zero v h = absurd (h refl)
  get_elem?-set_ne (x ∷ xs) zero (suc j) v h = refl
  get_elem?-set_ne (x ∷ xs) (suc i) zero v h = refl
  get_elem?-set_ne (x ∷ xs) (suc i) (suc j) v h = get_elem?-set_ne xs i j v (λ e. h (ap suc e))

  pub lt_of_get_elem? : (xs : List A) (i : ℕ) {v : A} → get_elem? xs i ≡ some v → i < length xs
  lt_of_get_elem? [] i h = cc
  lt_of_get_elem? (x ∷ xs) zero h = omega arith
  lt_of_get_elem? (x ∷ xs) (suc i) h = omega (arith, lt_of_get_elem? xs i h)

  pub get_elem?-snoc :
      (xs : List A) (v : A) (i : ℕ)
      → get_elem? (xs ++ (v ∷ [])) i ≡ (if i == length xs then some v else get_elem? xs i)
  get_elem?-snoc [] v zero = refl
  get_elem?-snoc [] v (suc i) = ground arith
  get_elem?-snoc (x ∷ xs) v zero = ground arith
  get_elem?-snoc (x ∷ xs) v (suc i) = ground (arith, get_elem?-snoc xs v i)

  pub get_elem?_ext : (xs ys : List A) → ((i : ℕ) → get_elem? xs i ≡ get_elem? ys i) → xs ≡ ys
  get_elem?_ext [] [] h = refl
  get_elem?_ext [] (y ∷ ys) h = cc (h 0)
  get_elem?_ext (x ∷ xs) [] h = cc (h 0)
  get_elem?_ext (x ∷ xs) (y ∷ ys) h =
      let e : some x ≡ some y = h 0 in let t = get_elem?_ext xs ys (λ i. h (suc i)) in cc

-- `erase_id` of the id of an address takes out that address alone.
module _ (a : ℕ) where
  pub registered-erase_id :
      (m : List (ℕ × ℕ)) (b : ℕ)
      → All Numbered m
      → registered (erase_id (a + 1) m) b ≡ (if a == b then false else registered m b)
  unfolding erase_id
  registered-erase_id [] b h = ground arith
  registered-erase_id ((i, c) ∷ m) b (e, h) = ground (arith, registered-erase_id m b h)

  pub All-erase_id {ℓ} : (P : ℕ × ℕ → Type ℓ) (m : List (ℕ × ℕ)) → All P m → All P (erase_id a m)
  unfolding erase_id
  All-erase_id P [] h = tt
  All-erase_id P ((i, c) ∷ m) (p, h) = elim (Bool-cases (i == a)) [
    | inl e ↦ rw e (All-erase_id P m h)
    | inr e ↦ rw e (p, All-erase_id P m h)
  ]
