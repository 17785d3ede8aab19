-- ===== src/Hub/Subscribe/Lives.antt =====
-- A channel is open exactly while its subscriber is registered: Subscribe, cancel and Close.
use mathlib.Core.Path.{subst}
use walspool.Base.{
  ℕ, ◌≡◌, ◌≢◌, ap, ◌∙◌, inl, inr, true, false, not, ◌==◌, ==_iff, if◌then◌else◌, List, [], ◌∷◌,
  none, some, get_elem?, set, length, length-set, All, arith, Bool-cases, Option-cases,
}
use walspool.Hub.State.{MemoryLogHub, Subscriber}
use walspool.Hub.Subscribe.{erase_id, closed_at}
use walspool.Hub.Subscribe.Registry.{
  is_open, registered, addresses, Numbered, get_elem?-set_self, get_elem?-set_ne, lt_of_get_elem?,
}
use walspool.Hub.Index.Linked.{IsDistinct}

pub record IsRegistry (h : MemoryLogHub) : Type 0 where
  pub numbered : h.next_sub_id ≡ length h.objects
  pub ids : All Numbered h.subscribers
  pub once : IsDistinct (addresses h.subscribers)
  pub live : (a : ℕ) → is_open (get_elem? h.objects a) ≡ registered h.subscribers a

-- `closed_at`, on an address that is not there, a closed channel and an open one.
module _ (a : ℕ) (os : List Subscriber) where
  closed_at_gone : get_elem? os a ≡ none → closed_at a os ≡ os
  unfolding closed_at
  closed_at_gone e = rw (e, closed_at)

  closed_at_shut :
      (sub : Subscriber) → get_elem? os a ≡ some sub → sub.closed ≡ true → closed_at a os ≡ os
  unfolding closed_at
  closed_at_shut sub e c = simp (closed_at, e, c)

  closed_at_open :
      (sub : Subscriber)
      → get_elem? os a ≡ some sub
      → sub.closed ≡ false
      → closed_at a os ≡ set os a (record sub { closed = true })
  unfolding closed_at
  closed_at_open sub e c = simp (closed_at, e, c)

  pub length-closed_at : length (closed_at a os) ≡ length os
  length-closed_at = elim (Option-cases (get_elem? os a)) [
    | inl e ↦ ap length (closed_at_gone e)
    | inr (sub, e) ↦ elim (Bool-cases sub.closed) [
      | inl c ↦ ap length (closed_at_shut sub e c)
      | inr c ↦ ap length (closed_at_open sub e c) ∙ length-set os a _
    ]
  ]

  open-closed_at_self : is_open (get_elem? (closed_at a os) a) ≡ false
  open-closed_at_self = elim (Option-cases (get_elem? os a)) [
    | inl e ↦ ap (λ o. is_open (get_elem? o a)) (closed_at_gone e) ∙ ap is_open e
    | inr (sub, e) ↦ elim (Bool-cases sub.closed) [
      | inl c ↦ ap (λ o. is_open (get_elem? o a)) (closed_at_shut sub e c) ∙ ap is_open e ∙ ap not c
      | inr c ↦
          ap (λ o. is_open (get_elem? o a)) (closed_at_open sub e c)
          ∙ ap is_open (get_elem?-set_self os a _ (lt_of_get_elem? os a e))
    ]
  ]

  get-closed_at_ne : (b : ℕ) → a ≢ b → get_elem? (closed_at a os) b ≡ get_elem? os b
  get-closed_at_ne b ne = elim (Option-cases (get_elem? os a)) [
    | inl e ↦ ap (λ o. get_elem? o b) (closed_at_gone e)
    | inr (sub, e) ↦ elim (Bool-cases sub.closed) [
      | inl c ↦ ap (λ o. get_elem? o b) (closed_at_shut sub e c)
      | inr c ↦ ap (λ o. get_elem? o b) (closed_at_open sub e c) ∙ get_elem?-set_ne os a b _ ne
    ]
  ]

  -- The channel at `a` is closed, any other is as it was.
  pub open-closed_at :
      (b : ℕ)
      → is_open (get_elem? (closed_at a os) b)
        ≡ (if a == b then false else is_open (get_elem? os b))
  open-closed_at b = elim (Bool-cases (a == b)) [
    | inl same ↦ rw same (
        subst (λ c. is_open (get_elem? (closed_at a os) c) ≡ false) ((==_iff a b).0 same)
          open-closed_at_self)
    | inr diff ↦ rw diff (ap is_open (get-closed_at_ne b (λ e. differ e diff)))
  ]
    where
      differ : {b : ℕ} → a ≡ b → (a == b) ≡ false → ⊥
      differ {b} e d = ground arith

pub IsDistinct-erase_id :
    (id : ℕ) (m : List (ℕ × ℕ)) → IsDistinct (addresses m) → IsDistinct (addresses (erase_id id m))
unfolding erase_id
IsDistinct-erase_id id [] d = tt
IsDistinct-erase_id id ((i, a) ∷ m) (n, d) = elim (Bool-cases (i == id)) [
  | inl e ↦ rw e (IsDistinct-erase_id id m d)
  | inr e ↦ rw e (missing id a m n, IsDistinct-erase_id id m d)
]
  where
    missing :
        (id a : ℕ) (m : List (ℕ × ℕ))
        → All (λ q. a ≢ q) (addresses m)
        → All (λ q. a ≢ q) (addresses (erase_id id m))
    missing id a [] n = tt
    missing id a ((i, c) ∷ m) (x, n) = elim (Bool-cases (i == id)) [
      | inl e ↦ rw e (missing id a m n)
      | inr e ↦ rw e (x, missing id a m n)
    ]

pub absent : (a : ℕ) (m : List (ℕ × ℕ)) → registered m a ≡ false → All (λ q. a ≢ q) (addresses m)
absent a [] h = tt
absent a ((i, c) ∷ m) h = elim (Bool-cases (c == a)) [
  | inl e ↦ absurd (ground arith)
  | inr e ↦ ((λ x. ground arith), absent a m (ground arith))
]
