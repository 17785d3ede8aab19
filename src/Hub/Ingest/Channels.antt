-- ===== src/Hub/Ingest/Channels.antt =====
-- Distribution of one entry over the subscribers' channels.
use mathlib.Core.Path.{subst}
use walspool.Base.{
  ℕ, zero, suc, ◌≤◌, ◌≡◌, ◌≢◌, refl, sym, ap, ◌∙◌, inl, inr, Bool, true, false, ◌==◌, ==_iff,
  if◌then◌else◌, List, [], ◌∷◌, Option, none, some, get_elem?, set, length, length-append, map, All,
  arith, Bool-cases, Option-cases,
}
use walspool.Hub.Types.{Text, LogEntry}
use walspool.Hub.State.{MemoryLogHub, Subscriber}
use walspool.Hub.Index.Linked.{IsDistinct}
use walspool.Hub.Ingest.{send, settle, send_to, distribute}
use walspool.Hub.Ingest.Outcome.{send_to_gone, send_to_found}
use walspool.Hub.Subscribe.Registry.{
  is_open, addresses, get_elem?-set_self, get_elem?-set_ne, lt_of_get_elem?, get_elem?_ext,
}
use walspool.Hub.Subscribe.Keeps.{listed, listed-addresses}
use walspool.Hub.Subscribe.Lives.{IsRegistry}

abbrev pub mapped : (Subscriber → Subscriber) → Option Subscriber → Option Subscriber
mapped f none = none
mapped f (some s) = some (f s)

pub get-map :
    (f : Subscriber → Subscriber) (xs : List Subscriber) (i : ℕ)
    → get_elem? (map f xs) i ≡ mapped f (get_elem? xs i)
get-map f [] i = refl
get-map f (x ∷ xs) zero = refl
get-map f (x ∷ xs) (suc i) = get-map f xs i

pub length-map :
    (f : Subscriber → Subscriber) (xs : List Subscriber) → length (map f xs) ≡ length xs
length-map f [] = refl
length-map f (x ∷ xs) = ap suc (length-map f xs)

unlisted : (a : ℕ) (m : List ℕ) → All (λ q. a ≢ q) m → listed m a ≡ false
unlisted a [] h = refl
unlisted a (c ∷ m) (n, h) = elim (Bool-cases (c == a)) [
  | inl e ↦ absurd (n (sym ((==_iff c a).0 e)))
  | inr e ↦ rw e (unlisted a m h)
]

module _ (text : Text) (e : LogEntry) where
  -- What an entry does to one subscriber.
  abbrev pub delivered : Subscriber → Subscriber
  delivered sub = (send text e sub).0

  settle-objects :
      (a : ℕ) (s : Subscriber × Bool) (h : MemoryLogHub)
      → (settle text a s h).objects ≡ set h.objects a s.0
  unfolding settle
  settle-objects a s h = refl

  settled :
      (a : ℕ) (s : Subscriber × Bool) (h : MemoryLogHub)
      → (settle text a s h).subscribers ≡ h.subscribers
  unfolding settle
  settled a s h = refl

  settled_id :
      (a : ℕ) (s : Subscriber × Bool) (h : MemoryLogHub)
      → (settle text a s h).next_sub_id ≡ h.next_sub_id
  unfolding settle
  settled_id a s h = refl

  get-send_to :
      (a b : ℕ) (h : MemoryLogHub)
      → get_elem? (send_to text e a h).objects b
        ≡ (if a == b then mapped delivered (get_elem? h.objects b) else get_elem? h.objects b)
  get-send_to a b h = elim (Option-cases (get_elem? h.objects a)) [
    | inl x ↦
        ap (λ k. get_elem? k.objects b) (send_to_gone text e a h x) ∙ elim (Bool-cases (a == b)) [
          | inl s ↦
              let y : get_elem? h.objects b ≡ none =
                subst (λ c. get_elem? h.objects c ≡ none) ((==_iff a b).0 s) x in
              rw (s, y) refl
          | inr s ↦ rw s refl
        ]
    | inr (sub, x) ↦
        ap (λ k. get_elem? k.objects b) (send_to_found text e a h sub x)
        ∙ ap (λ o. get_elem? o b) (settle-objects a (send text e sub) h)
        ∙ elim (Bool-cases (a == b)) [
          | inl s ↦
              let same : a ≡ b = (==_iff a b).0 s in
              rw s (
                subst
                  (λ c.
                    get_elem? (set h.objects a (delivered sub)) c
                    ≡ mapped delivered (get_elem? h.objects c))
                  same
                  (get_elem?-set_self h.objects a (delivered sub) (lt_of_get_elem? h.objects a x)
                    ∙ sym (ap (mapped delivered) x)))
          | inr s ↦ rw s (get_elem?-set_ne h.objects a b (delivered sub) (λ q. unequal a b q s))
        ]
  ]
    where
      unequal : (a b : ℕ) → a ≡ b → (a == b) ≡ false → ⊥
      unequal a b q s = ground arith

  get-distribute :
      (subs : List ℕ) (h : MemoryLogHub) (b : ℕ)
      → IsDistinct subs
      → get_elem? (distribute text e subs h).objects b ≡ (
          if listed subs b then mapped delivered (get_elem? h.objects b) else get_elem? h.objects b)
  unfolding distribute
  get-distribute [] h b d = refl
  get-distribute (a ∷ rest) h b (n, d) =
      get-distribute rest (send_to text e a h) b d
      ∙ ap (λ o. if listed rest b then mapped delivered o else o) (get-send_to a b h)
      ∙ elim (Bool-cases (a == b)) [
        | inl s ↦
            let u : listed rest b ≡ false =
              subst (λ c. listed rest c ≡ false) ((==_iff a b).0 s) (unlisted a rest n) in
            rw (s, u) refl
        | inr s ↦ rw s refl
      ]

  -- A channel that is closed takes nothing.
  send_closed : (sub : Subscriber) → sub.closed ≡ true → delivered sub ≡ sub
  unfolding send
  send_closed sub h = ground arith

  pub unsent : (o : Option Subscriber) → is_open o ≡ false → mapped delivered o ≡ o
  unsent none h = refl
  unsent (some sub) h = ap some (send_closed sub (ground arith))

  pub still_open : (o : Option Subscriber) → is_open (mapped delivered o) ≡ is_open o
  unfolding send
  still_open none = refl
  still_open (some sub) = ground arith

  -- No channel holds more than 256 entries.
  bounded : (sub : Subscriber) → length sub.ch ≤ 256 → length (delivered sub).ch ≤ 256
  unfolding send
  bounded sub h = ground (arith, length-append sub.ch (e ∷ []))

  pub All-bounded :
      (os : List Subscriber)
      → All (λ s. length s.ch ≤ 256) os
      → All (λ s. length s.ch ≤ 256) (map delivered os)
  All-bounded [] h = tt
  All-bounded (s ∷ os) h = (bounded s h.0, All-bounded os h.1)

  -- To every object, in one pass over the registered ones.
  pub distribute-objects :
      (h : MemoryLogHub)
      → IsRegistry h
      → (distribute text e (addresses h.subscribers) h).objects ≡ map delivered h.objects
  distribute-objects h v = get_elem?_ext _ _ (λ b.
      get-distribute (addresses h.subscribers) h b v.once
      ∙ at b
      ∙ sym (get-map delivered h.objects b))
    where
      at :
          (b : ℕ)
          → (if listed (addresses h.subscribers) b
              then mapped delivered (get_elem? h.objects b)
              else get_elem? h.objects b)
            ≡ mapped delivered (get_elem? h.objects b)
      at b = elim (Bool-cases (listed (addresses h.subscribers) b)) [
        | inl s ↦ rw s refl
        | inr s ↦ rw s (
            sym (
              unsent (get_elem? h.objects b)
                (v.live b ∙ sym (listed-addresses h.subscribers b) ∙ s)))
      ]

  pub distribute-fields :
      (subs : List ℕ) (h : MemoryLogHub)
      → ((distribute text e subs h).subscribers ≡ h.subscribers)
        × ((distribute text e subs h).next_sub_id ≡ h.next_sub_id)
  unfolding distribute
  distribute-fields [] h = (refl, refl)
  distribute-fields (a ∷ rest) h =
      let (s, n) = distribute-fields rest (send_to text e a h) in
      let (s', n') = fields a h in (s ∙ s', n ∙ n')
    where
      fields :
          (a : ℕ) (h : MemoryLogHub)
          → ((send_to text e a h).subscribers ≡ h.subscribers)
            × ((send_to text e a h).next_sub_id ≡ h.next_sub_id)
      fields a h = elim (Option-cases (get_elem? h.objects a)) [
        | inl x ↦ (
          ap (λ k. k.subscribers) (send_to_gone text e a h x),
          ap (λ k. k.next_sub_id) (send_to_gone text e a h x),
        )
        | inr (sub, x) ↦ (
          ap (λ k. k.subscribers) (send_to_found text e a h sub x) ∙ settled a (send text e sub) h,
          ap (λ k. k.next_sub_id) (send_to_found text e a h sub x)
              ∙ settled_id a (send text e sub) h,
        )
      ]
