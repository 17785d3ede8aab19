-- ===== src/Hub/Ingest/Outcome.antt =====
-- `ingest` as a whole: every branch, what the hub holds afterwards, and the new hub.
use mathlib.Core.Path.{subst, ap₂}
use walspool.Base.{
  ℕ, ◌-◌, ◌<◌, ◌≡◌, ◌⊎◌, inl, inr, refl, sym, ap, ◌∙◌, List, [], ◌∷◌, ◌++◌, length, arith, ◌==◌,
  ==_iff, true, false, ◌&&◌, Bool-cases, Option-cases, Bool, Option, none, some, get_elem?, drop,
  drop_front, length-append, if_cases,
}
use walspool.Errors.{Error, sentinel, wrap, precondition_violated, hub_closed}
use walspool.Hub.Types.{Text, LogEntry, is_empty}
use walspool.Hub.State.{MemoryLogHub, Subscriber}
use walspool.Hub.Ingest.{
  place, replace_oldest, add_newest, send, settle, send_to, distribute, assigned, store, ingest,
}
use walspool.Hub.Ingest.Log.{log, IsHub, newest, length-log}
use walspool.Hub.Ingest.Keeps.{add_newest-IsHub}
use walspool.Hub.Ingest.Replaces.{replace_oldest_lem, replaced-IsHub, log-replaced}

-- Operations that leave the entries and their indices alone.
abbrev pub Holds : ℕ → List LogEntry → MemoryLogHub → Type 0
Holds cap es h = IsHub h × (log h ≡ es) × (h.capacity ≡ cap)

module _ (item : LogEntry) (h : MemoryLogHub) (v : IsHub h) where
  place_full : (h.count == h.capacity) ≡ true → place item h ≡ replace_oldest item h
  unfolding place
  place_full e = rw e

  place_room : (h.count == h.capacity) ≡ false → place item h ≡ add_newest item h
  unfolding place
  place_room e = rw e

  newest_full :
      h.count ≡ h.capacity
      → drop 1 (log h) ++ (item ∷ []) ≡ newest h.capacity (log h ++ (item ∷ []))
  newest_full e =
      let one : length (log h ++ (item ∷ [])) - h.capacity ≡ 1 =
        omega (arith, length-append (log h) (item ∷ []), length-log h v, e) in
      sym (drop_front 1 (log h) (item ∷ []) (omega (arith, length-log h v, v.some_room, e)))
      ∙ ap (λ n. drop n (log h ++ (item ∷ []))) (sym one)

  newest_room :
      h.count < h.capacity → log h ++ (item ∷ []) ≡ newest h.capacity (log h ++ (item ∷ []))
  newest_room e =
      let zero_left : length (log h ++ (item ∷ [])) - h.capacity ≡ 0 =
        omega (arith, length-append (log h) (item ∷ []), length-log h v, e) in
      ap (λ n. drop n (log h ++ (item ∷ []))) (sym zero_left)

  capacity-replace_oldest : (replace_oldest item h).capacity ≡ h.capacity
  unfolding replace_oldest
  capacity-replace_oldest = refl

  capacity-add_newest : (add_newest item h).capacity ≡ h.capacity
  unfolding add_newest
  capacity-add_newest = refl

  pub place-Holds : Holds h.capacity (newest h.capacity (log h ++ (item ∷ []))) (place item h)
  place-Holds = elim (Bool-cases (h.count == h.capacity)) [
    | inl e ↦
        let full : h.count ≡ h.capacity = (==_iff _ _).0 e in
        subst (Holds h.capacity (newest h.capacity (log h ++ (item ∷ []))))
          (sym (place_full e ∙ replace_oldest_lem item h v full))
          (replaced-IsHub item h v full, log-replaced item h v full ∙ newest_full full, refl)
    | inr e ↦
        let room : h.count < h.capacity = ground (arith, v.fits) in
        let (w, l) = add_newest-IsHub item h v room in
        subst (Holds h.capacity (newest h.capacity (log h ++ (item ∷ [])))) (sym (place_room e))
          (w, l ∙ newest_room room, capacity-add_newest)
  ]

module _ (text : Text) (e : LogEntry) where
  settle-Holds :
      (cap : ℕ) (es : List LogEntry) (a : ℕ) (s : Subscriber × Bool) (h : MemoryLogHub)
      → Holds cap es h
      → Holds cap es (settle text a s h)
  unfolding settle
  settle-Holds cap es a s h (v, l, c) = (
    record {
      some_room = v.some_room;
      small = v.small;
      fits = v.fits;
      head_within = v.head_within;
      sized = v.sized;
      linked = v.linked;
      filled = v.filled;
      indexed = v.indexed;
    },
    l,
    c,
  )

  pub send_to_gone :
      (a : ℕ) (h : MemoryLogHub) → get_elem? h.objects a ≡ none → send_to text e a h ≡ h
  unfolding send_to
  send_to_gone a h x = rw (x, send_to)

  pub send_to_found :
      (a : ℕ) (h : MemoryLogHub) (sub : Subscriber)
      → get_elem? h.objects a ≡ some sub
      → send_to text e a h ≡ settle text a (send text e sub) h
  unfolding send_to
  send_to_found a h sub x = rw (x, send_to)

  send_to-Holds :
      (cap : ℕ) (es : List LogEntry) (a : ℕ) (h : MemoryLogHub)
      → Holds cap es h
      → Holds cap es (send_to text e a h)
  send_to-Holds cap es a h k = elim (Option-cases (get_elem? h.objects a)) [
    | inl x ↦ subst (Holds cap es) (sym (send_to_gone a h x)) k
    | inr (sub, x) ↦
        subst (Holds cap es) (sym (send_to_found a h sub x))
          (settle-Holds cap es a (send text e sub) h k)
  ]

  distribute-Holds :
      (cap : ℕ) (es : List LogEntry) (subs : List ℕ) (h : MemoryLogHub)
      → Holds cap es h
      → Holds cap es (distribute text e subs h)
  unfolding distribute
  distribute-Holds cap es [] h k = k
  distribute-Holds cap es (a ∷ subs) h k =
      distribute-Holds cap es subs (send_to text e a h) (send_to-Holds cap es a h k)

  assigned-Holds :
      (now : ℕ) (h : MemoryLogHub) → IsHub h → Holds h.capacity (log h) (assigned text now e h).1
  unfolding assigned
  assigned-Holds now h v = (
    record {
      some_room = v.some_room;
      small = v.small;
      fits = v.fits;
      head_within = v.head_within;
      sized = v.sized;
      linked = v.linked;
      filled = v.filled;
      indexed = v.indexed;
    },
    refl,
    refl,
  )

  store-Holds :
      (now : ℕ) (h : MemoryLogHub)
      → IsHub h
      → Holds h.capacity
          (newest h.capacity (log h ++ ((assigned text now e h).0 ∷ [])))
          (store text now e h).1
  unfolding store
  store-Holds now h v =
      let (w, l, c) = assigned-Holds now h v in
      let item = (assigned text now e h).0 in
      let (w', l', c') = place-Holds item (assigned text now e h).1 w in
      (w', l' ∙ ap₂ (λ n es. newest n (es ++ (item ∷ []))) c l, c' ∙ c)

-- The outcomes of `ingest`.
abbrev pub Ingests : Text → ℕ → LogEntry → MemoryLogHub → Option Error × MemoryLogHub → Type 0
Ingests text now e h r =
    ((r.0 ≡ none)
      × (is_empty e.topic && is_empty e.service ≡ false)
      × (h.closed ≡ false)
      × Holds h.capacity (newest h.capacity (log h ++ ((assigned text now e h).0 ∷ []))) r.1)
    ⊎ ((r.0 ≡ some (wrap (sentinel precondition_violated)))
        × (is_empty e.topic && is_empty e.service ≡ true)
        × (r.1 ≡ h))
    ⊎ ((r.0 ≡ some (sentinel hub_closed)) × (h.closed ≡ true) × (r.1 ≡ h))

module _ (text : Text) (now : ℕ) (e : LogEntry) (h : MemoryLogHub) where
  -- Over a hub that keeps its invariant, an entry with a topic or a service enters an open hub as
  -- its newest, in its assigned form: the hub keeps the invariant and its capacity and holds the
  -- newest entries, up to its capacity, of what it held followed by the entry. Otherwise the call
  -- fails with the error of the guard that stopped it and the hub is as it was.
  pub ingest-Ingests : IsHub h → Ingests text now e h (ingest text now e h)
  unfolding ingest
  ingest-Ingests v =
      if_cases (Ingests text now e h) (is_empty e.topic && is_empty e.service)
        (λ a. inr (inl (refl, a, refl)))
        (λ a.
          if_cases (Ingests text now e h) h.closed (λ b. inr (inr (refl, b, refl)))
            (λ b. inl (
              refl,
              a,
              b,
              distribute-Holds text (store text now e h).0 h.capacity _ _ _
                  (store-Holds text e now h v),
            )))
