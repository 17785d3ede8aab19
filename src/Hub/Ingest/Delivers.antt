-- ===== src/Hub/Ingest/Delivers.antt =====
-- `ingest`: what an ingested entry does to the subscribers' channels.
use walspool.Base.{
  ℕ, ◌≤◌, ◌≡◌, refl, sym, ap, ◌∙◌, inl, inr, false, ◌&&◌, ◌==◌, get_elem?, length, map, All,
  Bool-cases, if◌then◌else◌,
}
use walspool.Hub.Types.{Text, LogEntry, is_empty}
use walspool.Hub.State.{MemoryLogHub}
use walspool.Hub.Ingest.{distribute, assigned, place, store, ingest}
use walspool.Hub.Subscribe.Registry.{is_open, registered, addresses}
use walspool.Hub.Subscribe.Lives.{IsRegistry}
use walspool.Hub.Ingest.Channels.{
  mapped, delivered, get-map, length-map, unsent, still_open, All-bounded, distribute-objects,
  distribute-fields,
}

module _ (item : LogEntry) (h : MemoryLogHub) where
  -- The part of a hub that `place` does not touch.
  abbrev Untouched : MemoryLogHub → Type 0
  Untouched k =
      (k.objects ≡ h.objects) × (k.subscribers ≡ h.subscribers) × (k.next_sub_id ≡ h.next_sub_id)

  place-Untouched : Untouched (place item h)
  unfolding place
  place-Untouched = elim (Bool-cases (h.count == h.capacity)) [
    | inl e ↦ rw e (refl, refl, refl)
    | inr e ↦ rw e (refl, refl, refl)
  ]

module _ (text : Text) (now : ℕ) (e : LogEntry) (h : MemoryLogHub) where
  abbrev pub item : LogEntry
  item = (assigned text now e h).0

  abbrev stored : MemoryLogHub
  stored = (store text now e h).1

  -- What `k` is to the hub that took the entry.
  abbrev pub Delivers : MemoryLogHub → Type 0
  Delivers k =
      IsRegistry k
      × (k.objects ≡ map (delivered text item) h.objects)
      × (k.subscribers ≡ h.subscribers)
      × ((b : ℕ)
          → get_elem? k.objects b ≡ (
              if registered h.subscribers b
              then mapped (delivered text item) (get_elem? h.objects b)
              else get_elem? h.objects b))
      × All (λ s. length s.ch ≤ 256) k.objects

module _ (text : Text) (now : ℕ) (e : LogEntry) (h : MemoryLogHub) (v : IsRegistry h) where
  store-Untouched : Untouched e h (store text now e h).1
  unfolding store assigned
  store-Untouched = place-Untouched (assigned text now e h).0 (assigned text now e h).1

  store-IsRegistry : IsRegistry (store text now e h).1
  store-IsRegistry =
      let (o, s, n) = store-Untouched in
      record {
        numbered = n ∙ v.numbered ∙ ap length (sym o);
        ids = rw s v.ids;
        once = rw s v.once;
        live = λ b.
            ap (λ os. is_open (get_elem? os b)) o ∙ v.live b ∙ ap (λ m. registered m b) (sym s);
      }

  distributed : MemoryLogHub
  distributed =
      distribute text (item text now e h) (addresses (stored text now e h).subscribers)
        (stored text now e h)

  distributed-Delivers : All (λ s. length s.ch ≤ 256) h.objects → Delivers text now e h distributed
  unfolding distributed
  distributed-Delivers b =
      let w = store-IsRegistry in
      let (o, s, n) = store-Untouched in
      let (s', n') =
        distribute-fields text (item text now e h) (addresses (stored text now e h).subscribers)
          (stored text now e h) in
      let o' =
        distribute-objects text (item text now e h) (stored text now e h) w
        ∙ ap (map (delivered text (item text now e h))) o in
      (
        record {
          numbered =
              n'
              ∙ n
              ∙ v.numbered
              ∙ sym (ap length o' ∙ length-map (delivered text (item text now e h)) h.objects);
          ids = rw (s' ∙ s) v.ids;
          once = rw (s' ∙ s) v.once;
          live = λ a.
              ap (λ os. is_open (get_elem? os a)) o'
              ∙ ap is_open (get-map (delivered text (item text now e h)) h.objects a)
              ∙ still_open text (item text now e h) (get_elem? h.objects a)
              ∙ v.live a
              ∙ ap (λ m. registered m a) (sym (s' ∙ s));
        },
        o',
        s' ∙ s,
        λ a.
            ap (λ os. get_elem? os a) o'
            ∙ get-map (delivered text (item text now e h)) h.objects a
            ∙ elim (Bool-cases (registered h.subscribers a)) [
              | inl c ↦ rw c refl
              | inr c ↦
                  rw c (unsent text (item text now e h) (get_elem? h.objects a) (v.live a ∙ c))
            ],
        rw o' (All-bounded text (item text now e h) h.objects b),
      )

  -- Over a registry, an entry that is taken changes each registered subscriber's channel as `send`
  -- does, and that of any other not at all; a channel is open exactly while its subscriber is
  -- registered, the same ones are registered, and no channel holds more than 256 entries where
  -- none did before.
  pub ingest-Delivers :
      (is_empty e.topic && is_empty e.service) ≡ false
      → h.closed ≡ false
      → All (λ s. length s.ch ≤ 256) h.objects
      → Delivers text now e h (ingest text now e h).1
  unfolding ingest distributed store
  ingest-Delivers named running b = simp (named, running) (distributed-Delivers b)
