-- ===== src/Hub/Subscribe/Ends.antt =====
-- Subscribe, cancel and Close as wholes.
use mathlib.Core.Path.{subst}
use walspool.Base.{
  ℕ, ◌+◌, ◌<◌, ◌^◌, ◌≡◌, ◌⊎◌, refl, sym, ap, ◌∙◌, inl, inr, true, false, ◌==◌, if◌then◌else◌, List,
  [], ◌∷◌, ◌++◌, none, some, get_elem?, length, arith, add64, if_cases,
}
use walspool.Hub.Types.{Text, StreamFilter}
use walspool.Hub.State.{MemoryLogHub}
use walspool.Hub.Subscribe.{
  new_subscriber, register, Subscription, subscribe, closed_at, shut, drop_subscriber, cancel,
  shut_all, close,
}
use walspool.Hub.Subscribe.Registry.{is_open, registered, addresses}
use walspool.Hub.Subscribe.Lives.{IsRegistry, length-closed_at, open-closed_at}
use walspool.Hub.Subscribe.Keeps.{
  register-IsRegistry, drop-IsRegistry, open-shut_all, listed-addresses,
}

abbrev pub Subscribes : Text → StreamFilter → MemoryLogHub → Subscription × MemoryLogHub → Type 0
Subscribes text filter h r =
    IsRegistry r.1
    × (((h.closed ≡ true) × (r.0.address ≡ none) × (r.1 ≡ h))
        ⊎ ((h.closed ≡ false)
            × (r.0.address ≡ some (length h.objects))
            × (r.0.id ≡ length h.objects + 1)
            × (r.0.cancelled ≡ false)
            × (r.1.objects ≡ h.objects ++ (new_subscriber text r.0.id filter ∷ []))))

module _ (text : Text) (filter : StreamFilter) (h : MemoryLogHub) where
  register-objects :
      (register text filter h).objects
      ≡ h.objects ++ (new_subscriber text (add64 h.next_sub_id 1) filter ∷ [])
  unfolding register
  register-objects = refl

  issued :
      IsRegistry h → length h.objects + 1 < 2 ^ 64 → add64 h.next_sub_id 1 ≡ length h.objects + 1
  issued v few = ground (arith, v.numbered)

  -- Over a registry of fewer than 2 ^ 64 - 1 subscribers, Subscribe keeps it one: on a closed hub
  -- it gives a channel that is closed and changes nothing; on an open one it adds one open channel,
  -- under the next id, with the filter in the hub's spelling, and a cancel function that has not
  -- run.
  pub subscribe-Subscribes :
      IsRegistry h
      → length h.objects + 1 < 2 ^ 64
      → Subscribes text filter h (subscribe text filter h)
  unfolding subscribe
  subscribe-Subscribes v few =
      if_cases (Subscribes text filter h) h.closed (λ c. (v, inl (c, refl, refl)))
        (λ c. (
          register-IsRegistry text filter h v few,
          inr (c, refl, issued v few, refl, register-objects),
        ))

module _ (s : Subscription) (a : ℕ) (at_a : s.address ≡ some a) (id_a : s.id ≡ a + 1)
    (first : s.cancelled ≡ false) (h : MemoryLogHub) (v : IsRegistry h) where
  abbrev done : Subscription × MemoryLogHub
  done = (record s { cancelled = true }, drop_subscriber (a + 1) (some a) h)

  cancel_lem : cancel s h ≡ done
  unfolding cancel
  cancel_lem = simp (cancel, first, at_a, id_a)

  again : cancel done.0 done.1 ≡ done
  unfolding cancel
  again = refl

  dropped_open :
      (b : ℕ)
      → is_open (get_elem? (drop_subscriber (a + 1) (some a) h).objects b)
        ≡ (if a == b then false else is_open (get_elem? h.objects b))
  unfolding drop_subscriber shut
  dropped_open b = open-closed_at a h.objects b

  -- The first call of the cancel function that Subscribe gave out with a channel closes that channel
  -- and no other, and keeps the registry; a second call changes nothing.
  pub cancel_once :
      IsRegistry (cancel s h).1
      × ((b : ℕ)
          → is_open (get_elem? (cancel s h).1.objects b)
            ≡ (if a == b then false else is_open (get_elem? h.objects b)))
      × (cancel (cancel s h).0 (cancel s h).1 ≡ cancel s h)
  cancel_once =
      subst
        (λ r.
          IsRegistry r.1
          × ((b : ℕ)
              → is_open (get_elem? r.1.objects b)
                ≡ (if a == b then false else is_open (get_elem? h.objects b)))
          × (cancel r.0 r.1 ≡ r))
        (sym cancel_lem) (drop-IsRegistry h v a, dropped_open, again)

-- What shutting channels leaves alone.
shut_all-fields :
    (addrs : List ℕ) (h : MemoryLogHub)
    → ((shut_all addrs h).closed ≡ h.closed)
      × ((shut_all addrs h).subscribers ≡ h.subscribers)
      × ((shut_all addrs h).next_sub_id ≡ h.next_sub_id)
      × (length (shut_all addrs h).objects ≡ length h.objects)
unfolding shut_all shut
shut_all-fields [] h = (refl, refl, refl, refl)
shut_all-fields (a ∷ rest) h =
    let (c, s, n, l) = shut_all-fields rest (record h { objects = closed_at a h.objects }) in
    (c, s, n, l ∙ length-closed_at a h.objects)

module _ (h : MemoryLogHub) (v : IsRegistry h) (running : h.closed ≡ false) where
  abbrev ended : MemoryLogHub
  ended = shut_all (addresses h.subscribers) (record h { closed = true; subscribers = [] })

  close_lem : close h ≡ ended
  unfolding close
  close_lem = simp (close, running)

  ended_shut : (b : ℕ) → is_open (get_elem? ended.objects b) ≡ false
  ended_shut b =
      open-shut_all (addresses h.subscribers) (record h { closed = true; subscribers = [] }) b
      ∙ (ground (arith, listed-addresses h.subscribers b, v.live b))

  ended-IsRegistry : IsRegistry ended
  ended-IsRegistry =
      let (c, s, n, l) =
        shut_all-fields (addresses h.subscribers) (record h { closed = true; subscribers = [] }) in
      record {
        numbered = n ∙ v.numbered ∙ sym l;
        ids = rw s tt;
        once = rw s tt;
        live = λ b. ended_shut b ∙ ap (λ m. registered m b) (sym s);
      }

  ended_closed : ended.closed ≡ true
  ended_closed =
      (shut_all-fields (addresses h.subscribers) (record h { closed = true; subscribers = [] })).0

  ended_again : close ended ≡ ended
  unfolding close
  ended_again = simp (close, ended_closed)

  -- Close of a running hub closes the hub and every channel, and keeps the registry; a second Close
  -- changes nothing.
  pub close_once :
      IsRegistry (close h)
      × ((close h).closed ≡ true)
      × ((b : ℕ) → is_open (get_elem? (close h).objects b) ≡ false)
      × (close (close h) ≡ close h)
  close_once =
      subst
        (λ r.
          IsRegistry r
          × (r.closed ≡ true)
          × ((b : ℕ) → is_open (get_elem? r.objects b) ≡ false)
          × (close r ≡ r))
        (sym close_lem) (ended-IsRegistry, ended_closed, ended_shut, ended_again)
