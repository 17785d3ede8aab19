-- ===== src/Hub/Subscribe/Keeps.antt =====
-- Subscribe, cancel and Close keep the registry: a channel is open exactly while it is registered.
use walspool.Base.{
  ℕ, ◌+◌, ◌<◌, ◌^◌, ◌≡◌, refl, sym, ap, ◌∙◌, Bool, false, ◌||◌, ◌==◌, if◌then◌else◌, List, [], ◌∷◌,
  ◌++◌, some, get_elem?, length, length-append, arith, add64,
}
use walspool.Hub.Types.{Text, StreamFilter}
use walspool.Hub.State.{MemoryLogHub}
use walspool.Hub.Subscribe.{
  erase_id, new_subscriber, register, closed_at, shut, drop_subscriber, shut_all,
}
use walspool.Hub.Subscribe.Registry.{
  is_open, registered, addresses, Numbered, get_elem?-snoc, registered-erase_id, All-erase_id,
}
use walspool.Hub.Subscribe.Lives.{
  IsRegistry, length-closed_at, open-closed_at, IsDistinct-erase_id, absent,
}

module _ (text : Text) (filter : StreamFilter) (h : MemoryLogHub) (v : IsRegistry h)
    (few : length h.objects + 1 < 2 ^ 64) where
  abbrev n : ℕ
  n = length h.objects

  abbrev id : ℕ
  id = add64 h.next_sub_id 1

  id_eq : id ≡ n + 1
  id_eq = omega (arith, v.numbered)

  others :
      (b : ℕ)
      → registered (erase_id id h.subscribers) b
        ≡ (if n == b then false else registered h.subscribers b)
  others b = rw id_eq (registered-erase_id n h.subscribers b v.ids)

  new_only : registered (erase_id id h.subscribers) n ≡ false
  new_only = others n ∙ ground arith

  register_live :
      (b : ℕ)
      → is_open (get_elem? (h.objects ++ (new_subscriber text id filter ∷ [])) b)
        ≡ (n == b || registered (erase_id id h.subscribers) b)
  unfolding new_subscriber
  register_live b =
      ap is_open (get_elem?-snoc h.objects (new_subscriber text id filter) b)
      ∙ (ground (arith, others b, v.live b))

  pub register-IsRegistry : IsRegistry (register text filter h)
  unfolding register
  register-IsRegistry = record {
    numbered = omega (arith, id_eq, length-append h.objects (new_subscriber text id filter ∷ []));
    ids = (id_eq, All-erase_id id Numbered h.subscribers v.ids);
    once = (
      absent n (erase_id id h.subscribers) new_only,
      IsDistinct-erase_id id h.subscribers v.once,
    );
    live = register_live;
  }

module _ (h : MemoryLogHub) (v : IsRegistry h) (a : ℕ) where
  pub drop-IsRegistry : IsRegistry (drop_subscriber (a + 1) (some a) h)
  unfolding drop_subscriber shut
  drop-IsRegistry = record {
    numbered = v.numbered ∙ sym (length-closed_at a h.objects);
    ids = All-erase_id (a + 1) Numbered h.subscribers v.ids;
    once = IsDistinct-erase_id (a + 1) h.subscribers v.once;
    live = λ b.
        open-closed_at a h.objects b
        ∙ ap (λ r. if a == b then false else r) (v.live b)
        ∙ sym (registered-erase_id a h.subscribers b v.ids);
  }

-- Which channels are open when every address of a list is shut.
abbrev pub listed : List ℕ → ℕ → Bool
listed [] b = false
listed (a ∷ rest) b = a == b || listed rest b

pub open-shut_all :
    (addrs : List ℕ) (h : MemoryLogHub) (b : ℕ)
    → is_open (get_elem? (shut_all addrs h).objects b)
      ≡ (if listed addrs b then false else is_open (get_elem? h.objects b))
unfolding shut_all shut
open-shut_all [] h b = refl
open-shut_all (a ∷ rest) h b =
    open-shut_all rest (record h { objects = closed_at a h.objects }) b
    ∙ ap (λ r. if listed rest b then false else r) (open-closed_at a h.objects b)
    ∙ (ground arith)

pub listed-addresses : (m : List (ℕ × ℕ)) (b : ℕ) → listed (addresses m) b ≡ registered m b
listed-addresses [] b = refl
listed-addresses ((i, a) ∷ m) b = ap (◌||◌ (a == b)) (listed-addresses m b)
