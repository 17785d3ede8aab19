-- ===== src/Hub/Subscribe.antt =====
-- hub.go: Subscribe, its cancel function, Close and Stats.
pub mod Registry
pub mod Lives
pub mod Keeps
pub mod Ends
use walspool.Base.{
  ℕ, ◌+◌, Bool, true, false, ◌==◌, if◌then◌else◌, List, [], ◌∷◌, ◌++◌, Option, none, some,
  get_elem?, set, length, add64, map,
}
use walspool.Hub.Types.{Text, StreamFilter}
use walspool.Hub.State.{MemoryLogHub, Subscriber}

-- `delete(h.subscribers, id)`
unfoldable pub erase_id : ℕ → List (ℕ × ℕ) → List (ℕ × ℕ)
erase_id id [] = []
erase_id id ((j, a) ∷ m) = if j == id then erase_id id m else (j, a) ∷ erase_id id m

-- What a subscriber is given: its id and channel (`none` for the closed channel of a closed hub),
-- and whether its cancel function has run.
pub record Subscription : Type 0 where
  pub id : ℕ
  pub address : Option ℕ
  pub cancelled : Bool

unfoldable pub new_subscriber : Text → ℕ → StreamFilter → Subscriber
new_subscriber text id filter = record {
  id = id;
  filter = record {
    service = text.to_lower (text.trim_space filter.service);
    level = text.to_upper (text.trim_space filter.level);
  };
  ch = [];
  closed = false;
}

unfoldable pub register : Text → StreamFilter → MemoryLogHub → MemoryLogHub
register text filter h =
    let id = add64 h.next_sub_id 1 in
    record h {
      next_sub_id = id;
      objects = h.objects ++ (new_subscriber text id filter ∷ []);
      subscribers = (id, length h.objects) ∷ erase_id id h.subscribers;
    }

pub subscribe : Text → StreamFilter → MemoryLogHub → Subscription × MemoryLogHub
subscribe text filter h =
    if h.closed then (record { id = 0; address = none; cancelled = false }, h) else (
      record { id = add64 h.next_sub_id 1; address = some (length h.objects); cancelled = false },
      register text filter h,
    )

-- A channel that is open is closed.
pub closed_at : ℕ → List Subscriber → List Subscriber
closed_at a objects = elim (get_elem? objects a) [
  | none ↦ objects
  | some sub ↦ if sub.closed then objects else set objects a (record sub { closed = true })
]

unfoldable pub shut : ℕ → MemoryLogHub → MemoryLogHub
shut a h = record h { objects = closed_at a h.objects }

pub drop_subscriber : ℕ → Option ℕ → MemoryLogHub → MemoryLogHub
drop_subscriber id none h = h
drop_subscriber id (some a) h = shut a (record h { subscribers = erase_id id h.subscribers })

-- The cancel function, under its `sync.Once`.
pub cancel : Subscription → MemoryLogHub → Subscription × MemoryLogHub
cancel s h =
    if s.cancelled
    then (s, h)
    else (record s { cancelled = true }, drop_subscriber s.id s.address h)

unfoldable pub shut_all : List ℕ → MemoryLogHub → MemoryLogHub
shut_all [] h = h
shut_all (a ∷ rest) h = shut_all rest (shut a h)

pub close : MemoryLogHub → MemoryLogHub
close h =
    if h.closed
    then h
    else shut_all (map (λ s. s.1) h.subscribers) (record h { closed = true; subscribers = [] })

pub record HubStats : Type 0 where
  pub capacity : ℕ
  pub current_size : ℕ
  pub total_ingested : ℕ
  pub active_streams : ℕ
  pub indexed_traces : ℕ
  pub indexed_services : ℕ
  pub dropped_events : ℕ

pub stats : MemoryLogHub → HubStats
stats h = record {
  capacity = h.capacity;
  current_size = h.count;
  total_ingested = h.total_ingested;
  active_streams = length h.subscribers;
  indexed_traces = length h.by_trace_id;
  indexed_services = length h.by_service;
  dropped_events = h.dropped_events;
}
