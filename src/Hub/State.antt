-- ===== src/Hub/State.antt =====
-- hub.go: the state of MemoryLogHub and its constructor. Locks are left out: what runs under one
-- is one step.
use walspool.Base.{ℕ, Bool, false, if◌then◌else◌, List, [], Option, none, replicate, sle}
use walspool.Hub.Types.{LogEntry, StreamFilter}
use walspool.Hub.Index.{SlotLinks, Spans, unlinked}

-- `ch` holds what was sent and not yet received, oldest first.
pub record Subscriber : Type 0 where
  pub id : ℕ
  pub filter : StreamFilter
  pub ch : List LogEntry
  pub closed : Bool

-- Subscribers are objects that a hub, a send under way and a cancel function share: `objects`
-- holds each at its address, and the map `subscribers` takes ids to addresses.
pub record MemoryLogHub : Type 0 where
  pub head : ℕ
  pub count : ℕ
  pub seq_id : ℕ
  pub total_ingested : ℕ
  pub dropped_events : ℕ
  pub capacity : ℕ
  pub entries : List (Option LogEntry)
  pub links : List SlotLinks
  pub by_trace_id : Spans
  pub by_service : Spans
  pub subscribers : List (ℕ × ℕ)
  pub objects : List Subscriber
  pub next_sub_id : ℕ
  pub closed : Bool

abbrev pub default_hub_capacity : ℕ
default_hub_capacity = 50000

abbrev pub capacity_of : ℕ → ℕ
capacity_of capacity = if sle capacity 0 then default_hub_capacity else capacity

unfoldable pub new_memory_log_hub : ℕ → MemoryLogHub
new_memory_log_hub capacity = record {
  head = 0;
  count = 0;
  seq_id = 0;
  total_ingested = 0;
  dropped_events = 0;
  capacity = capacity_of capacity;
  entries = replicate (capacity_of capacity) none;
  links = replicate (capacity_of capacity) unlinked;
  by_trace_id = [];
  by_service = [];
  subscribers = [];
  objects = [];
  next_sub_id = 0;
  closed = false;
}
