-- ===== src/Hub/Ingest.antt =====
-- hub.go, Ingest: normalisation, the ring buffer with its indices, and distribution.
pub mod Holding
pub mod Sides
pub mod Entries
pub mod Log
pub mod Keeps
pub mod Replaces
pub mod Outcome
pub mod Fresh
pub mod Channels
pub mod Delivers
use walspool.Base.{
  ℕ, ◌+◌, ◌%◌, ◌^◌, Bool, true, false, not, ◌&&◌, ◌||◌, ◌==◌, ltb, if◌then◌else◌, List, [], ◌∷◌,
  ◌++◌, Option, none, some, Bytes, get_or, get_elem?, set, length, add64, map,
}
use walspool.Errors.{Error, sentinel, wrap, precondition_violated, hub_closed}
use walspool.Hub.Types.{Text, LogEntry, StreamFilter, is_empty}
use walspool.Hub.Index.{Side, trace, service, SlotLinks, Spans, link, unlink}
use walspool.Hub.State.{MemoryLogHub, Subscriber}

-- The links and the two maps.
abbrev pub Indices : Type 0
Indices = List SlotLinks × Spans × Spans

abbrev pub spans_of : Side → Indices → Spans
spans_of trace ix = ix.1
spans_of service ix = ix.2

abbrev pub with_side : Side → (List SlotLinks × Spans → List SlotLinks × Spans) → Indices → Indices
with_side trace f (ls, t, s) = ((f (ls, t)).0, (f (ls, t)).1, s)
with_side service f (ls, t, s) = ((f (ls, s)).0, t, (f (ls, s)).1)

abbrev pub key_of : Side → LogEntry → Bytes
key_of trace e = e.trace_id
key_of service e = e.service

pub unlink_side : Side → ℕ → LogEntry → Indices → Indices
unlink_side sd pos e ix =
    if is_empty (key_of sd e) then ix else with_side sd (unlink sd pos (key_of sd e)) ix

pub link_side : Side → ℕ → LogEntry → Indices → Indices
link_side sd pos e ix =
    if is_empty (key_of sd e) then ix else with_side sd (link sd pos (key_of sd e)) ix

-- A slot that holds nothing is in no index.
pub unlink_entry : ℕ → Option LogEntry → Indices → Indices
unlink_entry pos none ix = ix
unlink_entry pos (some e) ix = unlink_side service pos e (unlink_side trace pos e ix)

pub link_entry : ℕ → LogEntry → Indices → Indices
link_entry pos e ix = link_side service pos e (link_side trace pos e ix)

abbrev pub indices : MemoryLogHub → Indices
indices h = (h.links, h.by_trace_id, h.by_service)

abbrev pub with_indices : Indices → MemoryLogHub → MemoryLogHub
with_indices (ls, t, s) h = record h { links = ls; by_trace_id = t; by_service = s }

-- The hub is full: the oldest entry makes room.
pub replace_oldest : LogEntry → MemoryLogHub → MemoryLogHub
replace_oldest item h =
    let pos = h.head % 2 ^ 32 in
    record (with_indices
      (link_entry pos item (unlink_entry pos (get_or h.entries pos none) (indices h))) h) {
        entries = set (set h.entries pos none) pos (some item);
        head = (h.head + 1) % h.capacity;
      }

pub add_newest : LogEntry → MemoryLogHub → MemoryLogHub
add_newest item h =
    let pos = (h.head + h.count) % h.capacity % 2 ^ 32 in
    record (with_indices (link_entry pos item (indices h)) h) {
      entries = set h.entries pos (some item);
      count = h.count + 1;
    }

pub place : LogEntry → MemoryLogHub → MemoryLogHub
unfolding replace_oldest add_newest
place item h = if h.count == h.capacity then replace_oldest item h else add_newest item h

module _ (text : Text) where
  open text use {to_upper, to_lower, trim_space, equal_fold}

  -- Defaults and the canonical spelling, with the id and the time given.
  pub normalised : ℕ → Option ℕ → LogEntry → LogEntry
  normalised id timestamp entry =
      let service = if is_empty entry.service then entry.topic else entry.service in
      let topic = if is_empty entry.topic then service else entry.topic in
      let level = to_upper (trim_space entry.level) in
      record {
        id = id;
        timestamp = timestamp;
        topic = topic;
        service = to_lower (trim_space service);
        trace_id = trim_space entry.trace_id;
        level = if is_empty level then b'I' ∷ b'N' ∷ b'F' ∷ b'O' ∷ [] else level;
        payload = entry.payload;
      }

  -- What is assigned under the lock; `now` is the clock's time.
  pub assigned : ℕ → LogEntry → MemoryLogHub → LogEntry × MemoryLogHub
  unfolding normalised
  assigned now entry h =
      let fresh = entry.id == 0 in
      let id = if fresh then add64 h.seq_id 1 else entry.id in
      let timestamp : Option ℕ = elim entry.timestamp [ none ↦ some now | some t ↦ some t ] in
      (
        normalised id timestamp entry,
        record h {
          seq_id = if fresh then add64 h.seq_id 1 else h.seq_id;
          total_ingested = add64 h.total_ingested 1;
        },
      )

  pub passes : StreamFilter → LogEntry → Bool
  passes f e =
      (is_empty f.service || equal_fold f.service e.service)
      && (is_empty f.level || equal_fold f.level e.level)

  -- One subscriber: `true` where the entry is dropped because the channel is full.
  pub send : LogEntry → Subscriber → Subscriber × Bool
  unfolding passes
  send e sub =
      if not (passes sub.filter e) || sub.closed
      then (sub, false)
      else if ltb (length sub.ch) 256
      then (record sub { ch = sub.ch ++ (e ∷ []) }, false)
      else (sub, true)

  pub settle : ℕ → Subscriber × Bool → MemoryLogHub → MemoryLogHub
  settle a (sub, dropped) h = record h {
    objects = set h.objects a sub;
    dropped_events = if dropped then add64 h.dropped_events 1 else h.dropped_events;
  }

  pub send_to : LogEntry → ℕ → MemoryLogHub → MemoryLogHub
  send_to e a h = elim (get_elem? h.objects a) [ none ↦ h | some sub ↦ settle a (send e sub) h ]

  -- The loop over the snapshot of subscribers, outside the lock.
  pub distribute : LogEntry → List ℕ → MemoryLogHub → MemoryLogHub
  unfolding send_to
  distribute e [] h = h
  distribute e (a ∷ rest) h = distribute e rest (send_to e a h)

  -- What runs under the lock.
  pub store : ℕ → LogEntry → MemoryLogHub → LogEntry × MemoryLogHub
  store now entry h = let (item, h') = assigned now entry h in (item, place item h')

  pub ingest : ℕ → LogEntry → MemoryLogHub → Option Error × MemoryLogHub
  ingest now entry h =
      if is_empty entry.topic && is_empty entry.service
      then (some (wrap (sentinel precondition_violated)), h)
      else if h.closed
      then (some (sentinel hub_closed), h)
      else let (item, h') = store now entry h in
        (none, distribute item (map (λ s. s.1) h'.subscribers) h')
