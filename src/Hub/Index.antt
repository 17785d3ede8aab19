-- ===== src/Hub/Index.antt =====
-- hub.go: the doubly linked index of the slots that hold one trace id or one service. The two
-- indices have the same code over different fields; a `Side` names the fields.
pub mod Chain
pub mod Writes
pub mod Update
pub mod Linked
pub mod Removal
use walspool.Base.{
  ℕ, ◌+◌, ◌-◌, ◌%◌, ◌^◌, Bool, true, false, ◌&&◌, ◌||◌, List, [], ◌∷◌, Option, none, some, Bytes,
  get_or, set, leb, ◌==◌, if◌then◌else◌, lookup, insert, erase,
}
use walspool.Hub.Types.{is_empty}

pub data Side : Type 0 where
  trace service : Side

-- Cursors are int32 patterns; `no_link` is -1.
abbrev pub no_link : ℕ
no_link = 2 ^ 32 - 1

pub record SlotLinks : Type 0 where
  pub prev_trace : ℕ
  pub next_trace : ℕ
  pub prev_service : ℕ
  pub next_service : ℕ

pub record IndexSpan : Type 0 where
  pub head : ℕ
  pub tail : ℕ
  pub count : ℕ

abbrev pub Spans : Type 0
Spans = List (Bytes × IndexSpan)

abbrev pub unlinked : SlotLinks
unlinked = record {
  prev_trace = no_link;
  next_trace = no_link;
  prev_service = no_link;
  next_service = no_link;
}

abbrev pub prev_of : Side → SlotLinks → ℕ
prev_of trace l = l.prev_trace
prev_of service l = l.prev_service

abbrev pub next_of : Side → SlotLinks → ℕ
next_of trace l = l.next_trace
next_of service l = l.next_service

abbrev pub with_prev : Side → ℕ → SlotLinks → SlotLinks
with_prev trace v l = record l { prev_trace = v }
with_prev service v l = record l { prev_service = v }

abbrev pub with_next : Side → ℕ → SlotLinks → SlotLinks
with_next trace v l = record l { next_trace = v }
with_next service v l = record l { next_service = v }

-- `h.links[pos].prev…` and `h.links[pos].next…`, read and written.
pub prev_at : Side → List SlotLinks → ℕ → ℕ
prev_at sd ls pos = prev_of sd (get_or ls pos unlinked)

pub next_at : Side → List SlotLinks → ℕ → ℕ
next_at sd ls pos = next_of sd (get_or ls pos unlinked)

pub set_prev : Side → ℕ → ℕ → List SlotLinks → List SlotLinks
set_prev sd pos v ls = set ls pos (with_prev sd v (get_or ls pos unlinked))

pub set_next : Side → ℕ → ℕ → List SlotLinks → List SlotLinks
set_next sd pos v ls = set ls pos (with_next sd v (get_or ls pos unlinked))

pub clear : Side → ℕ → List SlotLinks → List SlotLinks
unfolding set_prev set_next
clear sd pos ls = set_next sd pos no_link (set_prev sd pos no_link ls)

-- A known key: the slot goes behind the old tail.
pub link_behind : Side → ℕ → Bytes → IndexSpan → List SlotLinks × Spans → List SlotLinks × Spans
unfolding set_prev set_next
link_behind sd pos key span (ls, m) = (
  set_next sd pos no_link (set_prev sd pos span.tail (set_next sd span.tail pos ls)),
  insert key (record span { tail = pos; count = (span.count + 1) % 2 ^ 32 }) m,
)

-- `linkTrace` and `linkService`, on the links and the map of the side.
pub link : Side → ℕ → Bytes → List SlotLinks × Spans → List SlotLinks × Spans
unfolding clear link_behind
link sd pos key (ls, m) = if is_empty key then (clear sd pos ls, m) else elim (lookup key m) [
  | none ↦ (clear sd pos ls, insert key (record { head = pos; tail = pos; count = 1 }) m)
  | some span ↦ link_behind sd pos key span (ls, m)
]

-- The neighbours of a slot are joined.
pub join : Side → ℕ → ℕ → List SlotLinks → List SlotLinks
unfolding set_prev set_next
join sd prev next ls =
    let ls' = if prev == no_link then ls else set_next sd prev next ls in
    if next == no_link then ls' else set_prev sd next prev ls'

pub shrink : ℕ → ℕ → IndexSpan → IndexSpan
shrink prev next span = record {
  head = if prev == no_link then next else span.head;
  tail = if next == no_link then prev else span.tail;
  count = (span.count + 2 ^ 32 - 1) % 2 ^ 32;
}

-- A key in the map: its last slot takes the key out, any other is taken from between its
-- neighbours.
pub unlink_from : Side → ℕ → Bytes → IndexSpan → List SlotLinks × Spans → List SlotLinks × Spans
unlink_from sd pos key span (ls, m) =
    if leb span.count 1 || (span.head == pos && span.tail == pos)
    then (clear sd pos ls, erase key m)
    else (
      clear sd pos (join sd (prev_at sd ls pos) (next_at sd ls pos) ls),
      insert key (shrink (prev_at sd ls pos) (next_at sd ls pos) span) m,
    )

-- `unlinkTrace` and `unlinkService`.
pub unlink : Side → ℕ → Bytes → List SlotLinks × Spans → List SlotLinks × Spans
unfolding unlink_from
unlink sd pos key (ls, m) =
    if is_empty key
    then (ls, m)
    else elim (lookup key m) [ none ↦ (ls, m) | some span ↦ unlink_from sd pos key span (ls, m) ]
