-- ===== src/Hub/Tests.antt =====
-- A hub of two slots that has taken three entries, and the theorems at it.
use walspool.Base.{none, ◌++◌, ℕ, ◌≡◌, [], ◌∷◌, some, Bytes, arith, str_eq, if◌then◌else◌}
use walspool.Base.{◌+◌, ◌<◌, ◌≤◌, ◌^◌, true, false, refl, get_elem?, length, All, ◌==◌}
use walspool.Record.{Record, zero_record}
use walspool.Hub.Payload.{Codec, Extracted, extract_metadata, entry_of, on_ingested}
use walspool.Hub.Payload.Indexed.{on_ingested-Holds}
use walspool.Hub.Types.{StreamFilter, Text, LogEntry, LogQuery}
use walspool.Hub.State.{MemoryLogHub, new_memory_log_hub}
use walspool.Hub.Ingest.{place, assigned, ingest}
use walspool.Hub.Ingest.Log.{IsHub, log, newest}
use walspool.Hub.Ingest.Outcome.{Holds, Ingests, place-Holds, ingest-Ingests}
use walspool.Hub.Ingest.Fresh.{new-Holds}
use walspool.Hub.Ingest.Delivers.{Delivers, ingest-Delivers}
use walspool.Hub.Subscribe.{Subscription, subscribe, register, new_subscriber, cancel, close}
use walspool.Hub.Subscribe.Registry.{is_open}
use walspool.Hub.Subscribe.Lives.{IsRegistry}
use walspool.Hub.Subscribe.Keeps.{register-IsRegistry}
use walspool.Hub.Subscribe.Ends.{Subscribes, subscribe-Subscribes, cancel_once, close_once}
use walspool.Hub.Query.{limit_of, query}
use walspool.Hub.Query.Walk.{filter}
use walspool.Hub.Query.Answer.{asked, query-newest}

-- Text that is in its canonical spelling.
abbrev plain : Text
plain = record { to_upper = λ s. s; to_lower = λ s. s; trim_space = λ s. s; equal_fold = str_eq }

abbrev entry : ℕ → Bytes → LogEntry
entry id service = record {
  id = id;
  timestamp = some 5;
  topic = b'a' ∷ [];
  service = service;
  trace_id = b't' ∷ [];
  level = b'E' ∷ [];
  payload = [];
}

abbrev busy : MemoryLogHub
busy =
    place (entry 3 (b'a' ∷ []))
      (place (entry 2 (b'b' ∷ [])) (place (entry 1 (b'a' ∷ [])) (new_memory_log_hub 2)))

busy-IsHub : IsHub busy
busy-IsHub =
    (place-Holds _ _ (place-Holds _ _ (place-Holds _ _ (new-Holds 2 (omega arith)).0).0).0).0

abbrev by_service : LogQuery
by_service = record { trace_id = []; service = b'a' ∷ []; level = []; limit = 0 }

new-Holds_example : Holds 2 [] (new_memory_log_hub 2)
new-Holds_example = new-Holds 2 (omega arith)

ingest-Ingests_example : Ingests plain 9 (entry 0 []) busy (ingest plain 9 (entry 0 []) busy)
ingest-Ingests_example = ingest-Ingests plain 9 (entry 0 []) busy busy-IsHub

query-newest_example :
    query plain by_service busy
    ≡ some (
        if busy.closed
        then []
        else newest (limit_of 0) (filter (asked plain by_service busy) (log busy)))
query-newest_example = query-newest plain by_service busy busy-IsHub

-- A hub with one subscriber.
abbrev errors_only : StreamFilter
errors_only = record { service = []; level = b'E' ∷ [] }

new-IsRegistry : IsRegistry (new_memory_log_hub 2)
unfolding new_memory_log_hub
new-IsRegistry = record { numbered = refl; ids = tt; once = tt; live = λ a. refl }

abbrev watched : MemoryLogHub
watched = register plain errors_only (new_memory_log_hub 2)

few_objects : length (new_memory_log_hub 2).objects + 1 < 2 ^ 64
unfolding new_memory_log_hub
few_objects = omega arith

watched-IsRegistry : IsRegistry watched
watched-IsRegistry =
    register-IsRegistry plain errors_only (new_memory_log_hub 2) new-IsRegistry few_objects

abbrev first : Subscription
first = record { id = 1; address = some 0; cancelled = false }

subscribe-Subscribes_example :
    Subscribes plain errors_only
      (new_memory_log_hub 2)
      (subscribe plain errors_only (new_memory_log_hub 2))
subscribe-Subscribes_example =
    subscribe-Subscribes plain errors_only (new_memory_log_hub 2) new-IsRegistry few_objects

cancel_once_example :
    IsRegistry (cancel first watched).1
    × ((b : ℕ)
        → is_open (get_elem? (cancel first watched).1.objects b)
          ≡ (if 0 == b then false else is_open (get_elem? watched.objects b)))
    × (cancel (cancel first watched).0 (cancel first watched).1 ≡ cancel first watched)
cancel_once_example = cancel_once first 0 refl refl refl watched watched-IsRegistry

watched_running : watched.closed ≡ false
unfolding register new_memory_log_hub
watched_running = refl

watched_bounded : All (λ s. length s.ch ≤ 256) watched.objects
unfolding register new_memory_log_hub new_subscriber
watched_bounded = (omega arith, tt)

close_once_example :
    IsRegistry (close watched)
    × ((close watched).closed ≡ true)
    × ((b : ℕ) → is_open (get_elem? (close watched).objects b) ≡ false)
    × (close (close watched) ≡ close watched)
close_once_example = close_once watched watched-IsRegistry watched_running

ingest-Delivers_example :
    Delivers plain 9 (entry 0 []) watched (ingest plain 9 (entry 0 []) watched).1
ingest-Delivers_example =
    ingest-Delivers plain 9 (entry 0 []) watched watched-IsRegistry refl watched_running
      watched_bounded

-- Bytes that are taken as they are.
abbrev raw : Codec
raw = record {
  valid = λ b. true;
  marshal_string = λ b. b;
  unquote = λ b. none;
  trim_space = λ b. b;
}

-- `{"level":"E"}` under the topic `a`.
abbrev stored_record : Record
stored_record = record zero_record {
  id = 4;
  topic = b'a' ∷ [];
  payload =
      b'{' ∷ b'"' ∷ b'l' ∷ b'e' ∷ b'v' ∷ b'e' ∷ b'l' ∷ b'"' ∷ b':' ∷ b'"' ∷ b'E' ∷ b'"' ∷ b'}' ∷ [];
}

fresh_running : (new_memory_log_hub 2).closed ≡ false
unfolding new_memory_log_hub
fresh_running = refl

on_ingested-Holds_example :
    let h = new_memory_log_hub 2 in
    (x : Extracted) × (h' : MemoryLogHub) × (extract_metadata raw stored_record.topic
        stored_record.payload
      ≡ some x)
    × (on_ingested raw plain 9 stored_record h ≡ some h')
    × Holds h.capacity
        (newest h.capacity (log h ++ ((assigned plain 9 (entry_of raw stored_record x) h).0 ∷ [])))
        h'
on_ingested-Holds_example =
    on_ingested-Holds raw plain 9 stored_record (new_memory_log_hub 2) (new-Holds 2 (omega arith)).0
      fresh_running refl
