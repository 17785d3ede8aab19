-- ===== src/Engine/Tests.antt =====
-- Concrete spoolers over the in-memory engine, and the theorems at them.
use walspool.Base.{
  ℕ, ◌+◌, ◌≡◌, ◌<◌, ◌≤◌, ◌*◌, ◌⊎◌, inl, refl, true, false, List, [], ◌∷◌, ◌++◌, none, some, arith,
  max_int,
}
use walspool.Errors.{Error, permanent_rejection, ok, err, is}
use walspool.Record.{Record, zero_record}
use walspool.Ports.{StorageEngine, Sink, IngestionObserver, IsRecorded}
use walspool.Memory.{
  MemoryStorageEngine, memory_storage, append, read_batch, commit, new_memory_storage_engine,
}
use walspool.Memory
use walspool.Memory.Queue
use walspool.Memory.Queue.{
  memory_queue, read_batch_pending, commit_pending, append_pending, uncommitted_count-pending,
  new-IsOpen, pending,
}
use walspool.Engine.{Engine, Turn, timer, drain_all, enqueue}
use walspool.Engine.Settings.{default_config, millisecond}
use walspool.Engine.Backoff.{
  initial_of, max_of, calculate_next_backoff, calculate_next_backoff_bounds,
}
use walspool.Engine.Drain
use walspool.Engine.Drain.{IsReady}
use walspool.Engine.Flush.{drain_all-Conserves, drain_all_delivers}
use walspool.Engine.Enqueue.{enqueue-Enqueues, Enqueues}
use walspool.Engine.Dispatcher.{Event, tick, run_dispatcher}
use walspool.Engine.Dispatcher.Conserve.{run_dispatcher-Conserves}

-- A sink that takes every batch and keeps it.
abbrev keeping : Sink
keeping = record { State = List Record; deliver = λ b k. (none, k ++ b) }

keeping_taken :
    (b : List Record) (k : List Record)
    → (((keeping.deliver b k).0 ≡ none) × ((keeping.deliver b k).1 ≡ k ++ b))
      ⊎ ((e : Error) × ((keeping.deliver b k).0 ≡ some e) × ((keeping.deliver b k).1 ≡ k))
keeping_taken b k = inl (refl, refl)

abbrev keeping_recorded : IsRecorded keeping
keeping_recorded = record { taken = λ k. k; deliver_taken = keeping_taken }

-- An observer that keeps what it is shown.
abbrev seeing : IngestionObserver
seeing = record { State = List Record; on_ingested = λ r s. s ++ (r ∷ []) }

abbrev entry : ℕ → Record
entry n = record zero_record { offset = n; id = n + 1; topic = b't' ∷ []; payload = b'p' ∷ [] }

abbrev log : MemoryStorageEngine
log = record {
  records = entry 0 ∷ entry 1 ∷ entry 2 ∷ [];
  checkpoint = 1;
  closed = false;
  max_capacity = 10;
}

abbrev log_open : Queue.IsOpen log
log_open = record {
  is_open = refl;
  within = omega arith;
  small = omega arith;
  numbered = omega arith;
}

abbrev spooler : Engine memory_storage keeping seeing
spooler = record {
  cfg = default_config;
  storage = log;
  sink = [];
  observers = [] ∷ [];
  id_counter = 3;
  notified = false;
  closed = false;
}

abbrev ready : IsReady memory_storage keeping seeing memory_queue keeping_recorded spooler
ready = record { is_open = log_open; batch_pos = omega arith; batch_small = omega arith }

abbrev quiet : Turn
quiet = record { ctx_err = none; wake = timer; int64n = λ n. 0 }

read_batch_pending_example : read_batch 1 log ≡ (ok (entry 1 ∷ []), log)
read_batch_pending_example = read_batch_pending 1 log (omega arith) (omega arith) log_open

commit_pending_example :
    ((commit 1 log).0 ≡ ok tt)
    × (pending (commit 1 log).1 ≡ entry 2 ∷ [])
    × Queue.IsOpen (commit 1 log).1
commit_pending_example = commit_pending log [] (entry 1) (entry 2 ∷ []) log_open refl

append_pending_example :
    ((n : ℕ) × ((append (entry 7) log).0 ≡ ok n)
      × (pending (append (entry 7) log).1
          ≡ pending log
            ++ (record zero_record { offset = n; id = 8; topic = b't' ∷ []; payload = b'p' ∷ [] }
                ∷ []))
      × Queue.IsOpen (append (entry 7) log).1)
    ⊎ ((e : Error) × ((append (entry 7) log).0 ≡ err e) × ((append (entry 7) log).1 ≡ log))
append_pending_example = append_pending (entry 7) log log_open (omega arith)

uncommitted_count-pending_example : Memory.uncommitted_count log ≡ (ok 2, log)
uncommitted_count-pending_example = uncommitted_count-pending log log_open

new-IsOpen_example :
    Queue.IsOpen (new_memory_storage_engine 5) × (pending (new_memory_storage_engine 5) ≡ [])
new-IsOpen_example = new-IsOpen 5

int64n_below : (n : ℕ) → 0 < n → 0 < n
int64n_below n h = h

calculate_next_backoff_bounds_example :
    (0 < initial_of default_config)
    × (initial_of default_config
        ≤ calculate_next_backoff default_config (λ n. 0) (30 * millisecond))
    × (calculate_next_backoff default_config (λ n. 0) (30 * millisecond) ≤ max_of default_config)
    × (max_of default_config ≤ max_int)
    × (initial_of default_config ≤ 30 * millisecond
        → 3 * (30 * millisecond) ≤ max_int
        → calculate_next_backoff default_config (λ n. 0) (30 * millisecond)
          ≤ 3 * (30 * millisecond))
calculate_next_backoff_bounds_example =
    calculate_next_backoff_bounds default_config (λ n. 0) (30 * millisecond) (omega arith)
      (omega arith) (omega arith) int64n_below

abbrev M : StorageEngine
M = memory_storage

keeping_patient :
    (b : List Record) (k : List Record) (x : Error)
    → (keeping.deliver b k).0 ≡ some x
    → is permanent_rejection x ≡ false
keeping_patient b k x h = cc

drain_all-Conserves_example :
    let e' = (drain_all M keeping seeing (quiet ∷ []) spooler).2 in
    (e'.sink ++ pending e'.storage ≡ entry 1 ∷ entry 2 ∷ [])
    × ((drain_all M keeping seeing (quiet ∷ []) spooler).0 ≡ some (ok tt) → pending e'.storage ≡ [])
drain_all-Conserves_example =
    drain_all-Conserves M keeping seeing memory_queue keeping_recorded keeping_patient (quiet ∷ [])
      spooler ready

drain_all_delivers_example :
    let o = drain_all M keeping seeing (quiet ∷ quiet ∷ quiet ∷ []) spooler in
    (o.0 ≡ some (ok tt)) × (pending o.2.storage ≡ []) × (o.2.sink ≡ entry 1 ∷ entry 2 ∷ [])
drain_all_delivers_example =
    drain_all_delivers M keeping seeing memory_queue keeping_recorded (λ b k. refl)
      (quiet ∷ quiet ∷ quiet ∷ []) spooler ready (refl, (refl, (refl, tt))) (omega arith)

enqueue-Enqueues_example :
    Enqueues M keeping seeing memory_queue none 5
      (b'a' ∷ [])
      (b'b' ∷ [])
      spooler
      (enqueue M keeping seeing none 5 (b'a' ∷ []) (b'b' ∷ []) spooler)
enqueue-Enqueues_example =
    enqueue-Enqueues M keeping seeing memory_queue 5 (b'a' ∷ []) (b'b' ∷ []) spooler log_open
      (omega arith) none

abbrev ticking : Event
ticking = record { stopping = false; at_hand = none; sleep = tick; int64n = λ n. 0 }

run_dispatcher-Conserves_example :
    let d =
      run_dispatcher M keeping seeing
        (ticking ∷ ticking ∷ [])
        (record { engine = spooler; backoff = 0; running = true; acks = [] }) in
    d.engine.sink ++ pending d.engine.storage ≡ entry 1 ∷ entry 2 ∷ []
run_dispatcher-Conserves_example =
    run_dispatcher-Conserves M keeping seeing memory_queue keeping_recorded keeping_patient
      (ticking ∷ ticking ∷ []) (record { engine = spooler; backoff = 0; running = true; acks = [] })
      ready
