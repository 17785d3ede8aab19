-- ===== src/Engine.antt =====
-- engine.go: the spooler. What the scheduler, the clock and the contexts decide is an argument.
pub mod Settings
pub mod Backoff
mod Tests
pub mod Drain
pub mod Dispatcher
pub mod Enqueue
pub mod Flush
use walspool.Base.{
  ℕ, Bool, true, false, ◌||◌, List, [], ◌∷◌, Option, none, some, map, Bytes, length, if◌then◌else◌,
  ◌==◌, add64, slt,
}
use walspool.Errors.{
  Error, sentinel, wrap, precondition_violated, spooler_closed, permanent_rejection, Result, ok,
  err, is, is_transient, as_corrupt,
}
use walspool.Record.{Record, zero_record}
use walspool.Ports.{StorageEngine, Sink, IngestionObserver}
use Settings.{Config, with_defaults}
use Backoff.{calculate_next_backoff}

-- The end of the `select` after a failed drain: `stopCh`, `ctx.Done()` or the timer.
pub data Wake : Type 0 where
  stopped : Wake
  done : Error → Wake
  timer : Wake

-- One round of a draining loop: what `ctx.Err()` says as it begins, what ends its sleep, and what
-- the random source draws for the next delay.
pub record Turn : Type 0 where
  pub ctx_err : Option Error
  pub wake : Wake
  pub int64n : ℕ → ℕ

-- The offset of the last record of a batch.
unfoldable pub last_offset : Record → List Record → ℕ
last_offset r [] = r.offset
last_offset r (x ∷ xs) = last_offset x xs

module _ (S : StorageEngine) (K : Sink) (O : IngestionObserver) where
  pub record Engine : Type 0 where
    pub cfg : Config
    pub storage : S.State
    pub sink : K.State
    pub observers : List O.State
    pub id_counter : ℕ
    pub notified : Bool
    pub closed : Bool

  -- The engine that `New` builds; the options have chosen the observers. The counter resumes at
  -- the storage's highest ID, where it reports one.
  pub new : Config → S.State → K.State → List O.State → Engine
  new cfg storage sink observers = record {
    cfg = with_defaults cfg;
    storage = storage;
    sink = sink;
    observers = observers;
    id_counter = elim S.last_id [ none ↦ 0 | some last_id ↦ last_id storage ];
    notified = false;
    closed = false;
  }

  -- `commit` to the storage.
  pub commit : ℕ → Engine → Result (Unit {0}) × Engine
  commit offset e = let (r, s) = S.commit offset e.storage in (r, record e { storage = s })

  -- A commit whose error ends the drain.
  pub checked : Result (Unit {0}) × Engine → Result Bool × Engine
  checked (ok u, e) = (ok true, e)
  checked (err x, e) = (err x, e)

  -- What follows the sink's answer on a batch that ends at `offset`.
  pub after_deliver : Option Error → ℕ → Engine → Result Bool × Engine
  unfolding commit checked
  after_deliver none offset e = checked (commit offset e)
  after_deliver (some x) offset e =
      if is permanent_rejection x then (ok true, (commit offset e).1) else (err x, e)

  -- What follows an error of `ReadBatch`: a corrupt record is skipped, alone.
  pub after_read_error : Error → Option ℕ → Engine → Result Bool × Engine
  unfolding commit checked
  after_read_error x (some offset) e = checked (commit offset e)
  after_read_error x none e = (err x, e)

  pub after_read : Result (List Record) → Engine → Result Bool × Engine
  unfolding after_deliver after_read_error
  after_read (err x) e = after_read_error x (as_corrupt x) e
  after_read (ok []) e = (ok false, e)
  after_read (ok (r ∷ rs)) e =
      let (answer, k) = K.deliver (r ∷ rs) e.sink in
      after_deliver answer (last_offset r rs) (record e { sink = k })

  -- One batch: read, deliver, commit.
  pub drain_pending_batches : Option Error → Engine → Result Bool × Engine
  unfolding after_read
  drain_pending_batches (some x) e = (err x, e)
  drain_pending_batches none e =
      let (r, s) = S.read_batch e.cfg.batch_size e.storage in
      after_read r (record e { storage = s })

  -- The outcome of a loop (`none` while its rounds have not ended it), the delays that it armed
  -- its timer with, and the engine.
  abbrev pub Outcome : Type 0
  Outcome = Option (Result (Unit {0})) × List ℕ × Engine

  abbrev slept : ℕ → Outcome → Outcome
  slept delay (o, delays, e) = (o, delay ∷ delays, e)

  -- The `select` after a transient failure; `again` is the rest of the loop.
  pub back_off : (ℕ → Engine → Outcome) → Turn → ℕ → Wake → Engine → Outcome
  back_off again t backoff stopped e = (some (err (sentinel spooler_closed)), backoff ∷ [], e)
  back_off again t backoff (done x) e = (some (err x), backoff ∷ [], e)
  back_off again t backoff timer e =
      slept backoff (again (calculate_next_backoff e.cfg t.int64n backoff) e)

  -- The body of the loop of `drainAll`, behind the drain.
  pub drain_round : (ℕ → Engine → Outcome) → Turn → ℕ → Result Bool × Engine → Outcome
  unfolding back_off
  drain_round again t backoff (err x, e) =
      if is_transient x then back_off again t backoff t.wake e else (some (err x), [], e)
  drain_round again t backoff (ok false, e) = (some (ok tt), [], e)
  drain_round again t backoff (ok true, e) = again e.cfg.initial_backoff e

  pub drain_loop : List Turn → ℕ → Engine → Outcome
  unfolding drain_round drain_pending_batches
  drain_loop [] backoff e = (none, [], e)
  drain_loop (t ∷ ts) backoff e =
      drain_round (drain_loop ts) t backoff (drain_pending_batches t.ctx_err e)

  pub drain_all : List Turn → Engine → Outcome
  unfolding drain_loop
  drain_all ts e = drain_loop ts e.cfg.initial_backoff e

  -- The checks of `Enqueue` on its arguments.
  pub check_arguments : Option Error → Bytes → Bytes → Engine → Option Error
  check_arguments (some x) topic payload e = some x
  check_arguments none topic payload e =
      if length topic == 0 || (length payload == 0 || slt e.cfg.max_payload_size (length payload))
      then some (wrap (sentinel precondition_violated))
      else none

  -- The record that `Enqueue` stores, numbered by the counter's next value.
  pub new_record : ℕ → Bytes → Bytes → Engine → Record
  new_record now topic payload e = record zero_record {
    id = add64 e.id_counter 1;
    timestamp = now;
    topic = topic;
    payload = payload;
  }

  -- The counter moves before the append, and stays moved if that fails. Observers see the record
  -- with its offset, and the dispatcher is notified.
  pub after_append : Record → Result ℕ → Engine → Result (Unit {0}) × Engine
  after_append rec (err x) e = (err x, e)
  after_append rec (ok offset) e = (
    ok tt,
    record e {
      observers = map (O.on_ingested (record rec { offset = offset })) e.observers;
      notified = true;
    },
  )

  pub store : Record → Engine → Result (Unit {0}) × Engine
  unfolding after_append
  store rec e =
      let (r, s) = S.append rec e.storage in
      after_append rec r (record e { storage = s; id_counter = rec.id })

  -- What follows the checks.
  pub admit : Option Error → ℕ → Bytes → Bytes → Engine → Result (Unit {0}) × Engine
  admit (some x) now topic payload e = (err x, e)
  admit none now topic payload e =
      if e.closed
      then (err (sentinel spooler_closed), e)
      else store (new_record now topic payload e) e

  pub enqueue : Option Error → ℕ → Bytes → Bytes → Engine → Result (Unit {0}) × Engine
  unfolding admit
  enqueue ctx_err now topic payload e =
      admit (check_arguments ctx_err topic payload e) now topic payload e

  -- `Close`: the first call ends the dispatcher, which may drain for a while (`shutdown`), and
  -- then closes the storage; a later one does nothing.
  pub close : (Engine → Engine) → Engine → Result (Unit {0}) × Engine
  close shutdown e =
      let e' = shutdown (record e { closed = true }) in
      let (r, s) = S.close e'.storage in
      if e.closed then (ok tt, e) else (r, record e' { storage = s })
