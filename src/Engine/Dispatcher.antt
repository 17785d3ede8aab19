-- ===== src/Engine/Dispatcher.antt =====
-- engine.go: `runDispatcher`, round by round, and the caller's side of `Flush`.
pub mod Conserve
use walspool.Base.{ℕ, Bool, true, false, List, [], ◌∷◌, Option, none, some, if◌then◌else◌}
use walspool.Errors.{Error, sentinel, spooler_closed, Result, ok, err}
use walspool.Ports.{StorageEngine, Sink, IngestionObserver}
use walspool.Engine.{Engine, Turn, Outcome, drain_pending_batches, drain_all}
use walspool.Engine.Backoff.{calculate_next_backoff}

-- The end of the last `select`: the rounds are those of the `drainAll` that it starts.
pub data Sleep : Type 0 where
  stop : List Turn → Sleep
  request : List Turn → Sleep
  notify : Sleep
  tick : Sleep

-- What the scheduler decides in one round: whether `stopCh` or the timer ends the wait after an
-- error, whether a flush request is at hand after a drain, and what ends the sleep.
pub record Event : Type 0 where
  pub stopping : Bool
  pub at_hand : Option (List Turn)
  pub sleep : Sleep
  pub int64n : ℕ → ℕ

-- Where a call of `Flush` waits, and what it gets there.
pub data Wait : Type 0 where
  ctx_done : Error → Wait
  stop_closed : Wait
  through : Wait

module _ (S : StorageEngine) (K : Sink) (O : IngestionObserver) where
  -- `acks` are the answers to flush requests, newest first.
  pub record Dispatcher : Type 0 where
    pub engine : Engine S K O
    pub backoff : ℕ
    pub running : Bool
    pub acks : List (Option (Result (Unit {0})))

  -- `req.ack <- e.drainAll(req.ctx)`
  pub answer : List Turn → Dispatcher → Dispatcher
  answer ts d =
      let (r, delays, e) = drain_all S K O ts d.engine in record d { engine = e; acks = r ∷ d.acks }

  pub after_sleep : Sleep → Dispatcher → Dispatcher
  unfolding answer
  after_sleep (stop ts) d = record d { engine = (drain_all S K O ts d.engine).2; running = false }
  after_sleep (request ts) d = answer ts d
  after_sleep notify d = record d { engine = record d.engine { notified = false } }
  after_sleep tick d = d

  -- After a drain that did not fail.
  pub after_drain : Option (List Turn) → Bool → Sleep → Dispatcher → Dispatcher
  unfolding after_sleep answer
  after_drain (some ts) drained sleep d = answer ts d
  after_drain none true sleep d = d
  after_drain none false sleep d = after_sleep sleep d

  pub after_error : Bool → (ℕ → ℕ) → Dispatcher → Dispatcher
  after_error true int64n d = record d { running = false }
  after_error false int64n d = record d {
    backoff = calculate_next_backoff d.engine.cfg int64n d.backoff;
  }

  pub dispatch_round : Event → Dispatcher → Result Bool × Engine S K O → Dispatcher
  unfolding after_drain after_error
  dispatch_round ev d (err x, e) = after_error ev.stopping ev.int64n (record d { engine = e })
  dispatch_round ev d (ok drained, e) =
      after_drain ev.at_hand drained ev.sleep
        (record d { engine = e; backoff = e.cfg.initial_backoff })

  pub dispatch : Event → Dispatcher → Dispatcher
  unfolding dispatch_round
  dispatch ev d = dispatch_round ev d (drain_pending_batches S K O none d.engine)

  pub run_dispatcher : List Event → Dispatcher → Dispatcher
  unfolding dispatch
  run_dispatcher [] d = d
  run_dispatcher (ev ∷ evs) d =
      let rest = run_dispatcher evs (dispatch ev d) in if d.running then rest else d

  pub start : Engine S K O → Dispatcher
  start e = record { engine = e; backoff = e.cfg.initial_backoff; running = true; acks = [] }

  -- `Flush`: the wait for the dispatcher to take the request, then the wait for its answer.
  pub await : Wait → Result (Unit {0}) → Result (Unit {0})
  await (ctx_done x) r = err x
  await stop_closed r = err (sentinel spooler_closed)
  await through r = r

  pub flush : Option Error → Wait → Wait → Result (Unit {0}) → Engine S K O → Result (Unit {0})
  unfolding await
  flush (some x) send receive ack e = err x
  flush none send receive ack e =
      if e.closed then err (sentinel spooler_closed) else await send (await receive ack)
