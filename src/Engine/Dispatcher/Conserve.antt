-- ===== src/Engine/Dispatcher/Conserve.antt =====
-- The dispatcher loses no record, whatever the scheduler does.
use walspool.Base.{ℕ, refl, ◌∙◌, Bool, true, false, List, [], ◌∷◌, Option, none, some, if_cases}
use walspool.Errors.{Result, ok, err}
use walspool.Ports.{StorageEngine, Sink, IngestionObserver, IsQueue, IsRecorded}
use walspool.Engine.{Engine, Turn, drain_all}
use walspool.Engine.Drain.{IsReady}
use walspool.Engine.Flush.{
  IsPatient, Conserves, drain-Before, drain_all-Conserves, drain_all-IsReady,
}
use walspool.Engine.Dispatcher.{
  Event, Sleep, stop, request, notify, tick, Dispatcher, after_sleep, after_drain, after_error,
  dispatch_round, dispatch, run_dispatcher,
}

module _ (S : StorageEngine) (K : Sink) (O : IngestionObserver) (Q : IsQueue S) (R : IsRecorded K)
    (patient : IsPatient S K O Q R) where
  -- The records of `e` are kept, and the engine is ready for the next round.
  abbrev Kept : Engine S K O → Dispatcher S K O → Type 0
  Kept e d = Conserves S K O Q R e d.engine × IsReady S K O Q R d.engine

  drain_all-Kept :
      (e : Engine S K O) (ts : List Turn) (d : Dispatcher S K O)
      → Kept e d
      → Conserves S K O Q R e (drain_all S K O ts d.engine).2
        × IsReady S K O Q R (drain_all S K O ts d.engine).2
  drain_all-Kept e ts d (c, r) =
      let (c', f) = drain_all-Conserves S K O Q R patient ts d.engine r in
      (c' ∙ c, drain_all-IsReady S K O Q R patient ts d.engine r)

  after_sleep-Kept :
      (e : Engine S K O) (sl : Sleep) (d : Dispatcher S K O)
      → Kept e d
      → Kept e (after_sleep S K O sl d)
  unfolding after_sleep
  after_sleep-Kept e (stop ts) d k = drain_all-Kept e ts d k
  after_sleep-Kept e (request ts) d k = drain_all-Kept e ts d k
  after_sleep-Kept e notify d (c, r) =
      (c, record { is_open = r.is_open; batch_pos = r.batch_pos; batch_small = r.batch_small })
  after_sleep-Kept e tick d k = k

  after_drain-Kept :
      (e : Engine S K O) (at_hand : Option (List Turn)) (drained : Bool) (sl : Sleep)
      (d : Dispatcher S K O)
      → Kept e d
      → Kept e (after_drain S K O at_hand drained sl d)
  unfolding after_drain
  after_drain-Kept e (some ts) drained sl d k = drain_all-Kept e ts d k
  after_drain-Kept e none true sl d k = k
  after_drain-Kept e none false sl d k = after_sleep-Kept e sl d k

  after_error-Kept :
      (e : Engine S K O) (stopping : Bool) (int64n : ℕ → ℕ) (d : Dispatcher S K O)
      → Kept e d
      → Kept e (after_error S K O stopping int64n d)
  unfolding after_error
  after_error-Kept e true int64n d k = k
  after_error-Kept e false int64n d k = k

  round-Kept :
      (e : Engine S K O) (ev : Event) (d : Dispatcher S K O) (p : Result Bool × Engine S K O)
      → Conserves S K O Q R e p.1
      → IsReady S K O Q R p.1
      → Kept e (dispatch_round S K O ev d p)
  unfolding dispatch_round
  round-Kept e ev d (err x, e') c r = after_error-Kept e ev.stopping ev.int64n _ (c, r)
  round-Kept e ev d (ok drained, e') c r = after_drain-Kept e ev.at_hand drained ev.sleep _ (c, r)

  dispatch-Kept :
      (ev : Event) (d : Dispatcher S K O)
      → IsReady S K O Q R d.engine
      → Kept d.engine (dispatch S K O ev d)
  unfolding dispatch
  dispatch-Kept ev d r =
      let (c, r', f) = drain-Before S K O Q R patient none d.engine r in
      round-Kept d.engine ev d _ c r'

  -- Over a queue and a sink that never rejects permanently, the dispatcher loses, repeats and
  -- reorders no record, whatever stops, flush requests, failures and wake-ups it meets: what the
  -- sink has taken followed by what is pending stays the same list.
  pub run_dispatcher-Conserves :
      (evs : List Event) (d : Dispatcher S K O)
      → IsReady S K O Q R d.engine
      → Conserves S K O Q R d.engine (run_dispatcher S K O evs d).engine
  unfolding run_dispatcher
  run_dispatcher-Conserves [] d r = refl
  run_dispatcher-Conserves (ev ∷ evs) d r =
      let (c, r') = dispatch-Kept ev d r in
      let rest = run_dispatcher-Conserves evs (dispatch S K O ev d) r' in
      if_cases (λ (d' : Dispatcher S K O). Conserves S K O Q R d.engine d'.engine) d.running
        (λ h. rest ∙ c) (λ h. refl)
