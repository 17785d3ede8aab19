-- ===== src/Engine/Flush.antt =====
-- `drainAll`: what is pending reaches the sink, whole and in order.
use mathlib.Core.List.{append_assoc, append-nil}
use walspool.Base.{
  ℕ, ◌<◌, ◌≡◌, ◌≢◌, inl, inr, refl, sym, ap, ◌∙◌, Bool, true, false, List, [], ◌∷◌, ◌++◌, Option,
  none, some, length, arith, Bool-cases, All, length-append,
}
use walspool.Errors.{Error, Result, ok, err, is, is_transient, permanent_rejection}
use walspool.Record.{Record}
use walspool.Ports.{StorageEngine, Sink, IngestionObserver, IsQueue, IsRecorded}
use walspool.Engine.{
  Engine, Turn, Wake, stopped, done, timer, Outcome, drain_pending_batches, drain_round, back_off,
  drain_loop, drain_all,
}
use walspool.Engine.Drain.{pending, taken, IsReady, Drains, drain-Drains, cfg-drain}

module _ (S : StorageEngine) (K : Sink) (O : IngestionObserver) (Q : IsQueue S)
    (R : IsRecorded K) where
  abbrev pub pend : Engine S K O → List Record
  pend = pending S K O Q R

  abbrev pub took : Engine S K O → List Record
  took = taken S K O Q R

  abbrev pub Ready : Engine S K O → Type 0
  Ready = IsReady S K O Q R

  -- The sink's errors are never permanent rejections.
  abbrev pub IsPatient : Type 0
  IsPatient =
      (b : List Record) (k : K.State) (x : Error)
      → (K.deliver b k).0 ≡ some x
      → is permanent_rejection x ≡ false

  -- What a drain or a loop leaves of the records of `e`.
  abbrev pub Conserves : Engine S K O → Engine S K O → Type 0
  Conserves e e' = took e' ++ pend e' ≡ took e ++ pend e

  abbrev pub Before : Engine S K O → Result Bool × Engine S K O → Type 0
  Before e p = Conserves e p.1 × Ready p.1 × (p.0 ≡ ok false → pend p.1 ≡ [])

  Ready-after :
      (c : Option Error) (e : Engine S K O)
      → Ready e
      → Q.IsOpen (drain_pending_batches S K O c e).1.storage
      → Ready (drain_pending_batches S K O c e).1
  Ready-after c e r o = record {
    is_open = o;
    batch_pos = rw (cfg-drain S K O Q R c e) r.batch_pos;
    batch_small = rw (cfg-drain S K O Q R c e) r.batch_small;
  }

  Drains-Conserves :
      IsPatient
      → (e : Engine S K O) (p : Result Bool × Engine S K O) → Drains S K O Q R e p
      → Conserves e p.1 × Q.IsOpen p.1.storage × (p.0 ≡ ok false → pend p.1 ≡ [])
  Drains-Conserves patient e (ok true, e') (b, ne, front, inl (ans, tk), o) =
      (rw (tk, front) (append_assoc (took e) b (pend e')), o, λ h. cc)
  Drains-Conserves patient e (ok true, e') (b, ne, front, inr (x, ans, h, tk), o) =
      absurd (cc (patient b e.sink x ans))
  Drains-Conserves patient e (ok false, e') (none_left, rest, tk, o) =
      (rw (tk, rest, none_left) refl, o, λ h. rest)
  Drains-Conserves patient e (err x, e') (b, ans, h, still, tk, o) =
      (rw (tk, still) refl, o, λ h. cc)

  pub drain-Before :
      IsPatient
      → (c : Option Error) (e : Engine S K O) → Ready e
      → Before e (drain_pending_batches S K O c e)
  drain-Before patient (some x) e r = unfold drain_pending_batches in (refl, r, λ h. cc)
  drain-Before patient none e r =
      let (c, o, f) = Drains-Conserves patient e _ (drain-Drains S K O Q R e r) in
      (c, Ready-after none e r o, f)

  abbrev After : Engine S K O → Outcome S K O → Type 0
  After e o = Conserves e o.2 × Ready o.2 × (o.0 ≡ some (ok tt) → pend o.2 ≡ [])

  round-After :
      (again : ℕ → Engine S K O → Outcome S K O)
      → ((b : ℕ) (e : Engine S K O) → Ready e → After e (again b e))
      → (t : Turn) (b : ℕ) (e : Engine S K O) (p : Result Bool × Engine S K O) → Before e p
      → After e (drain_round S K O again t b p)
  unfolding drain_round
  round-After again rest t b e (ok true, e') (c, r, f) =
      let (c', r', g) = rest e'.cfg.initial_backoff e' r in (c' ∙ c, r', g)
  round-After again rest t b e (ok false, e') (c, r, f) = (c, r, λ h. f refl)
  round-After again rest t b e (err x, e') (c, r, f) = elim (Bool-cases (is_transient x)) [
    | inl h ↦ rw h (sleeps t.wake)
    | inr h ↦ rw h (c, r, λ h. cc)
  ]
    where
      sleeps : (w : Wake) → After e (back_off S K O again t b w e')
      sleeps stopped = unfold back_off in (c, r, λ h. cc)
      sleeps (done y) = unfold back_off in (c, r, λ h. cc)
      sleeps timer = unfold back_off in let (c', r', g) = rest _ e' r in (c' ∙ c, r', g)

  loop-After :
      IsPatient
      → (ts : List Turn) (b : ℕ) (e : Engine S K O) → Ready e
      → After e (drain_loop S K O ts b e)
  unfolding drain_loop
  loop-After patient [] b e r = (refl, r, λ h. cc)
  loop-After patient (t ∷ ts) b e r =
      round-After (drain_loop S K O ts) (loop-After patient ts) t b e _
        (drain-Before patient t.ctx_err e r)

  -- Over a queue and a sink that never rejects permanently, `drainAll` loses, repeats and reorders
  -- no record, however its rounds go: what the sink has taken, followed by what is pending, is the
  -- same list before and after. Where it returns no error, nothing is pending.
  pub drain_all-Conserves :
      IsPatient
      → (ts : List Turn) (e : Engine S K O) → Ready e
      → Conserves e (drain_all S K O ts e).2
        × ((drain_all S K O ts e).0 ≡ some (ok tt) → pend (drain_all S K O ts e).2 ≡ [])
  unfolding drain_all
  drain_all-Conserves patient ts e r =
      let (c, r', f) = loop-After patient ts e.cfg.initial_backoff e r in (c, f)

  pub drain_all-IsReady :
      IsPatient → (ts : List Turn) (e : Engine S K O) → Ready e → Ready (drain_all S K O ts e).2
  unfolding drain_all
  drain_all-IsReady patient ts e r = (loop-After patient ts e.cfg.initial_backoff e r).1

  -- The sink takes every batch.
  abbrev pub IsWilling : Type 0
  IsWilling = (b : List Record) (k : K.State) → (K.deliver b k).0 ≡ none

  -- No round finds its context ended.
  abbrev pub IsLive : List Turn → Type 0
  IsLive = All (λ t. t.ctx_err ≡ none)

  length-nonempty : (b : List Record) → b ≢ [] → 0 < length b
  length-nonempty [] h = absurd (h refl)
  length-nonempty (x ∷ b) h = omega arith

  willing-IsPatient : IsWilling → IsPatient
  willing-IsPatient willing b k x h = absurd (cc (willing b k))

  abbrev Finishes : Outcome S K O → Type 0
  Finishes o = o.0 ≡ some (ok tt)

  round-Finishes :
      IsWilling
      → (again : ℕ → Engine S K O → Outcome S K O) → (e : Engine S K O)
      → ((b : ℕ) (e' : Engine S K O)
          → Q.IsOpen e'.storage
          → e'.cfg ≡ e.cfg
          → length (pend e') < length (pend e)
          → Finishes (again b e'))
      → (t : Turn) (b : ℕ) (p : Result Bool × Engine S K O) → p.1.cfg ≡ e.cfg
      → Drains S K O Q R e p
      → Finishes (drain_round S K O again t b p)
  unfolding drain_round
  round-Finishes willing again e rest t b (ok true, e') same (l, ne, front, answered, o) =
      rest e'.cfg.initial_backoff e' o same
        (omega (arith, ap length front, length-append l (pend e'), length-nonempty l ne))
  round-Finishes willing again e rest t b (ok false, e') same d = refl
  round-Finishes willing again e rest t b (err x, e') same (l, ans, h, still, tk, o) =
      absurd (cc (willing l e.sink))

  loop-Finishes :
      IsWilling
      → (ts : List Turn) (b : ℕ) (e : Engine S K O) → Ready e
      → IsLive ts
      → length (pend e) < length ts
      → Finishes (drain_loop S K O ts b e)
  unfolding drain_loop
  loop-Finishes willing [] b e r live h = absurd (omega arith)
  loop-Finishes willing (t ∷ ts) b e r live h = rw (live.0) (
      round-Finishes willing (drain_loop S K O ts) e
        (λ b' e' o same less.
          loop-Finishes willing ts b' e'
            (record {
              is_open = o;
              batch_pos = rw same r.batch_pos;
              batch_small = rw same r.batch_small;
            })
            live.1 (omega arith))
        t b _ (cfg-drain S K O Q R none e) (drain-Drains S K O Q R e r))

  -- With a sink that takes every batch, and with one round more than there are pending records,
  -- none of which finds its context ended, `drainAll` returns without an error; it has then handed
  -- the sink exactly the pending records, in order, and nothing is pending.
  pub drain_all_delivers :
      IsWilling
      → (ts : List Turn) (e : Engine S K O) → Ready e
      → IsLive ts
      → length (pend e) < length ts
      → ((drain_all S K O ts e).0 ≡ some (ok tt))
        × (pend (drain_all S K O ts e).2 ≡ [])
        × (took (drain_all S K O ts e).2 ≡ took e ++ pend e)
  unfolding drain_all
  drain_all_delivers willing ts e r live h =
      let fin = loop-Finishes willing ts e.cfg.initial_backoff e r live h in
      let (kept, r', emptied) =
        loop-After (willing-IsPatient willing) ts e.cfg.initial_backoff e r in
      let none_left = emptied fin in (fin, none_left, sym (append-nil _) ∙ (rw none_left at kept))
