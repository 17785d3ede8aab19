-- ===== src/Engine/Enqueue.antt =====
-- `Enqueue`: what a call that succeeds or fails has done.
use walspool.Base.{
  ℕ, ◌≡◌, ◌≢◌, inl, inr, refl, true, false, List, [], ◌∷◌, ◌++◌, Option, none, some, map, length,
  arith, Bytes, if_cases, Option-cases, add64, slt,
}
use walspool.Errors.{Error, Result, ok, err}
use walspool.Record.{Record, zero_record}
use walspool.Ports.{StorageEngine, Sink, IngestionObserver, IsQueue}
use walspool.Engine.{Engine, check_arguments, new_record, after_append, store, enqueue}

module _ (S : StorageEngine) (K : Sink) (O : IngestionObserver) (Q : IsQueue S) where
  abbrev pend : Engine S K O → List Record
  pend e = Q.pending e.storage

  -- The record that a call stores, with the offset `n` that the storage gave it.
  abbrev pub stored : ℕ → ℕ → Bytes → Bytes → Engine S K O → Record
  stored n now topic payload e = record zero_record {
    offset = n;
    id = add64 e.id_counter 1;
    timestamp = now;
    topic = topic;
    payload = payload;
  }

  -- What a call has done, by its answer.
  abbrev pub Enqueues :
      Option Error → ℕ → Bytes → Bytes → Engine S K O → Result (Unit {0}) × Engine S K O → Type 0
  Enqueues c now topic payload e (ok u, e') =
      (c ≡ none)
      × (topic ≢ [])
      × (payload ≢ [])
      × (slt e.cfg.max_payload_size (length payload) ≡ false)
      × (e.closed ≡ false)
      × (e'.id_counter ≡ add64 e.id_counter 1)
      × (e'.notified ≡ true)
      × ((n : ℕ) × (pend e' ≡ pend e ++ (Q.read_back (stored n now topic payload e) ∷ []))
          × (e'.observers ≡ map (O.on_ingested (stored n now topic payload e)) e.observers))
      × Q.IsOpen e'.storage
  Enqueues c now topic payload e (err x, e') =
      (e'.storage ≡ e.storage) × (e'.observers ≡ e.observers) × (e'.notified ≡ e.notified)

  good_arguments :
      (topic payload : Bytes) (e : Engine S K O)
      → check_arguments S K O none topic payload e ≡ none
      → (topic ≢ []) × (payload ≢ []) × (slt e.cfg.max_payload_size (length payload) ≡ false)
  unfolding check_arguments
  good_arguments [] payload e h = absurd (cc)
  good_arguments (x ∷ topic) [] e h = absurd (ground arith)
  good_arguments (x ∷ topic) (y ∷ payload) e h = (λ q. cc, λ q. cc, ground arith)

  module _ (now : ℕ) (topic payload : Bytes) (e : Engine S K O) (open' : Q.IsOpen e.storage)
      (room : Q.HasRoom (new_record S K O now topic payload e) e.storage) where
    store-Enqueues :
        check_arguments S K O none topic payload e ≡ none
        → e.closed ≡ false
        → Enqueues none now topic payload e (store S K O (new_record S K O now topic payload e) e)
    unfolding store after_append new_record
    store-Enqueues h live =
        elim (Q.append_pending (new_record S K O now topic payload e) e.storage open' room) [
          | inl (n, answer, queued, o) ↦
              let (t, p, l) = good_arguments topic payload e h in
              rw answer (refl, t, p, l, live, refl, refl, (n, queued, refl), o)
          | inr (x, answer, same) ↦ rw answer (same, refl, refl)
        ]

    -- A call of `Enqueue` over an open queue with room, on any context, topic and payload. If it
    -- succeeds, the context was live, topic and payload not empty, the payload within its limit and
    -- the spooler not closed; one record, numbered one higher than the counter was, stands behind
    -- all pending ones, as a read gives it, every observer has seen it with its offset, and the
    -- dispatcher is notified. If it fails, the storage, the observers and the notification are as before.
    pub enqueue-Enqueues :
        (c : Option Error) → Enqueues c now topic payload e (enqueue S K O c now topic payload e)
    unfolding enqueue
    enqueue-Enqueues (some x) = unfold check_arguments in (refl, refl, refl)
    enqueue-Enqueues none = elim (Option-cases (check_arguments S K O none topic payload e)) [
      | inl h ↦ rw h (
          if_cases (Enqueues none now topic payload e) e.closed (λ shut. (refl, refl, refl))
            (λ live. store-Enqueues h live))
      | inr (x, h) ↦ rw h (refl, refl, refl)
    ]
