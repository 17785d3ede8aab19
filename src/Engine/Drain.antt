-- ===== src/Engine/Drain.antt =====
-- What a drain does to the records that are pending and to those that the sink took.
use mathlib.Core.List.{append_assoc}
use walspool.Base.{
  ℕ, zero, suc, ◌<◌, ◌≤◌, ◌≡◌, ◌≢◌, ◌⊎◌, inl, inr, refl, sym, ap, ◌∙◌, Bool, true, false, List, [],
  ◌∷◌, ◌++◌, Option, none, some, take, drop, arith, max_batch, Bool-cases, take-append-drop,
}
use walspool.Errors.{Error, Result, ok, err, is, permanent_rejection, as_corrupt}
use walspool.Record.{Record}
use walspool.Ports.{StorageEngine, Sink, IngestionObserver, IsQueue, IsRecorded}
use walspool.Engine.{
  Engine, last_offset, commit, checked, after_deliver, after_read_error, after_read,
  drain_pending_batches,
}

-- A batch ends with the record whose offset is committed.
split_last :
    (r : Record) (rs : List Record)
    → (xs : List Record) × (x : Record) × (r ∷ rs ≡ xs ++ (x ∷ [])) × (last_offset r rs ≡ x.offset)
unfolding last_offset
split_last r [] = ([], r, refl, refl)
split_last r (s ∷ rs) = let (xs, x, e, f) = split_last s rs in (r ∷ xs, x, ap (◌∷◌ r) e, f)

take_pos : (k : ℕ) (xs : List Record) → 0 < k → take k xs ≡ [] → xs ≡ []
take_pos zero xs h e = absurd (omega arith)
take_pos (suc k) [] h e = refl
take_pos (suc k) (x ∷ xs) h e = cc

module _ (S : StorageEngine) (K : Sink) (O : IngestionObserver) (Q : IsQueue S)
    (R : IsRecorded K) where
  abbrev pub pending : Engine S K O → List Record
  pending e = Q.pending e.storage

  abbrev pub taken : Engine S K O → List Record
  taken e = R.taken e.sink

  -- The storage is open and the batch size positive.
  pub record IsReady (e : Engine S K O) : Type 0 where
    pub is_open : Q.IsOpen e.storage
    pub batch_pos : 0 < e.cfg.batch_size
    pub batch_small : e.cfg.batch_size ≤ max_batch

  -- What a drain may do, by its answer: a batch goes to the sink and is no longer pending, or is
  -- refused for good and dropped; nothing is pending; or the sink fails and the batch stays.
  abbrev pub Drains : Engine S K O → Result Bool × Engine S K O → Type 0
  Drains e (ok true, e') =
      (b : List Record) × (b ≢ [])
      × (pending e ≡ b ++ pending e')
      × ((((K.deliver b e.sink).0 ≡ none) × (taken e' ≡ taken e ++ b))
          ⊎ ((x : Error) × ((K.deliver b e.sink).0 ≡ some x)
              × (is permanent_rejection x ≡ true)
              × (taken e' ≡ taken e)))
      × Q.IsOpen e'.storage
  Drains e (ok false, e') =
      (pending e ≡ []) × (pending e' ≡ []) × (taken e' ≡ taken e) × Q.IsOpen e'.storage
  Drains e (err x, e') =
      (b : List Record) × ((K.deliver b e.sink).0 ≡ some x)
      × (is permanent_rejection x ≡ false)
      × (pending e' ≡ pending e)
      × (taken e' ≡ taken e)
      × Q.IsOpen e'.storage

  module _ (e : Engine S K O) (open' : Q.IsOpen e.storage) (r : Record) (rs ys : List Record)
      (front : pending e ≡ (r ∷ rs) ++ ys) where
    commits :
        ((commit S K O (last_offset r rs) e).0 ≡ ok tt)
        × (pending (commit S K O (last_offset r rs) e).1 ≡ ys)
        × Q.IsOpen (commit S K O (last_offset r rs) e).1.storage
    unfolding commit
    commits =
        let (xs, x, split, at) = split_last r rs in
        rw at (
          Q.commit_pending e.storage xs x ys open'
            (front ∙ ap (λ l. l ++ ys) split ∙ append_assoc xs (x ∷ []) ys))

  checked_ok :
      (p : Result (Unit {0}) × Engine S K O) → p.0 ≡ ok tt → checked S K O p ≡ (ok true, p.1)
  unfolding checked
  checked_ok (ok tt, e) h = refl
  checked_ok (err x, e) h = cc

  module _ (e : Engine S K O) (open' : Q.IsOpen e.storage) (r : Record) (rs ys : List Record)
      (front : pending e ≡ (r ∷ rs) ++ ys) where
    abbrev answer : Option Error × K.State
    answer = K.deliver (r ∷ rs) e.sink

    -- The engine once the sink has answered.
    abbrev sent : Engine S K O
    sent = record e { sink = answer.1 }

    abbrev committed : Engine S K O
    committed = (commit S K O (last_offset r rs) sent).1

    after_read-deliver :
        after_read S K O (ok (r ∷ rs)) e ≡ after_deliver S K O answer.0 (last_offset r rs) sent
    unfolding after_read
    after_read-deliver = refl

    after_accept : after_deliver S K O none (last_offset r rs) sent ≡ (ok true, committed)
    unfolding after_deliver
    after_accept =
        checked_ok (commit S K O (last_offset r rs) sent) (commits sent open' r rs ys front).0

    after_refuse :
        (x : Error)
        → is permanent_rejection x ≡ true
        → after_deliver S K O (some x) (last_offset r rs) sent ≡ (ok true, committed)
    unfolding after_deliver
    after_refuse x h = rw h

    after_failure :
        (x : Error)
        → is permanent_rejection x ≡ false
        → after_deliver S K O (some x) (last_offset r rs) sent ≡ (err x, sent)
    unfolding after_deliver
    after_failure x h = rw h

    taken-committed : taken committed ≡ R.taken answer.1
    unfolding commit
    taken-committed = refl

    left : pending e ≡ (r ∷ rs) ++ pending committed
    left = front ∙ ap (◌++◌ (r ∷ rs)) (sym (commits sent open' r rs ys front).1)

    still_open : Q.IsOpen committed.storage
    still_open = (commits sent open' r rs ys front).2

    nonempty : r ∷ rs ≢ []
    nonempty h = cc

    after_read-Drains : Drains e (after_read S K O (ok (r ∷ rs)) e)
    after_read-Drains = rw after_read-deliver (elim (R.deliver_taken (r ∷ rs) e.sink) [
      | inl (ans, tk) ↦
          rw (ans, after_accept)
            (r ∷ rs, nonempty, left, inl (ans, taken-committed ∙ tk), still_open)
      | inr (x, ans, tk) ↦ elim (Bool-cases (is permanent_rejection x)) [
        | inl h ↦
            rw (ans, after_refuse x h)
              (r ∷ rs, nonempty, left, inr (x, ans, h, taken-committed ∙ tk), still_open)
        | inr h ↦ rw (ans, after_failure x h) (r ∷ rs, ans, h, refl, tk, open')
      ]
    ])

  after_batch :
      (e : Engine S K O)
      → Q.IsOpen e.storage
      → (l rest : List Record) → l ++ rest ≡ pending e
      → (l ≡ [] → pending e ≡ [])
      → Drains e (after_read S K O (ok l) e)
  after_batch e open' [] rest split none_left =
      unfold after_read in (none_left refl, none_left refl, refl, open')
  after_batch e open' (r ∷ rs) rest split none_left =
      after_read-Drains e open' r rs rest (sym split)

  -- Reading moves the storage, and leaves the pending records as they are.
  moved :
      (e : Engine S K O) (s : S.State) (p : Result Bool × Engine S K O)
      → Q.pending s ≡ pending e
      → Drains (record e { storage = s }) p
      → Drains e p
  moved e s (ok true, e') same (b, ne, front, answered, o) = (b, ne, sym same ∙ front, answered, o)
  moved e s (ok false, e') same (none_left, rest, tk, o) = (sym same ∙ none_left, rest, tk, o)
  moved e s (err x, e') same (b, ans, h, still, tk, o) = (b, ans, h, still ∙ same, tk, o)

  pub drain-Drains : (e : Engine S K O) → IsReady e → Drains e (drain_pending_batches S K O none e)
  unfolding drain_pending_batches
  drain-Drains e ready =
      let ((k, pos, small, answer), same, still) =
        Q.read_pending e.cfg.batch_size e.storage ready.batch_pos ready.batch_small ready.is_open in
      rw answer (
        moved e (S.read_batch e.cfg.batch_size e.storage).1 _ same (
          after_batch (record e { storage = (S.read_batch e.cfg.batch_size e.storage).1 }) still
            (take k (pending e)) (drop k (pending e)) (take-append-drop k (pending e) ∙ sym same)
            (λ h. same ∙ take_pos k (pending e) pos h)))

  cfg-commit : (offset : ℕ) (e : Engine S K O) → (commit S K O offset e).1.cfg ≡ e.cfg
  unfolding commit
  cfg-commit offset e = refl

  cfg-checked : (p : Result (Unit {0}) × Engine S K O) → (checked S K O p).1.cfg ≡ p.1.cfg
  unfolding checked
  cfg-checked (ok tt, e) = refl
  cfg-checked (err x, e) = refl

  cfg-after_deliver :
      (a : Option Error) (offset : ℕ) (e : Engine S K O)
      → (after_deliver S K O a offset e).1.cfg ≡ e.cfg
  unfolding after_deliver
  cfg-after_deliver none offset e = cfg-checked (commit S K O offset e) ∙ cfg-commit offset e
  cfg-after_deliver (some x) offset e = elim (Bool-cases (is permanent_rejection x)) [
    | inl h ↦ rw h (cfg-commit offset e)
    | inr h ↦ rw h
  ]

  cfg-after_read :
      (r : Result (List Record)) (e : Engine S K O) → (after_read S K O r e).1.cfg ≡ e.cfg
  unfolding after_read
  cfg-after_read (err x) e = skip (as_corrupt x)
    where
      skip : (o : Option ℕ) → (after_read_error S K O x o e).1.cfg ≡ e.cfg
      skip none = unfold after_read_error in refl
      skip (some n) = unfold after_read_error in cfg-checked (commit S K O n e) ∙ cfg-commit n e
  cfg-after_read (ok []) e = refl
  cfg-after_read (ok (r ∷ rs)) e = cfg-after_deliver _ (last_offset r rs) _

  pub cfg-drain :
      (c : Option Error) (e : Engine S K O) → (drain_pending_batches S K O c e).1.cfg ≡ e.cfg
  unfolding drain_pending_batches
  cfg-drain (some x) e = refl
  cfg-drain none e = cfg-after_read _ _
