-- ===== src/Sidecar/Batch/Handles.antt =====
-- A batch is taken as a whole or not at all, unless the spooler fails.
use mathlib.Core.Path.{subst}
use walspool.Base.{
  ℕ, ◌+◌, ◌≡◌, refl, sym, ap, ◌⊎◌, inl, inr, Bool, true, false, not, ◌&&◌, ◌==◌, ltb, leb, List, [],
  ◌∷◌, ◌++◌, Option, none, some, length, map, arith, if_cases,
}
use walspool.Errors.{Error}
use walspool.Sidecar.Batch.{
  Spooler, Json, EnqueueRequest, PreparedBatchItem, Body, over_limit, bad_json, decoded, Request,
  Problem, Response, ok_enqueued, SidecarServer, max_batch_size, item_problem, prepared_item,
  after_item, prepare, with_item, failure, after_enqueue, ingest_items, total_bytes,
  ingest_prepared, handle_body, handle_enqueue_batch,
}

module _ (J : Json) (q : Request) (S : Spooler) where
  -- The items went to the spooler one after another, each was taken and is with_item.
  pub data Takes : List PreparedBatchItem → SidecarServer S → SidecarServer S → Type 0 where
    none_left : {s : SidecarServer S} → Takes [] s s
    takes :
        {x : PreparedBatchItem} {xs : List PreparedBatchItem} {s t : SidecarServer S}
        {spooler : S.State}
        → S.enqueue x.topic x.payload s.spooler ≡ (none, spooler)
        → Takes xs (with_item J q S x spooler s) t
        → Takes (x ∷ xs) s t

  -- No item is at fault.
  abbrev pub are_valid : List EnqueueRequest → Bool
  are_valid [] = true
  are_valid (item ∷ batch) = elim (item_problem J q item) [
    | none ↦ are_valid batch
    | some p ↦ false
  ]

  abbrev pub accepts_body : Body → Bool
  accepts_body over_limit = false
  accepts_body bad_json = false
  accepts_body (decoded batch) =
      (ltb 0 (length batch) && leb (length batch) 1000) && are_valid batch

  -- Whether the request is in order.
  abbrev pub accepts : SidecarServer S → Bool
  accepts s = (q.is_post && not s.is_shutting_down) && accepts_body q.body

  abbrev pub items : Body → List PreparedBatchItem
  items over_limit = []
  items bad_json = []
  items (decoded batch) = map (prepared_item J q) batch

  -- Nothing is changed; or all items are taken; or those before one that the spooler refuses.
  pub data Outcome (accepted : Bool) (xs : List PreparedBatchItem) (s : SidecarServer S)
      : Response × SidecarServer S → Type 0 where
    refused : {r : Response} → accepted ≡ false → Outcome accepted xs s (r, s)
    stored :
        {t : SidecarServer S} {n : ℕ}
        → accepted ≡ true
        → n ≡ length xs
        → Takes xs s t
        → Outcome accepted xs s (ok_enqueued n (total_bytes J q S xs), t)
    stopped :
        {t : SidecarServer S} {n : ℕ} {spooler : S.State} {e : Error} (ys : List PreparedBatchItem)
        (x : PreparedBatchItem) (zs : List PreparedBatchItem)
        → accepted ≡ true
        → n ≡ length ys
        → xs ≡ ys ++ (x ∷ zs)
        → Takes ys s t
        → S.enqueue x.topic x.payload t.spooler ≡ (some e, spooler)
        → Outcome accepted xs s (failure J q S e n (length xs), record t { spooler = spooler })

  abbrev pub Handles : SidecarServer S → Response × SidecarServer S → Type 0
  Handles s o = Outcome (accepts s) (items q.body) s o

  prepare-cases :
      (i : ℕ) (batch : List EnqueueRequest)
      → ((are_valid batch ≡ true) × (prepare J q i batch ≡ inr (map (prepared_item J q) batch)))
        ⊎ ((are_valid batch ≡ false) × ((r : Response) × (prepare J q i batch ≡ inl r)))
  unfolding prepare
  prepare-cases i [] = inl (refl, refl)
  prepare-cases i (item ∷ batch) = by (item_problem J q item) (prepare-cases (i + 1) batch)
    where
      Cases : Bool → Response ⊎ List PreparedBatchItem → Type 0
      Cases v o =
          ((v ≡ true) × (o ≡ inr (map (prepared_item J q) (item ∷ batch))))
          ⊎ ((v ≡ false) × ((r : Response) × (o ≡ inl r)))

      by :
          (o : Option Problem)
          → ((are_valid batch ≡ true)
              × (prepare J q (i + 1) batch ≡ inr (map (prepared_item J q) batch)))
            ⊎ ((are_valid batch ≡ false) × ((r : Response) × (prepare J q (i + 1) batch ≡ inl r)))
          → Cases
              (elim o [ none ↦ are_valid batch | some p ↦ false ])
              (after_item J q i (prepared_item J q item) o (prepare J q (i + 1) batch))
      by (some p) c = inr (refl, (_, refl))
      by none (inl (v, e)) = inl (v, ap (after_item J q i (prepared_item J q item) none) e)
      by none (inr (v, (r, e))) =
          inr (v, (r, ap (after_item J q i (prepared_item J q item) none) e))

  -- What the second phase does to the items, of `total`, behind the first k.
  data Ingests (k total size : ℕ) (xs : List PreparedBatchItem) (s : SidecarServer S)
      : Response × SidecarServer S → Type 0 where
    all_taken :
        {t : SidecarServer S} {n : ℕ}
        → n ≡ k + length xs
        → Takes xs s t
        → Ingests k total size xs s (ok_enqueued n size, t)
    fails_at :
        {t : SidecarServer S} {n : ℕ} {spooler : S.State} {e : Error} (ys : List PreparedBatchItem)
        (x : PreparedBatchItem) (zs : List PreparedBatchItem)
        → n ≡ k + length ys
        → xs ≡ ys ++ (x ∷ zs)
        → Takes ys s t
        → S.enqueue x.topic x.payload t.spooler ≡ (some e, spooler)
        → Ingests k total size xs s (failure J q S e n total, record t { spooler = spooler })

  later :
      (k total size : ℕ) (x : PreparedBatchItem) (xs : List PreparedBatchItem) (s : SidecarServer S)
      (spooler : S.State) (o : Response × SidecarServer S)
      → S.enqueue x.topic x.payload s.spooler ≡ (none, spooler)
      → Ingests (k + 1) total size xs (with_item J q S x spooler s) o
      → Ingests k total size (x ∷ xs) s o
  later k total size x xs s spooler _ e (all_taken n h) = all_taken (omega (arith, n)) (takes e h)
  later k total size x xs s spooler _ e (fails_at ys y zs n split h f) =
      fails_at (x ∷ ys) y zs (omega (arith, n)) (ap (◌∷◌ x) split) (takes e h) f

  ingest_items-Ingests :
      (k total size : ℕ) (xs : List PreparedBatchItem) (s : SidecarServer S)
      → Ingests k total size xs s (ingest_items J q S k total size xs s)
  unfolding ingest_items
  ingest_items-Ingests k total size [] s = all_taken (omega arith) none_left
  ingest_items-Ingests k total size (x ∷ xs) s =
      by (λ t. ingest_items-Ingests (k + 1) total size xs t) (S.enqueue x.topic x.payload s.spooler)
        refl
    where
      by :
          ((t : SidecarServer S)
            → Ingests (k + 1) total size xs t (ingest_items J q S (k + 1) total size xs t))
          → (o : Option Error × S.State) → S.enqueue x.topic x.payload s.spooler ≡ o
          → Ingests k total size
              (x ∷ xs)
              s
              (after_enqueue J q S (λ t. ingest_items J q S (k + 1) total size xs t) k total x s o)
      by rest (none, spooler) e =
          later k total size x xs s spooler _ e (rest (with_item J q S x spooler s))
      by rest (some f, spooler) e = fails_at [] x xs (omega arith) refl none_left e

  ingested-Outcome :
      (xs : List PreparedBatchItem) (s : SidecarServer S) (o : Response × SidecarServer S)
      (accepted : Bool)
      → accepted ≡ true
      → Ingests 0 (length xs) (total_bytes J q S xs) xs s o
      → Outcome accepted xs s o
  ingested-Outcome xs s _ accepted a (all_taken n h) = stored a (omega (arith, n)) h
  ingested-Outcome xs s _ accepted a (fails_at ys x zs n split h f) =
      stopped ys x zs a (omega (arith, n)) split h f

  prepared-Outcome :
      (batch : List EnqueueRequest) (s : SidecarServer S) (fits : Bool)
      → fits ≡ true
      → Outcome
          (fits && are_valid batch)
          (map (prepared_item J q) batch)
          s
          (ingest_prepared J q S s (prepare J q 0 batch))
  prepared-Outcome batch s fits f = elim (prepare-cases 0 batch) [
    | inl (v, e) ↦
        subst (λ o. Outcome (fits && are_valid batch) xs s (ingest_prepared J q S s o)) (sym e)
          (ingested-Outcome xs s _ _ (rw (f, v) refl)
            (ingest_items-Ingests 0 (length xs) (total_bytes J q S xs) xs s))
    | inr (v, (r, e)) ↦
        subst (λ o. Outcome (fits && are_valid batch) xs s (ingest_prepared J q S s o)) (sym e)
          (refused (rw (f, v) refl))
  ]
    where
      xs : List PreparedBatchItem
      xs = map (prepared_item J q) batch

  handle_body-Outcome :
      (b : Body) (s : SidecarServer S)
      → Outcome (accepts_body b) (items b) s (handle_body J q S s b)
  handle_body-Outcome over_limit s = refused refl
  handle_body-Outcome bad_json s = refused refl
  handle_body-Outcome (decoded batch) s =
      if_cases P (length batch == 0) (λ h. refused (ground arith))
        (λ some_items.
          if_cases P (ltb max_batch_size (length batch)) (λ h. refused (ground arith))
            (λ fits.
              prepared-Outcome batch s (ltb 0 (length batch) && leb (length batch) 1000)
                (ground arith)))
    where
      P : Response × SidecarServer S → Type 0
      P o = Outcome (accepts_body (decoded batch)) (items (decoded batch)) s o

  -- handleEnqueueBatch, whatever the spooler does: a request that is out of order changes nothing;
  -- of one in order, all items go to the spooler in their order, or those before the first one
  -- that it refuses; the answer says how many were taken, and each of these is with_item.
  pub handle_enqueue_batch-Handles :
      (s : SidecarServer S) → Handles s (handle_enqueue_batch J q S s)
  unfolding handle_enqueue_batch
  handle_enqueue_batch-Handles s =
      if_cases (Handles s) (not q.is_post) (λ h. refused (ground arith))
        (λ post.
          if_cases (Handles s) s.is_shutting_down (λ h. refused (rw h (ground arith)))
            (λ up.
              let live : accepts_body q.body ≡ accepts s = ground arith in
              subst (λ b. Outcome b (items q.body) s (handle_body J q S s q.body)) live
                (handle_body-Outcome q.body s)))
