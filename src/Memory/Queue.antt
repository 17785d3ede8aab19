-- ===== src/Memory/Queue.antt =====
-- The in-memory engine keeps the promises of `StorageEngine`.
use walspool.Base.{
  ℕ, zero, suc, ◌+◌, ◌-◌, ◌<◌, ◌≤◌, ◌≡◌, ◌⊎◌, inl, inr, refl, sym, ap, ◌∙◌, true, false, List, [],
  ◌∷◌, ◌++◌, length, take, drop, arith, min, max_batch, max_log, drop_past, drop_front, take-min,
  add64, sub64, slt, sle, ltb, Bool-cases, length-append, length-drop, drop_all, take_all,
  drop-drop,
}
use walspool.Errors.{Error, ok, err, sentinel, spool_full}
use walspool.Record.{Record}
use walspool.Ports.{IsQueue}
use walspool.Memory.{
  MemoryStorageEngine, append, end_index, read_batch, commit, uncommitted_count,
  new_memory_storage_engine, memory_storage,
}

-- Each record's offset is its place in the log, from `n` on.
abbrev pub Numbered : ℕ → List Record → Type 0
Numbered n [] = Unit {0}
Numbered n (r ∷ rs) = (r.offset ≡ n) × Numbered (suc n) rs

pub record IsOpen (m : MemoryStorageEngine) : Type 0 where
  pub is_open : m.closed ≡ false
  pub within : m.checkpoint ≤ length m.records
  pub small : length m.records ≤ max_log
  pub numbered : Numbered 0 m.records

abbrev pub pending : MemoryStorageEngine → List Record
pending m = drop m.checkpoint m.records

pub Numbered-drop : (k n : ℕ) (rs : List Record) → Numbered n rs → Numbered (n + k) (drop k rs)
Numbered-drop zero n rs h = let e : n + 0 ≡ n = omega arith in rw e h
Numbered-drop (suc k) n [] h = tt
Numbered-drop (suc k) n (r ∷ rs) h =
    let e : n + suc k ≡ suc n + k = omega arith in rw e (Numbered-drop k (suc n) rs h.1)

Numbered-append :
    (n : ℕ) (xs : List Record) (r : Record)
    → Numbered n xs
    → r.offset ≡ n + length xs
    → Numbered n (xs ++ (r ∷ []))
Numbered-append n [] r h e = (omega arith, tt)
Numbered-append n (x ∷ xs) r h e = (h.0, Numbered-append (suc n) xs r h.1 (omega arith))

-- The offset of a record behind `xs`.
pub Numbered-at :
    (n : ℕ) (xs : List Record) (r : Record) (ys : List Record)
    → Numbered n (xs ++ (r ∷ ys))
    → r.offset ≡ n + length xs
Numbered-at n [] r ys h = omega arith
Numbered-at n (x ∷ xs) r ys h = omega (arith, Numbered-at (suc n) xs r ys h.1)

end_index_lem :
    (c n len : ℕ) → c < len → len ≤ max_log → n ≤ max_batch → end_index c n len ≡ min (c + n) len
unfolding end_index
end_index_lem c n len h k l = ground arith

module _ (n : ℕ) (m : MemoryStorageEngine) (small : n ≤ max_batch) (o : IsOpen m)
    (more : sle (length m.records) m.checkpoint ≡ false) where
  start_nonneg : slt m.checkpoint 0 ≡ false
  start_nonneg = ground arith

  inside : m.checkpoint < length m.records
  inside = ground arith

  end_at : end_index m.checkpoint n (length m.records) ≡ min (m.checkpoint + n) (length m.records)
  end_at = end_index_lem m.checkpoint n (length m.records) inside o.small small

  end_after : slt (min (m.checkpoint + n) (length m.records)) m.checkpoint ≡ false
  end_after = ground (arith, inside)

-- On an open engine a read of up to 2 ^ 32 records gives the first `n` pending ones and changes
-- nothing.
pub read_batch_pending :
    (n : ℕ) (m : MemoryStorageEngine)
    → 0 < n
    → n ≤ max_batch
    → IsOpen m
    → read_batch n m ≡ (ok (take n (pending m)), m)
unfolding read_batch
read_batch_pending n m pos small o = elim (Bool-cases (sle (length m.records) m.checkpoint)) [
  | inl e ↦
      simp (o.is_open, e)
        (ap (λ x. (ok x, m))
          (sym (
            ap (take n) (drop_all m.checkpoint m.records (ground arith))
            ∙ take_all n [] (omega arith))))
  | inr e ↦
      simp (o.is_open, e, end_at n m small o e, start_nonneg n m small o e, end_after n m small o e)
        (ap (λ x. (ok x, m))
          (take-min _ n (pending m) (rw (length-drop m.checkpoint m.records) (omega arith))))
]

-- Committing the offset of a pending record leaves exactly the records behind it pending, and the
-- engine open and consistent.
pub commit_pending :
    (m : MemoryStorageEngine) (xs : List Record) (r : Record) (ys : List Record)
    → IsOpen m
    → pending m ≡ xs ++ (r ∷ ys)
    → ((commit r.offset m).0 ≡ ok tt)
      × (pending (commit r.offset m).1 ≡ ys)
      × IsOpen (commit r.offset m).1
unfolding commit
commit_pending m xs r ys o e =
    simp (o.is_open, moves)
      (
        refl,
        rw next after,
        record {
          is_open = refl;
          within = omega (arith, next, counted);
          small = o.small;
          numbered = o.numbered;
        },
      )
  where
    place : r.offset ≡ m.checkpoint + length xs
    place =
        let e0 : 0 + m.checkpoint ≡ m.checkpoint = omega arith in
        Numbered-at m.checkpoint xs r ys
          (rw e at (rw e0 at (Numbered-drop m.checkpoint 0 m.records o.numbered)))

    counted : length m.records - m.checkpoint ≡ length xs + suc (length ys)
    counted =
        omega (arith, length-drop m.checkpoint m.records, ap length e, length-append xs (r ∷ ys))

    next : add64 r.offset 1 ≡ m.checkpoint + (length xs + 1)
    next = omega (arith, place, counted)

    moves : ltb m.checkpoint (add64 r.offset 1) ≡ true
    moves = ground (arith, place, counted)

    after : drop (m.checkpoint + (length xs + 1)) m.records ≡ ys
    after = sym (drop-drop m.checkpoint (length xs + 1) _ m.records refl) ∙ rw e (drop_past xs r ys)

-- On an open engine whose log has room for one more offset, an append either puts the record,
-- numbered, behind all pending ones, and keeps the engine open, or fails and changes nothing.
pub append_pending :
    (r : Record) (m : MemoryStorageEngine)
    → IsOpen m
    → length m.records < max_log
    → ((n : ℕ) × ((append r m).0 ≡ ok n)
        × (pending (append r m).1 ≡ pending m ++ (record r { offset = n } ∷ []))
        × IsOpen (append r m).1)
      ⊎ ((e : Error) × ((append r m).0 ≡ err e) × ((append r m).1 ≡ m))
unfolding append
append_pending r m o room =
    elim (Bool-cases (sle m.max_capacity (sub64 (length m.records) m.checkpoint))) [
      | inl full ↦ inr (sentinel spool_full, simp (o.is_open, full), simp (o.is_open, full))
      | inr free ↦ inl (
        length m.records,
        simp (o.is_open, free),
        simp (o.is_open, free) (drop_front m.checkpoint m.records _ o.within),
        simp (o.is_open, free)
            (record {
              is_open = refl;
              within =
                  omega
                    (arith, length-append m.records (record r { offset = length m.records } ∷ []));
              small =
                  omega
                    (arith, length-append m.records (record r { offset = length m.records } ∷ []));
              numbered = Numbered-append 0 m.records _ o.numbered (omega arith);
            }),
      )
    ]

-- The number that `UncommittedCount` reports on an open engine is that of the pending records.
pub uncommitted_count-pending :
    (m : MemoryStorageEngine) → IsOpen m → uncommitted_count m ≡ (ok (length (pending m)), m)
unfolding uncommitted_count
uncommitted_count-pending m o =
    simp (o.is_open, nonneg)
      (ap (λ x. (ok x, m)) (omega (arith, length-drop m.checkpoint m.records)))
  where
    nonneg : slt (sub64 (length m.records) m.checkpoint) 0 ≡ false
    nonneg = ground arith

-- A new engine is open, and nothing is pending.
pub new-IsOpen :
    (n : ℕ) → IsOpen (new_memory_storage_engine n) × (pending (new_memory_storage_engine n) ≡ [])
unfolding new_memory_storage_engine
new-IsOpen n =
    (record { is_open = refl; within = omega arith; small = omega arith; numbered = tt }, refl)

abbrev pub memory_queue : IsQueue memory_storage
memory_queue = record {
  IsOpen = IsOpen;
  HasRoom = λ r m. length m.records < max_log;
  read_back = λ r. r;
  pending = pending;
  read_pending = λ n m pos small o.
      let e = read_batch_pending n m pos small o in
      ((n, pos, omega arith, ap (λ x. x.0) e), ap (λ x. pending x.1) e, rw e o);
  commit_pending = commit_pending;
  append_pending = append_pending;
}
