-- ===== src/Memory.antt =====
-- storage_memory.go: the in-memory storage engine. An `int` is its 64-bit pattern.
pub mod Queue
use walspool.Base.{
  ℕ, ◌+◌, ◌-◌, ◌%◌, ◌≡◌, Bool, true, false, ◌||◌, List, [], ◌∷◌, ◌++◌, Option, none, some, length,
  take, drop, if◌then◌else◌, ltb, ◌==◌, add64, sub64, slt, sle,
}
use walspool.Errors.{Error, sentinel, storage_unavailable, spool_full, panic, Result, ok, err}
use walspool.Record.{Record}
use walspool.Ports.{StorageEngine}

pub record MemoryStorageEngine : Type 0 where
  pub records : List Record
  pub checkpoint : ℕ
  pub closed : Bool
  pub max_capacity : ℕ

pub new_memory_storage_engine : ℕ → MemoryStorageEngine
new_memory_storage_engine max_capacity = record {
  records = [];
  checkpoint = 0;
  closed = false;
  max_capacity = if sle max_capacity 0 then 10000 else max_capacity;
}

abbrev closed_error {ℓ} : {A : Type ℓ} → Result A
closed_error = err (sentinel storage_unavailable)

pub append : Record → MemoryStorageEngine → Result ℕ × MemoryStorageEngine
append rec m =
    if m.closed
    then (closed_error, m)
    else if sle m.max_capacity (sub64 (length m.records) m.checkpoint)
    then (err (sentinel spool_full), m)
    else (
      ok (length m.records),
      record m { records = m.records ++ (record rec { offset = length m.records } ∷ []) },
    )

-- The end index of a batch: `startIdx + maxCount`, or the number of records.
unfoldable pub end_index : ℕ → ℕ → ℕ → ℕ
end_index start max_count len =
    if slt len (add64 start max_count) then len else add64 start max_count

-- A negative start or length panics.
pub read_batch : ℕ → MemoryStorageEngine → Result (List Record) × MemoryStorageEngine
unfolding end_index
read_batch max_count m =
    let start = m.checkpoint in
    let end = end_index start max_count (length m.records) in
    if m.closed
    then (closed_error, m)
    else if sle (length m.records) start
    then (ok [], m)
    else if slt start 0 || slt end start
    then (err (sentinel panic), m)
    else (ok (take (end - start) (drop start m.records)), m)

pub commit : ℕ → MemoryStorageEngine → Result (Unit {0}) × MemoryStorageEngine
commit offset m =
    if m.closed
    then (closed_error, m)
    else if ltb m.checkpoint (add64 offset 1)
    then (ok tt, record m { checkpoint = add64 offset 1 })
    else (ok tt, m)

pub uncommitted_count : MemoryStorageEngine → Result ℕ × MemoryStorageEngine
uncommitted_count m =
    let uncommitted = sub64 (length m.records) m.checkpoint in
    if m.closed
    then (closed_error, m)
    else if slt uncommitted 0
    then (ok 0, m)
    else (ok uncommitted, m)

pub close : MemoryStorageEngine → Result (Unit {0}) × MemoryStorageEngine
close m = (ok tt, record m { closed = true })

max_from : ℕ → List Record → ℕ
max_from max_id [] = max_id
max_from max_id (r ∷ rs) = max_from (if ltb max_id r.id then r.id else max_id) rs

pub last_id : MemoryStorageEngine → ℕ
unfolding max_from
last_id m = if length m.records == 0 then 0 else max_from 0 m.records

abbrev pub memory_storage : StorageEngine
memory_storage = record {
  State = MemoryStorageEngine;
  append = append;
  read_batch = read_batch;
  commit = commit;
  uncommitted_count = uncommitted_count;
  close = close;
  last_id = some last_id;
}
