-- ===== src/Storage/Reopens.antt =====
-- storage_file.go: NewFileStorageEngineWithOptions over a log directory with one segment.
use mathlib.Core.List.{append-nil}
use walspool.Base.{
  ℕ, ◌+◌, ◌-◌, ◌<◌, ◌≤◌, ◌≡◌, ◌⊎◌, refl, sym, ap, ◌∙◌, inl, inr, true, false, ◌==◌, List, [], ◌∷◌,
  ◌++◌, Option, none, some, Bytes, length, drop, drop_all, arith, max_log, add64, sle, ltb,
  if◌then◌else◌, if_cases, All,
}
use walspool.Errors.{ok}
use walspool.Record.{Record}
use walspool.Storage.Recovery.{IsStored, IsTorn, frames, positions, highest, recover_segment_torn}
use walspool.Storage.Files.{
  active_wal, segment, Dir, get, put, create, contents, get-put, name_eq, name_eq_refl,
}
use walspool.Storage.State.{FileStorageOptions, FileStorage, no_faults, segment_path}
use walspool.Storage.Opening.{
  checkpoint_of, recover_file, clamped, opened_at, recover_single, recover, defaulted, blank,
  new_with_options,
}
use walspool.Storage.Invariant.{content_active, Holds, IsFresh}
use walspool.Storage.Queue.{IsOpen, pending, pending-Holds}
use walspool.Storage.Reopening.{
  readings, length-readings, length-positions, positions-Counted, positions-InPlace,
  positions-Ordered, positions-kept,
}

-- A directory that holds a log of whole records `rs` in `active.wal`, each of at most 10 MB, and
-- then nothing or a torn one, and no segment files.
pub record IsLog (rs : List Record) (disk : Dir) : Type 0 where
  pub tail : Bytes
  pub whole : contents active_wal disk ≡ frames rs ++ tail
  pub torn : (tail ≡ []) ⊎ IsTorn tail
  pub stored : All IsStored rs
  pub small : length rs ≤ max_log
  pub no_segments : (b : ℕ) → 0 < b → get (segment b) disk ≡ none

-- A number past the end is as good as the end.
clamped_drop :
    (c n : ℕ) (xs : List Record)
    → length xs ≡ n
    → drop ((if ltb n c then n else c) - 0) xs ≡ drop c xs
clamped_drop c n xs h =
    if_cases (λ k. drop (k - 0) xs ≡ drop c xs) (ltb n c)
      (λ over. drop_all (n - 0) xs (omega arith) ∙ sym (drop_all c xs (ground arith)))
      (λ within. let e : c - 0 ≡ c = omega arith in rw e refl)

module _ (dir : Bytes) (max_capacity : ℕ) (o : FileStorageOptions) (disk : Dir)
    (meta : Option Bytes) (rs : List Record) (L : IsLog rs disk)
    (single : sle o.max_segment_size 0 ≡ true) where
  abbrev log_file : Bytes
  log_file = frames rs

  abbrev pub cut : Dir
  cut = put active_wal log_file (create active_wal disk)

  -- The end of the log, or the checkpoint in the file where it lies before it.
  abbrev checkpoint : ℕ
  checkpoint = if ltb (length rs) (checkpoint_of meta) then length rs else checkpoint_of meta

  -- The engine that is given.
  abbrev pub reopened : FileStorage
  reopened = record (blank max_capacity (defaulted o) cut meta) {
    handle = some (opened_at active_wal (length log_file));
    write_pos = length log_file;
    checkpoint = checkpoint;
    records = positions 0 0 0 rs;
    max_id = highest 0 rs;
  }

  first_path : segment_path reopened 0 ≡ active_wal
  unfolding segment_path defaulted
  first_path = simp single refl

  pub cut_there : get active_wal cut ≡ some log_file
  cut_there =
      rw (get-put active_wal active_wal log_file (create active_wal disk), name_eq_refl active_wal)
        refl

  no_others : (b : ℕ) → 0 < b → get (segment b) cut ≡ none
  unfolding create name_eq
  no_others b h =
      rw
        (
          get-put active_wal (segment b) log_file (create active_wal disk),
          get-put active_wal (segment b) (contents active_wal disk) disk,
        )
        (L.no_segments b h)

  count : length (positions 0 0 0 rs) ≡ length rs
  count = length-positions 0 0 0 rs

  pub reopened-Holds : Holds reopened (readings 0 rs)
  reopened-Holds = record {
    file = opened_at active_wal (length log_file);
    bytes = log_file;
    is_open = refl;
    file_open = refl;
    opened = refl;
    named = sym first_path;
    ready = record { there = cut_there; at_end = refl; sound = refl };
    position = ap length (sym (append-nil log_file));
    kept =
        positions-kept 0 _ 0 [] rs
          (content_active 0 (segment_path reopened) cut (log_file ++ [])
            ∙ ap some (append-nil log_file))
          L.stored (omega (arith, L.small));
    counted = positions-Counted 0 0 0 rs (omega (arith, L.small));
    placed =
        positions-InPlace 0 (length log_file) 0 0 rs (omega (arith, L.small)) (omega arith)
          (omega arith);
    ordered = positions-Ordered 0 0 0 rs;
    active_low = omega arith;
    small = omega (arith, count, L.small);
    checkpoint_low = omega arith;
    checkpoint_high = ground (arith, count);
    none_behind = no_others;
  }

  pub reopened-IsFresh : IsFresh reopened
  reopened-IsFresh = fresh rs count
    where
      fresh :
          (qs : List Record)
          → length (positions 0 0 0 qs) ≡ length qs
          → (length (frames qs) ≡ 0) ⊎ (0 < 0 + length (positions 0 0 0 qs))
      fresh [] h = inl refl
      fresh (q ∷ qs) h = inr (omega arith)

  contents_kept : contents active_wal (create active_wal disk) ≡ frames rs ++ L.tail
  unfolding create
  contents_kept =
      rw (get-put active_wal active_wal (contents active_wal disk) disk, name_eq_refl active_wal)
        L.whole

  pub new-reopened :
      (length dir == 0) ≡ false
      → sle max_capacity 0 ≡ false
      → new_with_options no_faults dir max_capacity o disk meta ≡ some (ok tt, reopened)
  unfolding new_with_options recover recover_single recover_file defaulted clamped
  new-reopened named room =
      rw (named, room, single, contents_kept, recover_segment_torn 0 rs L.tail [] 0 L.stored L.torn)
        (rw end_at refl)
    where
      end_at : add64 0 (length (positions 0 0 0 rs)) ≡ length rs
      end_at = omega (arith, count, L.small)

  -- Opening a directory, with no faults and one segment, that holds a log of at most 2 ^ 62 whole
  -- records, each of at most 10 MB and with fields in range, and then nothing or a record whose
  -- write was cut short, and no segment files, gives an open engine, for a named directory and a
  -- positive capacity: pending are the log's records, numbered from 0 on, without those before the stored
  -- checkpoint, and none where it lies behind the log.
  pub new-Reopens :
      (length dir == 0) ≡ false
      → sle max_capacity 0 ≡ false
      → (f : FileStorage) × (new_with_options no_faults dir max_capacity o disk meta
          ≡ some (ok tt, f))
        × IsOpen f
        × (pending f ≡ drop (checkpoint_of meta) (readings 0 rs))
  new-Reopens named room = (
    reopened,
    new-reopened named room,
    (readings 0 rs, reopened-Holds, reopened-IsFresh),
    pending-Holds reopened (readings 0 rs) reopened-Holds
        ∙ clamped_drop (checkpoint_of meta) (length rs) (readings 0 rs) (length-readings 0 rs),
  )
