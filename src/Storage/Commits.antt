-- ===== src/Storage/Commits.antt =====
-- storage_file.go: Commit, pruneCommittedSegments, Close.
use walspool.Base.{
  ℕ, zero, suc, Bool, true, false, not, ◌&&◌, ◌||◌, ◌==◌, ltb, leb, if◌then◌else◌, List, [], ◌∷◌,
  ◌++◌, Option, none, some, length, add64, sle,
}
use walspool.Errors.{Error, sentinel, wrap, wrap_both, storage_unavailable, Result, ok, err}
use walspool.Record.{put_be}
use walspool.Storage.{OffsetPos}
use walspool.Storage.Files.{remove}
use walspool.Storage.State.{
  SyncPolicy, sync_every_record, sync_batch_commit, sync_interval, Handle, FileStorage, Faults,
  faults_of, flush, sync, close_file, remove_segment, tmp_open, tmp_write, tmp_sync, tmp_close,
  rename, unavailable, segment_path,
}
use walspool.Storage.Operations.{with_file}
use walspool.Storage.Reading.{flush_writer, after_flushing}
use walspool.Storage.Writer.{Outcome, flush_buffer}

-- The index behind the entries of the segment that it starts with.
unfoldable pub behind_segment : ℕ → List OffsetPos → List OffsetPos
behind_segment base [] = []
behind_segment base (e ∷ es) = if e.seg_base == base then behind_segment base es else e ∷ es

-- The offset of the last of those entries, `last` that of the one before.
unfoldable pub last_in_segment : ℕ → ℕ → List OffsetPos → ℕ
last_in_segment base last [] = last
last_in_segment base last (e ∷ es) =
    if e.seg_base == base then last_in_segment base e.offset es else last

-- The first segment is not the active one, and all its records are committed.
unfoldable pub prunable : FileStorage → OffsetPos → List OffsetPos → Bool
unfolding last_in_segment
prunable f e es =
    not (e.seg_base == f.active_seg_base)
    && ltb (last_in_segment e.seg_base e.offset es) f.checkpoint

abbrev pub base_behind : ℕ → List OffsetPos → ℕ
base_behind active [] = active
base_behind active (e ∷ es) = e.offset

-- A file that cannot be removed stays, without its entries.
unfoldable pub prune_segment : Faults → FileStorage → OffsetPos → List OffsetPos → FileStorage
unfolding behind_segment
prune_segment fl f e es = record f {
  disk =
      if fl.fails (remove_segment e.seg_base)
      then f.disk
      else remove (segment_path f e.seg_base) f.disk;
  records = behind_segment e.seg_base es;
  base_offset = base_behind f.active_seg_base (behind_segment e.seg_base es);
}

-- One round of the loop, and the rest of them.
unfoldable pub prune_round :
    Faults → (FileStorage → FileStorage) → FileStorage → List OffsetPos → FileStorage
prune_round fl rest f [] = f
prune_round fl rest f (e ∷ es) = if prunable f e es then rest (prune_segment fl f e es) else f

-- The loop, for so many rounds: `prune_committed_segments` allows one for each record.
unfoldable pub prune_rounds : ℕ → Faults → FileStorage → FileStorage
unfolding prune_round
prune_rounds zero fl f = f
prune_rounds (suc n) fl f = prune_round fl (λ g. prune_rounds n fl g) f f.records

unfoldable pub prune_committed_segments : Faults → FileStorage → FileStorage
unfolding prune_rounds
prune_committed_segments fl f = prune_rounds (length f.records) fl f

-- The swap of the checkpoint file: its calls in order, and nothing changed unless all succeed.
abbrev pub swap_fails : Faults → Bool
swap_fails fl =
    fl.fails tmp_open
    || (fl.fails tmp_write || (fl.fails tmp_sync || (fl.fails tmp_close || fl.fails rename)))

-- With the checkpoint written, whole segments before it go.
unfoldable pub advance : Faults → ℕ → FileStorage → FileStorage
unfolding prune_committed_segments
advance fl checkpoint f =
    let f' = record f { checkpoint_meta = some (put_be 8 checkpoint); checkpoint = checkpoint } in
    if not (sle f.opts.max_segment_size 0) && ltb 0 (length f.records)
    then prune_committed_segments fl f'
    else f'

unfoldable pub write_checkpoint :
    Faults → ℕ → Result (Unit {0}) × FileStorage → Result (Unit {0}) × FileStorage
unfolding advance
write_checkpoint fl checkpoint (err x, f) = (err x, f)
write_checkpoint fl checkpoint (ok u, f) =
    if swap_fails fl then (err unavailable, f) else (ok tt, advance fl checkpoint f)

-- SyncBatchCommit flushes and syncs the log before the checkpoint.
unfoldable pub sync_batch : SyncPolicy → Faults → FileStorage → Result (Unit {0}) × FileStorage
sync_batch sync_batch_commit fl f = after_flushing fl (flush_writer fl f)
sync_batch sync_every_record fl f = (ok tt, f)
sync_batch sync_interval fl f = (ok tt, f)

unfoldable pub commit : Faults → ℕ → FileStorage → Result (Unit {0}) × FileStorage
unfolding write_checkpoint sync_batch
commit fl offset f =
    if f.closed
    then (err (sentinel storage_unavailable), f)
    else if leb (add64 offset 1) f.checkpoint
    then (ok tt, f)
    else write_checkpoint fl (add64 offset 1) (sync_batch f.opts.sync_policy (faults_of f fl) f)

abbrev pub one_error : Bool → List Error
one_error true = unavailable ∷ []
one_error false = []

-- `errors.Join`, which unwraps to each of its errors; of none it is `nil`.
abbrev pub joined : Error → List Error → Error
joined e [] = wrap e
joined e (e' ∷ es) = wrap_both e (joined e' es)

abbrev pub errors_join : List Error → Option Error
errors_join [] = none
errors_join (e ∷ es) = some (joined e es)

abbrev pub close_errors : Faults → Outcome → Option Error
close_errors fl (good, h, d) =
    errors_join
      (one_error (not good) ++ (one_error (fl.fails sync) ++ one_error (fl.fails close_file)))

-- What the first call does with the file: a step that fails does not keep those behind it from
-- being made. The flusher has ended before the flush.
abbrev pub close_file_of : Faults → FileStorage → Option Handle → Option Error × FileStorage
close_file_of fl f none = (none, f)
close_file_of fl f (some h) =
    let o = flush_buffer fl flush h f.disk in (close_errors fl o, with_file o.1 o.2 f)

abbrev pub answer_of : Option Error → Result (Unit {0})
answer_of none = ok tt
answer_of (some e) = err e

abbrev pub closed_with : Option Error × FileStorage → Result (Unit {0}) × FileStorage
closed_with (e, f) = (answer_of e, record f { closed = true; close_result = some e })

-- `closeOnce`: a later call gives the result of the first.
abbrev pub close_by : Faults → FileStorage → Option (Option Error) → Result (Unit {0}) × FileStorage
close_by fl f none = closed_with (close_file_of (faults_of f fl) f f.handle)
close_by fl f (some e) = (answer_of e, f)

unfoldable pub close : Faults → FileStorage → Result (Unit {0}) × FileStorage
close fl f = close_by fl f f.close_result
