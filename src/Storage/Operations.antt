-- ===== src/Storage/Operations.antt =====
-- storage_file.go: rotateSegment, rollbackTo, Append.
use walspool.Base.{
  ℕ, ◌+◌, Bool, true, false, not, ◌&&◌, ◌==◌, ltb, if◌then◌else◌, List, [], ◌∷◌, ◌++◌, Option, none,
  some, Bytes, length, add64, sub64, slt, sle,
}
use walspool.Errors.{Error, sentinel, spool_full, storage_unavailable, panic, Result, ok, err}
use walspool.Record.{Record, marshal_binary}
use walspool.Storage.{OffsetPos}
use walspool.Storage.Files.{Dir, put, create, contents, resized}
use walspool.Storage.State.{
  SyncPolicy, sync_every_record, sync_batch_commit, sync_interval, Handle, FileStorage, Faults,
  faults_of, flush, flush_now, sync, close_file, open_new, stat, truncate, seek, unavailable,
  segment_path,
}
use walspool.Storage.Writer.{Outcome, flush_buffer, flush_buffered, write}

abbrev pub with_file : Handle → Dir → FileStorage → FileStorage
with_file h d f = record f { handle = some h; disk = d }

-- The new segment of `rotateSegment`.
unfoldable pub open_segment_file : Faults → ℕ → FileStorage → Option Error × FileStorage
open_segment_file fl next f =
    let f' = record f { active_seg_base = next } in
    let name = segment_path f' next in
    if fl.fails open_new then (some unavailable, record f' { handle = none; closed = true }) else (
      none,
      record (with_file (record { name = name; pos = 0; buffer = []; write_err = false })
          (create name f.disk) f') { write_pos = 0 },
    )

-- After the flush of the segment that is left. A Close that fails closes the file too.
unfoldable pub leave_segment : Faults → ℕ → Outcome → FileStorage → Option Error × FileStorage
unfolding open_segment_file
leave_segment fl next (false, h, d) f = (some unavailable, with_file h d f)
leave_segment fl next (true, h, d) f =
    if fl.fails sync
    then (some unavailable, with_file h d f)
    else if fl.fails close_file
    then (some unavailable, record (with_file h d f) { file_closed = true })
    else open_segment_file fl next (with_file h d f)

unfoldable pub rotate_segment : Faults → ℕ → Handle → FileStorage → Option Error × FileStorage
rotate_segment fl next h f = leave_segment fl next (flush_buffered fl flush h f.disk) f

-- An entry goes when it is picked and those behind it have gone.
unfoldable pub keep_before : (OffsetPos → Bool) → OffsetPos → List OffsetPos → List OffsetPos
keep_before test e [] = if test e then [] else e ∷ []
keep_before test e (x ∷ xs) = e ∷ x ∷ xs

-- Trailing entries that a test picks are dropped.
unfoldable pub drop_trailing : (OffsetPos → Bool) → List OffsetPos → List OffsetPos
unfolding keep_before
drop_trailing test [] = []
drop_trailing test (e ∷ es) = keep_before test e (drop_trailing test es)

-- The entry lies in the active segment and ends behind `target`.
unfoldable pub beyond : ℕ → ℕ → OffsetPos → Bool
beyond active target e = e.seg_base == active && ltb target (e.pos + e.size)

unfoldable pub rollback_target : Faults → ℕ → ℕ → ℕ
rollback_target fl pos size = if not (fl.fails stat) && ltb size pos then size else pos

unfoldable pub rollback_to : Faults → ℕ → Handle → FileStorage → FileStorage
rollback_to fl pos h f =
    let bytes = contents h.name f.disk in
    let target = rollback_target fl pos (length bytes) in
    record (with_file
      (record h { pos = if fl.fails seek then h.pos else target; buffer = []; write_err = false })
      (if fl.fails truncate then f.disk else put h.name (resized target bytes) f.disk) f) {
        write_pos = target;
        records = drop_trailing (beyond f.active_seg_base target) f.records;
      }

-- The record is in the file or its buffer: the index, the write position and the highest id.
unfoldable pub index_append : Record → ℕ → ℕ → FileStorage → Result ℕ × FileStorage
index_append rec offset size f = (
  ok offset,
  record f {
    max_id = if ltb f.max_id rec.id then rec.id else f.max_id;
    write_pos = f.write_pos + size;
    records =
        f.records
        ++ (record { offset = offset; seg_base = f.active_seg_base; pos = f.write_pos; size = size }
            ∷ []);
  },
)

unfoldable pub roll_back : Faults → Handle → Dir → FileStorage → Result ℕ × FileStorage
roll_back fl h d f = (err unavailable, rollback_to fl f.write_pos h (with_file h d f))

-- After the flush that SyncEveryRecord makes of each record.
unfoldable pub after_sync : Faults → Record → ℕ → ℕ → Outcome → FileStorage → Result ℕ × FileStorage
after_sync fl rec offset size (false, h, d) f = roll_back fl h d f
after_sync fl rec offset size (true, h, d) f =
    if fl.fails sync then roll_back fl h d f else index_append rec offset size (with_file h d f)

unfoldable pub sync_record :
    SyncPolicy → Faults → Record → ℕ → ℕ → Handle → Dir → FileStorage → Result ℕ × FileStorage
unfolding after_sync
sync_record sync_every_record fl rec offset size h d f =
    after_sync fl rec offset size (flush_buffer fl flush_now h d) f
sync_record sync_batch_commit fl rec offset size h d f =
    index_append rec offset size (with_file h d f)
sync_record sync_interval fl rec offset size h d f = index_append rec offset size (with_file h d f)

unfoldable pub after_write :
    Faults → Record → ℕ → ℕ → Outcome → FileStorage → Result ℕ × FileStorage
unfolding sync_record
after_write fl rec offset size (false, h, d) f = roll_back fl h d f
after_write fl rec offset size (true, h, d) f =
    sync_record f.opts.sync_policy fl rec offset size h d f

-- Without a writer, which an open engine always has, the call panics.
unfoldable pub write_record :
    Faults → Record → ℕ → Bytes → Option Handle → FileStorage → Result ℕ × FileStorage
unfolding after_write
write_record fl rec offset bytes none f = (err (sentinel panic), f)
write_record fl rec offset bytes (some h) f =
    after_write fl rec offset (length bytes) (write fl f.opts.buffer_size bytes h f.disk) f

unfoldable pub after_rotate :
    Faults → Record → ℕ → Bytes → Option Error × FileStorage → Result ℕ × FileStorage
unfolding write_record
after_rotate fl rec offset bytes (some x, f) = (err x, f)
after_rotate fl rec offset bytes (none, f) = write_record fl rec offset bytes f.handle f

-- The record does not fit behind those of the active segment.
unfoldable pub overflows : ℕ → FileStorage → Bool
overflows size f =
    not (sle f.opts.max_segment_size 0)
    && (ltb 0 f.write_pos && slt f.opts.max_segment_size (f.write_pos + size))

unfoldable pub append_bytes :
    Faults → Record → ℕ → Result Bytes → FileStorage → Result ℕ × FileStorage
unfolding after_rotate overflows
append_bytes fl rec offset (err x) f = (err x, f)
append_bytes fl rec offset (ok bytes) f =
    if overflows (length bytes) f
    then elim f.handle [
      | none ↦ (err (sentinel panic), f)
      | some h ↦ after_rotate fl rec offset bytes (rotate_segment fl offset h f)
    ]
    else write_record fl rec offset bytes f.handle f

-- The offset behind the last record.
abbrev pub next_offset : FileStorage → ℕ
next_offset f = add64 f.base_offset (length f.records)

unfoldable pub append : Faults → Record → FileStorage → Result ℕ × FileStorage
unfolding append_bytes
append fl rec f =
    if f.closed
    then (err (sentinel storage_unavailable), f)
    else if sle f.max_capacity (sub64 (next_offset f) f.checkpoint)
    then (err (sentinel spool_full), f)
    else let rec' = record rec { offset = next_offset f } in
      append_bytes (faults_of f fl) rec' (next_offset f) (marshal_binary rec') f
