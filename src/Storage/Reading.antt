-- ===== src/Storage/Reading.antt =====
-- storage_file.go: Flush, ReadBatch, UncommittedCount, LastID.
use walspool.Base.{
  ℕ, ◌+◌, ◌-◌, Bool, true, false, not, ◌||◌, ◌==◌, ltb, if◌then◌else◌, List, [], ◌∷◌, ◌++◌, Option,
  none, some, Bytes, length, take, drop, add64, sub64, slt, sle,
}
use walspool.Errors.{
  Error, sentinel, wrap_both, storage_unavailable, foreign, panic, corrupt_at, Result, ok, err,
}
use walspool.Record.{Record, zero_record, unmarshal_binary, slice}
use walspool.Storage.{OffsetPos}
use walspool.Storage.Files.{get, contents}
use walspool.Storage.State.{
  Handle, FileStorage, Faults, faults_of, read_active_at, flush, sync, open_segment, read_at,
  unavailable, segment_path,
}
use walspool.Storage.Operations.{with_file, next_offset}
use walspool.Storage.Writer.{Outcome, flush_buffered}

abbrev pub put_file : FileStorage → Outcome → Bool × FileStorage
put_file f (good, h, d) = (good, with_file h d f)

-- Without a writer nothing is flushed.
abbrev pub flush_handle : Faults → FileStorage → Option Handle → Bool × FileStorage
flush_handle fl f none = (true, f)
flush_handle fl f (some h) = put_file f (flush_buffered fl flush h f.disk)

unfoldable pub flush_writer : Faults → FileStorage → Bool × FileStorage
flush_writer fl f = flush_handle fl f f.handle

unfoldable pub after_flushing : Faults → Bool × FileStorage → Result (Unit {0}) × FileStorage
after_flushing fl (false, f) = (err unavailable, f)
after_flushing fl (true, f) = if fl.fails sync then (err unavailable, f) else (ok tt, f)

unfoldable pub flush_to_disk : Faults → FileStorage → Result (Unit {0}) × FileStorage
unfolding flush_writer after_flushing
flush_to_disk fl f =
    if f.closed
    then (err (sentinel storage_unavailable), f)
    else after_flushing (faults_of f fl) (flush_writer (faults_of f fl) f)

-- `file.ReadAt(buf, pos)` for a buffer of `size` bytes, which must fill.
unfoldable pub read_bytes : Bool → ℕ → ℕ → Bytes → Result Bytes
read_bytes fails pos size file =
    if fails || ltb (length file) (pos + size) then err unavailable else ok (slice pos size file)

-- An error that `os.Open` gave, inside the sentinel.
abbrev pub not_opened : Error
not_opened = wrap_both (sentinel storage_unavailable) (sentinel (foreign 0))

abbrev pub read_active : Faults → FileStorage → OffsetPos → Option Handle → Result Bytes
read_active fl f e none = err unavailable
read_active fl f e (some h) =
    read_bytes (fl.fails (read_active_at e.offset)) e.pos e.size (contents h.name f.disk)

abbrev pub read_opened : Faults → OffsetPos → Option Bytes → Result Bytes
read_opened fl e none = err not_opened
read_opened fl e (some file) = read_bytes (fl.fails (read_at e.offset)) e.pos e.size file

-- The bytes of an entry: from the open file, or from that of an earlier segment.
unfoldable pub read_entry : Faults → FileStorage → OffsetPos → Result Bytes
unfolding read_bytes
read_entry fl f e =
    if e.seg_base == f.active_seg_base
    then read_active fl f e f.handle
    else if fl.fails (open_segment e.seg_base)
    then err not_opened
    else read_opened fl e (get (segment_path f e.seg_base) f.disk)

-- A record that does not decode ends a batch that has records before it, and is an error where it
-- is the first; `rest` reads on.
abbrev pub after_decoding :
    OffsetPos
    → List Record
    → (List Record → Result (List Record))
    → Result Record
    → Result (List Record)
after_decoding e batch rest (err x) =
    if length batch == 0 then err (corrupt_at e.offset x) else ok batch
after_decoding e batch rest (ok rec) = rest (batch ++ (record rec { offset = e.offset } ∷ []))

abbrev pub after_reading :
    OffsetPos
    → List Record
    → (List Record → Result (List Record))
    → Result Bytes
    → Result (List Record)
after_reading e batch rest (err x) = err x
after_reading e batch rest (ok buf) = after_decoding e batch rest (unmarshal_binary zero_record buf)

-- The loop, with the batch so far.
unfoldable pub read_entries :
    Faults → FileStorage → List OffsetPos → List Record → Result (List Record)
read_entries fl f [] batch = ok batch
read_entries fl f (e ∷ es) batch =
    after_reading e batch (λ b. read_entries fl f es b) (read_entry fl f e)

unfoldable pub start_idx : FileStorage → ℕ
start_idx f =
    if slt (sub64 f.checkpoint f.base_offset) 0 then 0 else sub64 f.checkpoint f.base_offset

unfoldable pub end_idx : ℕ → ℕ → ℕ → ℕ
end_idx start max_count len = if slt len (add64 start max_count) then len else add64 start max_count

-- After the flush; a negative capacity of the batch panics.
unfoldable pub read_flushed : Faults → ℕ → Bool × FileStorage → Result (List Record) × FileStorage
read_flushed fl max_count (false, f) = (err unavailable, f)
read_flushed fl max_count (true, f) =
    let end = end_idx (start_idx f) max_count (length f.records) in
    if sle (length f.records) (start_idx f)
    then (ok [], f)
    else if slt end (start_idx f)
    then (err (sentinel panic), f)
    else (read_entries fl f (take (end - start_idx f) (drop (start_idx f) f.records)) [], f)

unfoldable pub read_batch : Faults → ℕ → FileStorage → Result (List Record) × FileStorage
unfolding flush_writer read_flushed
read_batch fl max_count f =
    if f.closed
    then (err (sentinel storage_unavailable), f)
    else read_flushed (faults_of f fl) max_count (flush_writer (faults_of f fl) f)

unfoldable pub uncommitted_count : FileStorage → Result ℕ × FileStorage
uncommitted_count f =
    let count = sub64 (next_offset f) f.checkpoint in
    if f.closed
    then (err (sentinel storage_unavailable), f)
    else if slt count 0
    then (ok 0, f)
    else (ok count, f)

unfoldable pub last_id : FileStorage → ℕ
last_id f = f.max_id

-- One tick of `periodicFlusher`: whether a failure is logged, which one after Close is not.
unfoldable pub periodic_flush : Faults → FileStorage → Bool × FileStorage
unfolding flush_to_disk
periodic_flush fl f = elim (flush_to_disk fl f).0 [
  | ok u ↦ (false, (flush_to_disk fl f).1)
  | err x ↦ (not (flush_to_disk fl f).1.closed, (flush_to_disk fl f).1)
]
