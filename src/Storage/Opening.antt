-- ===== src/Storage/Opening.antt =====
-- storage_file.go: the constructors and the recovery of a directory. Segment files are named by
-- bases of at most twelve digits. `none` stands for a scan that ran out of fuel. After an error the
-- engine is not given to the caller; its `disk` is what the call has left.
use walspool.Base.{
  ℕ, ◌*◌, Bool, true, false, not, ◌&&◌, ◌||◌, ◌==◌, ltb, leb, if◌then◌else◌, List, [], ◌∷◌, Option,
  none, some, Bytes, length, take, sle,
}
use walspool.Errors.{sentinel, wrap, precondition_violated, Result, ok, err}
use walspool.Record.{get_be}
use walspool.Storage.{Scan, recover_segment}
use walspool.Storage.Files.{FileName, active_wal, segment, Dir, get, put, create, contents}
use walspool.Storage.State.{
  FileStorageOptions, default_file_storage_options, Handle, FileStorage, Faults, stat, seek,
  open_segment, mkdir, open_wal, read_meta, recovering, recovery_read, unavailable, segment_path,
}
use walspool.Storage.Operations.{next_offset}
use walspool.Storage.Commits.{prune_committed_segments}

abbrev pub checkpoint_of : Option Bytes → ℕ
checkpoint_of none = 0
checkpoint_of (some b) = if ltb (length b) 8 then 0 else get_be (take 8 b)

-- The end of the whole records of a file, with its records in the index.
abbrev pub after_scan :
    FileName → Option (Scan × Bytes) → FileStorage → Option (Result ℕ × FileStorage)
after_scan name none f = none
after_scan name (some (s, bytes)) f = some (
  ok s.valid_file_end,
  record f { disk = put name bytes f.disk; records = s.records; max_id = s.max_id },
)

-- What `recoverSegment` reads of a file. Where a read fails, it ends as at the end of the file.
abbrev pub readable_bytes : Faults → ℕ → Bytes → Bytes
readable_bytes fl base bytes =
    if fl.fails (recovery_read base) then take fl.readable bytes else bytes

-- `file.Stat` and `recoverSegment`, of which a seek or a truncation may fail, or a read.
unfoldable pub recover_file : Faults → ℕ → FileName → FileStorage → Option (Result ℕ × FileStorage)
recover_file fl base name f =
    if fl.fails stat || fl.fails (recovering base)
    then some (err unavailable, f)
    else after_scan name
        (recover_segment base (readable_bytes fl base (contents name f.disk)) f.records f.max_id) f

-- A checkpoint past the records that were recovered is moved back to their end.
unfoldable pub clamped : FileStorage → FileStorage
clamped f = record f {
  checkpoint = if ltb (next_offset f) f.checkpoint then next_offset f else f.checkpoint;
}

abbrev pub opened_at : FileName → ℕ → Handle
opened_at name pos = record { name = name; pos = pos; buffer = []; write_err = false }

abbrev pub after_single :
    Faults → Option (Result ℕ × FileStorage) → Option (Result (Unit {0}) × FileStorage)
after_single fl none = none
after_single fl (some (err x, f)) = some (err x, f)
after_single fl (some (ok end, f)) =
    if fl.fails seek
    then some (err unavailable, clamped f)
    else some
        (ok tt, record (clamped f) { handle = some (opened_at active_wal end); write_pos = end })

unfoldable pub recover_single : Faults → FileStorage → Option (Result (Unit {0}) × FileStorage)
recover_single fl f = after_single fl (recover_file fl 0 active_wal f)

-- The bases of the segment files, by `filepath.Glob` and `fmt.Sscanf`.
unfoldable pub bases : Dir → List ℕ
bases [] = []
bases ((active_wal, b) ∷ d) = bases d
bases ((segment n, b) ∷ d) = n ∷ bases d

abbrev pub has_zero : List ℕ → Bool
has_zero [] = false
has_zero (n ∷ ns) = n == 0 || has_zero ns

-- `sort.Slice` by base.
unfoldable pub insert_base : ℕ → List ℕ → List ℕ
insert_base n [] = n ∷ []
insert_base n (m ∷ ms) = if leb n m then n ∷ m ∷ ms else m ∷ insert_base n ms

unfoldable pub sort_bases : List ℕ → List ℕ
unfolding insert_base
sort_bases [] = []
sort_bases (n ∷ ns) = insert_base n (sort_bases ns)

abbrev pub exists : Option Bytes → Bool
exists none = false
exists (some b) = true

-- `active.wal` is the first segment where it has data and no other segment starts at 0, or where
-- it is the only file.
unfoldable pub is_legacy : Dir → Bool
unfolding bases
is_legacy d =
    (ltb 0 (length (contents active_wal d)) && not (has_zero (bases d)))
    || (length (bases d) == 0 && exists (get active_wal d))

-- The segments in order; where there is none, one that starts at 0.
unfoldable pub segments_of : Dir → List ℕ
unfolding bases sort_bases
segments_of d =
    if ltb 0 (length (contents active_wal d)) && not (has_zero (bases d))
    then sort_bases (0 ∷ bases d)
    else if length (bases d) == 0
    then 0 ∷ []
    else sort_bases (bases d)

-- The last segment stays open.
abbrev pub activate : Faults → ℕ → FileName → ℕ → FileStorage → Result (Unit {0}) × FileStorage
activate fl base name end f = (
  if fl.fails seek then err unavailable else ok tt,
  record f {
    handle = some (opened_at name (if fl.fails seek then 0 else end));
    active_seg_base = base;
    write_pos = end;
  },
)

-- The file of one segment is opened, or created, and recovered.
abbrev pub open_and_recover : Faults → ℕ → FileStorage → Option (Result ℕ × FileStorage)
open_and_recover fl base f =
    if fl.fails (open_segment base)
    then some (err unavailable, f)
    else recover_file fl base (segment_path f base)
        (record f { disk = create (segment_path f base) f.disk })

unfoldable pub recover_segments :
    Faults → List ℕ → FileStorage → Option (Result (Unit {0}) × FileStorage)
recover_segments fl [] f = some (ok tt, f)
recover_segments fl (base ∷ bs) f = elim (open_and_recover fl base f) [
  | none ↦ none
  | some (err x, f') ↦ some (err x, f')
  | some (ok end, f') ↦ elim bs [
    | [] ↦ some (activate fl base (segment_path f base) end f')
    | _ ∷ _ ↦ recover_segments fl bs f'
  ]
]

-- After the segments: the checkpoint, and the segments that it lies behind.
abbrev pub finished : Faults → FileStorage → FileStorage
finished fl f =
    if ltb 0 (length f.records) then prune_committed_segments fl (clamped f) else clamped f

abbrev pub after_segments :
    Faults → Option (Result (Unit {0}) × FileStorage) → Option (Result (Unit {0}) × FileStorage)
after_segments fl none = none
after_segments fl (some (err x, f)) = some (err x, f)
after_segments fl (some (ok u, f)) = some (ok tt, finished fl f)

abbrev pub first_base : List ℕ → ℕ
first_base [] = 0
first_base (b ∷ bs) = b

unfoldable pub recover_segmented : Faults → FileStorage → Option (Result (Unit {0}) × FileStorage)
unfolding recover_segments
recover_segmented fl f =
    let bs = segments_of f.disk in
    after_segments fl (
      recover_segments fl bs
        (record f { is_legacy_active_wal = is_legacy f.disk; base_offset = first_base bs }))

unfoldable pub recover : Faults → FileStorage → Option (Result (Unit {0}) × FileStorage)
unfolding recover_single recover_segmented
recover fl f =
    let f' = record f {
      checkpoint = if fl.fails read_meta then 0 else checkpoint_of f.checkpoint_meta;
    } in
    if sle f.opts.max_segment_size 0 then recover_single fl f' else recover_segmented fl f'

-- Options that are not positive take their defaults.
unfoldable pub defaulted : FileStorageOptions → FileStorageOptions
defaulted o = record o {
  buffer_size = if sle o.buffer_size 0 then 128 * 1024 else o.buffer_size;
  sync_period = if sle o.sync_period 0 then 50 * 1000000 else o.sync_period;
}

-- The engine before recovery, over what the directory holds.
abbrev pub blank : ℕ → FileStorageOptions → Dir → Option Bytes → FileStorage
blank max_capacity o disk checkpoint_meta = record {
  disk = disk;
  checkpoint_meta = checkpoint_meta;
  handle = none;
  write_pos = 0;
  checkpoint = 0;
  active_seg_base = 0;
  base_offset = 0;
  is_legacy_active_wal = false;
  records = [];
  max_id = 0;
  max_capacity = max_capacity;
  opts = o;
  file_closed = false;
  closed = false;
  close_result = none;
}

-- `active.wal` is opened before recovery where segments are off.
abbrev pub open_and_start : Faults → FileStorage → Option (Result (Unit {0}) × FileStorage)
open_and_start fl f =
    if sle f.opts.max_segment_size 0
    then if fl.fails open_wal
      then some (err unavailable, f)
      else recover fl
          (record f { disk = create active_wal f.disk; handle = some (opened_at active_wal 0) })
    else recover fl f

unfoldable pub new_with_options :
    Faults
    → Bytes
    → ℕ
    → FileStorageOptions
    → Dir
    → Option Bytes
    → Option (Result (Unit {0}) × FileStorage)
unfolding recover
new_with_options fl dir max_capacity o disk checkpoint_meta =
    let f = blank max_capacity (defaulted o) disk checkpoint_meta in
    if length dir == 0 || sle max_capacity 0
    then some (err (wrap (sentinel precondition_violated)), f)
    else if fl.fails mkdir
    then some (err unavailable, f)
    else open_and_start fl f

unfoldable pub new :
    Faults → Bytes → ℕ → Dir → Option Bytes → Option (Result (Unit {0}) × FileStorage)
unfolding new_with_options
new fl dir max_capacity disk checkpoint_meta =
    new_with_options fl dir max_capacity default_file_storage_options disk checkpoint_meta
