-- ===== src/Storage.antt =====
-- storage_file.go: the recovery of one segment file. A position in the file is the number of bytes
-- before it, with the bytes behind it at hand; reads, seeks and truncation of the file succeed.
pub mod Recovery
pub mod Files
pub mod State
pub mod Writer
pub mod Operations
pub mod Reading
pub mod Commits
pub mod Opening
pub mod Index
pub mod Invariant
pub mod Rollback
pub mod Appending
pub mod Restored
pub mod Keeps
pub mod Rotation
pub mod Appends
pub mod Flushes
pub mod Reads
pub mod Segments
pub mod Prunes
pub mod PruneLoop
pub mod Checkpoint
pub mod Queue
pub mod Reopening
pub mod Reopens
pub mod Crash
pub mod Closes
pub mod RoundTrip
pub mod Runs
mod Tests
use walspool.Base.{
  ℕ, zero, suc, ◌+◌, ◌*◌, Bool, not, ◌&&◌, ◌||◌, ◌==◌, ltb, leb, if◌then◌else◌, List, [], ◌∷◌, ◌++◌,
  Option, none, some, Bytes, length, take, drop, add64,
}
use walspool.Record.{header_size, has_magic, total_len, slice, get_be}

abbrev pub max_recoverable_record_size : ℕ
max_recoverable_record_size = 10 * 1024 * 1024

pub record OffsetPos : Type 0 where
  pub offset : ℕ
  pub seg_base : ℕ
  pub pos : ℕ
  pub size : ℕ

-- What a scan has gathered: the index, the highest id, and the end of the last whole record.
pub record Scan : Type 0 where
  pub records : List OffsetPos
  pub max_id : ℕ
  pub valid_file_end : ℕ

-- The bytes from the current position on do not start with a whole record.
pub ends_scan : Bytes → Bool
ends_scan bytes =
    length bytes == 0
    || (ltb (length bytes) header_size
        || (not (has_magic bytes)
            || (ltb max_recoverable_record_size (total_len bytes)
                || ltb (length bytes) (total_len bytes))))

pub index_record : ℕ → ℕ → ℕ → Bytes → Scan → Scan
index_record seg_base offset pos bytes s =
    let rec_id = get_be (slice 7 8 bytes) in
    record {
      records =
          s.records
          ++ (record { offset = offset; seg_base = seg_base; pos = pos; size = total_len bytes }
              ∷ []);
      max_id = if ltb s.max_id rec_id then rec_id else s.max_id;
      valid_file_end = pos + total_len bytes;
    }

-- The loop; `none` means that the fuel ran out.
pub scan_records : ℕ → ℕ → ℕ → ℕ → Bytes → Scan → Option Scan
scan_records zero seg_base offset pos bytes s = none
scan_records (suc f) seg_base offset pos bytes s =
    let next =
      scan_records f seg_base (add64 offset 1) (pos + total_len bytes)
        (drop (total_len bytes) bytes) (index_record seg_base offset pos bytes s) in
    if ends_scan bytes then some s else next

-- `file.Truncate` behind the last whole record.
abbrev pub truncate : Bytes → Option Scan → Option (Scan × Bytes)
truncate file none = none
truncate file (some s) = some (s, take s.valid_file_end file)

pub recover_segment : ℕ → Bytes → List OffsetPos → ℕ → Option (Scan × Bytes)
recover_segment seg_base file records max_id = truncate file (
    scan_records (length file + 1) seg_base seg_base 0 file
      (record { records = records; max_id = max_id; valid_file_end = 0 }))
