-- ===== src/Storage/State.antt =====
-- storage_file.go: options, the engine and its open file, and the calls of the operating system
-- that may fail.
use walspool.Base.{
  ◌≡◌, true, ℕ, ◌*◌, Bool, false, ◌&&◌, ◌||◌, ◌==◌, if◌then◌else◌, List, Option, Bytes, sle,
}
use walspool.Errors.{Error, sentinel, wrap, storage_unavailable}
use walspool.Storage.{OffsetPos}
use walspool.Storage.Files.{FileName, active_wal, segment, Dir}

pub data SyncPolicy : Type 0 where
  sync_every_record sync_batch_commit sync_interval : SyncPolicy

-- `sync_period` is the field SyncInterval, a `time.Duration`.
pub record FileStorageOptions : Type 0 where
  pub buffer_size : ℕ
  pub sync_policy : SyncPolicy
  pub sync_period : ℕ
  pub max_segment_size : ℕ

abbrev pub default_file_storage_options : FileStorageOptions
default_file_storage_options = record {
  buffer_size = 128 * 1024;
  sync_policy = sync_interval;
  sync_period = 50 * 1000000;
  max_segment_size = 0;
}

-- `walFile` with `writer`: the file, the position in it, the bytes that are buffered, and whether a
-- write has failed, which a `bufio.Writer` remembers until it is reset.
pub record Handle : Type 0 where
  pub name : FileName
  pub pos : ℕ
  pub buffer : Bytes
  pub write_err : Bool

-- The engine, with the directory that it works on. `file_closed` says whether walFile is a file that
-- was closed. `close_result` is what the first Close gave.
pub record FileStorage : Type 0 where
  pub disk : Dir
  pub checkpoint_meta : Option Bytes
  pub handle : Option Handle
  pub write_pos : ℕ
  pub checkpoint : ℕ
  pub active_seg_base : ℕ
  pub base_offset : ℕ
  pub is_legacy_active_wal : Bool
  pub records : List OffsetPos
  pub max_id : ℕ
  pub max_capacity : ℕ
  pub opts : FileStorageOptions
  pub file_closed : Bool
  pub closed : Bool
  pub close_result : Option (Option Error)

-- The calls of a method that may fail, by what they are for.
pub data Call : Type 0 where
  fill through flush flush_now sync close_file open_new : Call
  stat truncate seek : Call
  read_active_at open_segment read_at remove_segment : ℕ → Call
  tmp_open tmp_write tmp_sync tmp_close rename : Call
  mkdir open_wal read_meta : Call
  recovering recovery_read : ℕ → Call

-- Which calls of one method fail, how many bytes a write that fails has written, and how many
-- bytes of a segment recovery reads before a read fails.
pub record Faults : Type 0 where
  pub fails : Call → Bool
  pub wrote : ℕ
  pub readable : ℕ

abbrev pub no_faults : Faults
no_faults = record { fails = λ c. false; wrote = 0; readable = 0 }

-- The calls on walFile.
abbrev pub on_file : Call → Bool
on_file fill = true
on_file through = true
on_file flush = true
on_file flush_now = true
on_file sync = true
on_file close_file = true
on_file stat = true
on_file truncate = true
on_file seek = true
on_file (read_active_at n) = true
on_file _ = false

-- Of a file that was closed every call fails, and a write writes nothing.
unfoldable pub faults_of : FileStorage → Faults → Faults
faults_of f fl =
    if f.file_closed
    then record { fails = λ c. on_file c || fl.fails c; wrote = 0; readable = fl.readable }
    else fl

pub faults_of_open : (f : FileStorage) (fl : Faults) → f.file_closed ≡ false → faults_of f fl ≡ fl
unfolding faults_of
faults_of_open f fl h = simp h

abbrev pub unavailable : Error
unavailable = wrap (sentinel storage_unavailable)

unfoldable pub segment_path : FileStorage → ℕ → FileName
segment_path f base =
    if (sle f.opts.max_segment_size 0 || f.is_legacy_active_wal) && base == 0
    then active_wal
    else segment base
