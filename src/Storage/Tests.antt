-- ===== src/Storage/Tests.antt =====
-- A segment of one whole record and the start of another.
mod Segments
use walspool.Base.{
  ℕ, suc, ◌≡◌, ◌<◌, ◌≤◌, refl, inr, true, false, none, some, List, [], ◌∷◌, ◌++◌, Bytes, length,
  take, drop, take-append-drop, arith,
}
use walspool.Errors.{ok, err, sentinel, storage_unavailable}
use walspool.Storage.Files.{Dir, active_wal, segment, get, name_eq, contents}
use walspool.Storage.State.{
  FileStorageOptions, sync_every_record, FileStorage, Faults, flush_now, no_faults,
}
use walspool.Storage.Opening.{defaulted, new_with_options}
use walspool.Storage.Operations.{append, overflows}
use walspool.Storage.Reading.{read_batch, uncommitted_count}
use walspool.Storage.Commits.{commit, close, prune_committed_segments}
use walspool.Storage.Closes.{close_closes}
use walspool.Storage.Runs.{Runs, opened, committed, runs-Reopen}
use walspool.Storage.Invariant.{Holds, IsFresh}
use walspool.Storage.Reopening.{readings}
use walspool.Storage.Reopens.{
  IsLog, reopened, reopened-Holds, reopened-IsFresh, new-reopened, new-Reopens,
}
use walspool.Storage.Crash.{new_after_crash}
use walspool.Storage.Queue.{IsOpen, pending}
use walspool.Storage.Keeps.{Keeps, SameStart, InRange, append-Keeps}
use walspool.Storage.Restored.{Reached}
use walspool.Storage.Appends.{Appends, append-Appends}
use walspool.Storage.Reads.{read_batch-kept, uncommitted_count-kept}
use walspool.Record.{Record, zero_record, put_be, body}
use walspool.Record.Layout.{IsWire, frame}
use walspool.Storage.{recover_segment}
use walspool.Storage.Recovery.{IsStored, IsTorn, frames, positions, recover_segment_torn}

abbrev sample : Record
sample = record zero_record { id = 3; topic = b'a' ∷ []; payload = b'{' ∷ b'}' ∷ [] }

sample-IsWire : IsWire sample
sample-IsWire = record {
  id_word = omega arith;
  time_word = omega arith;
  topic_fits = omega arith;
  payload_fits = omega arith;
}

sample-IsStored : IsStored sample
unfolding put_be body
sample-IsStored = record { wire = sample-IsWire; not_large = omega arith }

lost_some : 0 < length (drop 10 (frame sample))
unfolding put_be body
lost_some = omega arith

recover_segment_torn_example :
    recover_segment 5 (frames (sample ∷ []) ++ take 10 (frame sample)) [] 0
    ≡ some (
      record {
        records = positions 5 5 0 (sample ∷ []);
        max_id = 3;
        valid_file_end = length (frames (sample ∷ []));
      },
      frames (sample ∷ []),
    )
recover_segment_torn_example =
    recover_segment_torn 5 (sample ∷ []) (take 10 (frame sample)) [] 0 (sample-IsStored, tt)
      (inr (record {
        torn = sample;
        lost = drop 10 (frame sample);
        wire = sample-IsWire;
        cut = take-append-drop 10 (frame sample);
        short = lost_some;
      }))

-- A directory that holds the record twice and the start of a third.
abbrev pub two : List Record
two = sample ∷ sample ∷ []

abbrev pub log_dir : Dir
log_dir = (active_wal, frames two ++ take 10 (frame sample)) ∷ []

abbrev pub one_segment : FileStorageOptions
one_segment = record {
  buffer_size = 4096;
  sync_policy = sync_every_record;
  sync_period = 0;
  max_segment_size = 0;
}

third-IsTorn : IsTorn (take 10 (frame sample))
third-IsTorn = record {
  torn = sample;
  lost = drop 10 (frame sample);
  wire = sample-IsWire;
  cut = take-append-drop 10 (frame sample);
  short = lost_some;
}

pub log_dir-IsLog : IsLog two log_dir
unfolding get name_eq
log_dir-IsLog = record {
  tail = take 10 (frame sample);
  whole = refl;
  torn = inr third-IsTorn;
  stored = (sample-IsStored, (sample-IsStored, tt));
  small = omega arith;
  no_segments = λ b h. refl;
}

abbrev pub dir : Bytes
dir = b'd' ∷ []

new-Reopens_example :
    (f : FileStorage) × (new_with_options no_faults dir 10 one_segment log_dir none
      ≡ some (ok tt, f))
    × IsOpen f
    × (pending f ≡ readings 0 two)
new-Reopens_example = new-Reopens dir 10 one_segment log_dir none two log_dir-IsLog refl refl refl

abbrev pub storage : FileStorage
storage = reopened dir 10 one_segment log_dir none two log_dir-IsLog refl

pub storage-Holds : Holds storage (readings 0 two)
storage-Holds = reopened-Holds dir 10 one_segment log_dir none two log_dir-IsLog refl

storage-Reached : Reached storage (readings 0 two) storage-Holds
storage-Reached = (λ h. absurd (omega arith), (λ h. absurd (omega arith), tt))

-- The flush that follows the write fails after three bytes.
abbrev failing : Faults
failing = record { fails = λ c. elim c [ flush_now ↦ true | _ ↦ false ]; wrote = 3; readable = 0 }

sample-InRange : InRange sample
sample-InRange = record {
  id_word = omega arith;
  time_word = omega arith;
  payload_fits = omega arith;
}

fits : overflows (length (frame sample)) storage ≡ false
unfolding overflows defaulted
fits = refl

append-Keeps_example :
    Keeps storage (readings 0 two) storage-Holds sample (append failing sample storage)
append-Keeps_example =
    append-Keeps storage (readings 0 two) storage-Holds failing
      (record { stats = refl; truncates = refl; seeks = refl }) storage-Reached sample
      sample-InRange fits (omega arith)

append-Appends_example : Appends storage (readings 0 two) sample (append no_faults sample storage)
append-Appends_example =
    append-Appends storage (readings 0 two) storage-Holds
      (reopened-IsFresh dir 10 one_segment log_dir none two log_dir-IsLog refl) sample
      sample-InRange (omega arith)

read_batch-kept_example :
    ((read_batch no_faults 1 storage).0 ≡ ok (take 1 (readings 0 two)))
    × Holds (read_batch no_faults 1 storage).1 (readings 0 two)
    × SameStart storage (read_batch no_faults 1 storage).1
    × (IsFresh storage → IsFresh (read_batch no_faults 1 storage).1)
read_batch-kept_example =
    read_batch-kept storage (readings 0 two) storage-Holds 1 (omega arith) (omega arith)

uncommitted_count-kept_example : uncommitted_count storage ≡ (ok 2, storage)
uncommitted_count-kept_example = uncommitted_count-kept storage (readings 0 two) storage-Holds

-- Of two records and forty bytes that a crash left, one record is whole.
abbrev crashed : Dir
crashed = (active_wal, take 40 (frames two)) ∷ []

crashed_only : (b : ℕ) → 0 < b → get (segment b) crashed ≡ none
unfolding get name_eq
crashed_only b h = refl

crashed_bytes : contents active_wal crashed ≡ take 40 (frames two)
unfolding get name_eq
crashed_bytes = refl

new_after_crash_example :
    (k : ℕ) × (length (frames (take k two)) ≤ 40)
    × (k < 2 → 40 < length (frames (take (suc k) two)))
    × ((f : FileStorage) × (new_with_options no_faults dir 10 one_segment crashed none
          ≡ some (ok tt, f))
        × IsOpen f
        × (pending f ≡ readings 0 (take k two)))
new_after_crash_example =
    new_after_crash 40 two crashed crashed_bytes (sample-IsStored, (sample-IsStored, tt))
      (omega arith) crashed_only dir 10 one_segment none refl refl refl

close_closes_example :
    ((close failing storage).1.closed ≡ true)
    × (close no_faults (close failing storage).1 ≡ close failing storage)
    × ((rec : Record)
        → append no_faults rec (close failing storage).1
          ≡ (err (sentinel storage_unavailable), (close failing storage).1))
    × ((n : ℕ)
        → read_batch no_faults n (close failing storage).1
          ≡ (err (sentinel storage_unavailable), (close failing storage).1))
    × ((n : ℕ)
        → commit no_faults n (close failing storage).1
          ≡ (err (sentinel storage_unavailable), (close failing storage).1))
close_closes_example = close_closes failing no_faults storage refl

opened_storage : Runs storage two
opened_storage =
    opened dir 10 one_segment log_dir none two storage log_dir-IsLog (omega arith) refl refl refl
      (new-reopened dir 10 one_segment log_dir none two log_dir-IsLog refl refl refl)

-- The first record is committed before the engine is closed.
committed_storage : Runs (commit no_faults 0 storage).1 two
committed_storage = committed storage two 0 opened_storage (omega arith)

runs-Reopen_example :
    (g : FileStorage) × (new_with_options no_faults dir 10 one_segment
        (close no_faults (commit no_faults 0 storage).1).1.disk
        (close no_faults (commit no_faults 0 storage).1).1.checkpoint_meta
      ≡ some (ok tt, g))
    × IsOpen g
    × (pending g ≡ pending (commit no_faults 0 storage).1)
runs-Reopen_example =
    runs-Reopen (commit no_faults 0 storage).1 two committed_storage dir 10 one_segment refl refl
      refl
