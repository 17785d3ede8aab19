-- ===== src/Storage/Tests/Segments.antt =====
-- An engine of several segments: its first one has two records, and a new one was begun.
use walspool.Base.{◌≡◌, refl, true, some, [], arith}
use walspool.Record.{put_be}
use walspool.Storage.State.{FileStorage, no_faults, segment_path}
use walspool.Storage.Opening.{defaulted}
use walspool.Storage.Commits.{
  commit, prune_committed_segments, prunable, prune_segment, prune_rounds,
}
use walspool.Storage.Invariant.{Holds}
use walspool.Storage.Reopening.{readings}
use walspool.Storage.Rotation.{renewed, renewed-Holds}
use walspool.Storage.Checkpoint.{moved-Holds, Commits, commit-Commits}
use walspool.Storage.PruneLoop.{Prunes, StaysPut, prune_committed_segments-Prunes}
use walspool.Storage.Tests.{two, storage, storage-Holds, one_segment}

-- Segments of 60 bytes, of which the first is active.wal.
abbrev segmented : FileStorage
segmented = record storage {
  opts = record one_segment { max_segment_size = 60 };
  is_legacy_active_wal = true;
}

segmented-Holds : Holds segmented (readings 0 two)
unfolding segment_path defaulted
segmented-Holds = record {
  file = storage-Holds.file;
  bytes = storage-Holds.bytes;
  is_open = storage-Holds.is_open;
  file_open = storage-Holds.file_open;
  opened = storage-Holds.opened;
  named = storage-Holds.named;
  ready = storage-Holds.ready;
  position = storage-Holds.position;
  kept = storage-Holds.kept;
  counted = storage-Holds.counted;
  placed = storage-Holds.placed;
  ordered = storage-Holds.ordered;
  active_low = storage-Holds.active_low;
  small = storage-Holds.small;
  checkpoint_low = storage-Holds.checkpoint_low;
  checkpoint_high = storage-Holds.checkpoint_high;
  none_behind = storage-Holds.none_behind;
}

abbrev two_segments : FileStorage
two_segments = renewed segmented (readings 0 two) segmented-Holds (omega arith)

two_segments-Holds : Holds two_segments (readings 0 two)
two_segments-Holds = renewed-Holds segmented (readings 0 two) segmented-Holds (omega arith)

commit-Commits_example : Commits two_segments (readings 0 two) 1 (commit no_faults 1 two_segments)
commit-Commits_example =
    commit-Commits two_segments (readings 0 two) two_segments-Holds 1 (omega arith)

-- Both records are committed.
abbrev all_committed : FileStorage
all_committed = record two_segments { checkpoint_meta = some (put_be 8 2); checkpoint = 2 }

all_committed-Holds : Holds all_committed (readings 0 two)
all_committed-Holds =
    moved-Holds two_segments (readings 0 two) two_segments-Holds 2 (omega arith) (omega arith)

prune_committed_segments-Prunes_example :
    Prunes all_committed (readings 0 two) (prune_committed_segments no_faults all_committed)
    × StaysPut
        (prune_committed_segments no_faults all_committed)
        (prune_committed_segments no_faults all_committed).records
prune_committed_segments-Prunes_example =
    prune_committed_segments-Prunes all_committed (readings 0 two) all_committed-Holds

-- The first segment is gone.
first_gone : (prune_committed_segments no_faults all_committed).records ≡ []
unfolding prune_committed_segments prune_rounds prunable prune_segment
first_gone = refl
