-- ===== src/Storage/Flushes.antt =====
-- storage_file.go: a flush of the buffer when no call fails.
use mathlib.Core.List.{append-nil}
use mathlib.Core.Path.{subst}
use walspool.Base.{◌≡◌, refl, sym, ap, ◌∙◌, true, List, [], ◌++◌, Option, Bytes, length}
use walspool.Record.{Record}
use walspool.Storage.Files.{or_empty}
use walspool.Storage.State.{Handle, FileStorage, no_faults, segment_path, flush}
use walspool.Storage.Operations.{with_file}
use walspool.Storage.Reading.{flush_handle}
use walspool.Storage.Invariant.{active_bytes, Holds, AllKept-change, Agree-front}
use walspool.Storage.Writer.{Outcome, flush_buffered}
use walspool.Storage.Writer.Moves.{Moves, flush_buffered-Moves}
use walspool.Storage.Writer.Calls.{flush_buffered-Empties}
use walspool.Storage.Writer.Succeeds.{flush_buffered-Good}
use walspool.Storage.Appending.{others_kept, none_later, ready', grown}

module _ (f : FileStorage) (rs : List Record) (H : Holds f rs) (o : Outcome)
    (m : Moves H.bytes [] H.file f.disk o) (good : o.0 ≡ true) where
  abbrev x : Bytes
  x = H.bytes ++ H.file.buffer

  pub grown' : (H.bytes ++ m.gone) ++ o.1.buffer ≡ x ++ []
  grown' = grown f rs H [] o m good

  -- After a flush that went well.
  pub flushed-Holds : Holds (with_file o.1 o.2 f) rs
  unfolding segment_path
  flushed-Holds = record {
    file = o.1;
    bytes = H.bytes ++ m.gone;
    is_open = H.is_open;
    file_open = H.file_open;
    opened = refl;
    named = m.name_kept ∙ H.named;
    ready = ready' f rs H [] o m good;
    position = H.position ∙ ap length (sym (grown' ∙ append-nil x));
    kept =
        AllKept-change f.active_seg_base (segment_path f) f.disk o.2 x
          ((H.bytes ++ m.gone) ++ o.1.buffer) (length x) f.records rs (others_kept f rs H [] o m)
          (Agree-front x [] _ grown') (rw (H.position) at H.placed) H.kept;
    counted = H.counted;
    placed = H.placed;
    ordered = H.ordered;
    active_low = H.active_low;
    small = H.small;
    checkpoint_low = H.checkpoint_low;
    checkpoint_high = H.checkpoint_high;
    none_behind = none_later f rs H [] o m;
  }

-- A flush with no faults.
module _ (f : FileStorage) (rs : List Record) (H : Holds f rs) where
  abbrev pub out : Outcome
  out = flush_buffered no_faults flush H.file f.disk

  pub moved : Moves H.bytes [] H.file f.disk out
  moved = flush_buffered-Moves H.bytes H.file f.disk H.ready no_faults flush

  pub went_well : out.0 ≡ true
  went_well = flush_buffered-Good H.file f.disk H.ready.sound flush

  abbrev pub drained : FileStorage
  drained = with_file out.1 out.2 f

  pub drained-Holds : Holds drained rs
  drained-Holds = flushed-Holds f rs H out moved went_well

  pub drained_empty : drained-Holds.file.buffer ≡ []
  unfolding drained-Holds flushed-Holds
  drained_empty = flush_buffered-Empties no_faults flush H.file f.disk went_well

  pub flush_handle-drained : flush_handle no_faults f f.handle ≡ (true, drained)
  flush_handle-drained = subst Drains (sym H.opened) (ap (λ b. (b, drained)) went_well)
    where
      Drains : Option Handle → Type 0
      Drains h = flush_handle no_faults f h ≡ (true, drained)

-- A flush moves bytes from the buffer to the file.
pub drained_bytes :
    (f : FileStorage) (rs : List Record) (H : Holds f rs)
    → active_bytes (drained f rs H) (drained f rs H).handle ≡ active_bytes f f.handle
drained_bytes f rs H =
    rw (m.name_kept, ap or_empty m.here)
      (grown' f rs H (out f rs H) m (went_well f rs H) ∙ append-nil (H.bytes ++ H.file.buffer))
    ∙ ap (λ b. or_empty b ++ H.file.buffer) (sym H.ready.there)
    ∙ ap (active_bytes f) (sym H.opened)
  where
    m : Moves H.bytes [] H.file f.disk (out f rs H)
    m = moved f rs H
