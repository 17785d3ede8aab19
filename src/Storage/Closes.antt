-- ===== src/Storage/Closes.antt =====
-- storage_file.go: Close, its second call, and what it leaves in the file.
use mathlib.Core.List.{append-nil}
use mathlib.Core.Path.{subst}
use walspool.Base.{ℕ, ◌<◌, ◌≡◌, refl, sym, ap, ◌∙◌, true, List, [], ◌++◌, Option, none, some}
use walspool.Errors.{ok, err, sentinel, storage_unavailable}
use walspool.Record.{Record}
use walspool.Storage.Files.{get, segment}
use walspool.Storage.State.{faults_of_open, Handle, FileStorage, Faults, no_faults, flush}
use walspool.Storage.Operations.{with_file, append}
use walspool.Storage.Reading.{read_batch}
use walspool.Storage.Commits.{
  close_errors, close_file_of, closed_with, close_by, answer_of, close, commit,
}
use walspool.Storage.Appending.{none_later}
use walspool.Storage.Invariant.{Holds}
use walspool.Storage.Writer.{Outcome, flush_buffer}
use walspool.Storage.Writer.Moves.{Moves, flush_buffer-Moves}
use walspool.Storage.Writer.Calls.{flush_buffer-Empties}
use walspool.Storage.Writer.Succeeds.{flush_buffer-Good}

-- Of an engine that was not closed, the first Close closes it whatever fails, and every later one,
-- whatever fails in it, gives the first one's answer and changes nothing. An append, a read or a
-- commit behind it fails with the sentinel and changes nothing.
pub close_closes :
    (fl fl' : Faults) (f : FileStorage)
    → f.close_result ≡ none
    → ((close fl f).1.closed ≡ true)
      × (close fl' (close fl f).1 ≡ close fl f)
      × ((rec : Record)
          → append fl' rec (close fl f).1 ≡ (err (sentinel storage_unavailable), (close fl f).1))
      × ((n : ℕ)
          → read_batch fl' n (close fl f).1 ≡ (err (sentinel storage_unavailable), (close fl f).1))
      × ((n : ℕ)
          → commit fl' n (close fl f).1 ≡ (err (sentinel storage_unavailable), (close fl f).1))
unfolding close append read_batch commit
close_closes fl fl' f h = rw h (refl, refl, λ rec. refl, λ n. refl, λ n. refl)

-- With no faults, Close of an open engine succeeds, and all the bytes of the active segment are in
-- its file.
module _ (f : FileStorage) (rs : List Record) (H : Holds f rs) (first : f.close_result ≡ none) where
  abbrev out : Outcome
  out = flush_buffer no_faults flush H.file f.disk

  moved : Moves H.bytes [] H.file f.disk out
  moved = flush_buffer-Moves H.bytes H.file f.disk H.ready no_faults flush

  good : out.0 ≡ true
  good = flush_buffer-Good H.file f.disk H.ready.sound flush

  abbrev pub closed_engine : FileStorage
  closed_engine = record (with_file out.1 out.2 f) { closed = true; close_result = some none }

  pub close-closed_engine : close no_faults f ≡ (ok tt, closed_engine)
  unfolding close
  close-closed_engine =
      ap (close_by no_faults f) first
      ∙ ap (λ fl. closed_with (close_file_of fl f f.handle))
          (faults_of_open f no_faults H.file_open)
      ∙ subst Closed (sym H.opened) (
          ap
            (λ e. (
              answer_of e,
              record (with_file out.1 out.2 f) { closed = true; close_result = some e },
            ))
            no_error)
    where
      Closed : Option Handle → Type 0
      Closed h = closed_with (close_file_of no_faults f h) ≡ (ok tt, closed_engine)

      no_error : close_errors no_faults out ≡ none
      no_error = rw good refl

  pub all_written : get H.file.name closed_engine.disk ≡ some (H.bytes ++ H.file.buffer)
  all_written =
      moved.here
      ∙ ap (λ b. some (H.bytes ++ b))
          (sym (append-nil moved.gone)
            ∙ ap (λ b. moved.gone ++ b)
                (sym (flush_buffer-Empties no_faults flush H.file f.disk good)
                  ∙ (moved.whole good).0)
            ∙ moved.split
            ∙ append-nil H.file.buffer)

  pub none_after : (b : ℕ) → f.active_seg_base < b → get (segment b) closed_engine.disk ≡ none
  none_after b h = none_later f rs H [] out moved b h
