-- ===== src/Storage/Runs.antt =====
-- storage_file.go: the life of an engine with one segment, call by call.
use mathlib.Core.List.{append-nil}
use mathlib.Core.Path.{subst}
use walspool.Base.{
  ℕ, ◌+◌, ◌^◌, ◌<◌, ◌≤◌, ◌≡◌, refl, sym, ap, ◌∙◌, true, false, not, ◌&&◌, ◌==◌, List, [], ◌∷◌, ◌++◌,
  Option, some, Bytes, length, arith, max_log, max_batch, sle, ltb, leb, if_cases,
}
use walspool.Errors.{Result, ok, err}
use walspool.Record.{Record, put_be}
use walspool.Record.Endian.{get_be-put_be}
use walspool.Storage.State.{
  faults_of_open, SyncPolicy, sync_every_record, sync_batch_commit, sync_interval,
  FileStorageOptions, FileStorage, no_faults,
}
use walspool.Storage.Files.{Dir, or_empty}
use walspool.Storage.Recovery.{IsStored, frames}
use walspool.Storage.Opening.{checkpoint_of, new_with_options, defaulted}
use walspool.Storage.Operations.{append}
use walspool.Storage.Reading.{read_batch, flush_writer, after_flushing}
use walspool.Storage.Commits.{commit, close, sync_batch, write_checkpoint, advance}
use walspool.Storage.Reopening.{readings}
use walspool.Storage.Reopens.{
  IsLog, reopened, reopened-Holds, reopened-IsFresh, cut_there, new-reopened,
}
use walspool.Storage.Queue.{IsOpen, pending}
use walspool.Storage.Flushes.{drained_bytes, drained, drained-Holds, flush_handle-drained}
use walspool.Storage.Reads.{read_batch-drained}
use walspool.Storage.Checkpoint.{moved-Holds, next_word}
use walspool.Storage.RoundTrip.{IsSingle, new-close, AppendsSingle, append-AppendsSingle, count}

module _ (f : FileStorage) (rs : List Record) (S : IsSingle f rs) where
  abbrev next : FileStorage
  next = drained f (readings 0 rs) S.holds

  -- A flush.
  drained-IsSingle : IsSingle next rs
  drained-IsSingle = record {
    holds = drained-Holds f (readings 0 rs) S.holds;
    fresh = S.fresh;
    first_base = S.first_base;
    active = S.active;
    log_bytes = drained_bytes f (readings 0 rs) S.holds ∙ S.log_bytes;
    stored = S.stored;
    saved = S.saved;
    single = S.single;
    not_closed = S.not_closed;
  }

  read_batch-IsSingle : (n : ℕ) → 0 < n → n ≤ max_batch → IsSingle (read_batch no_faults n f).1 rs
  read_batch-IsSingle n pos small =
      subst (λ p. IsSingle p.1 rs) (sym (read_batch-drained f (readings 0 rs) S.holds n pos small))
        drained-IsSingle

  abbrev After : Result (Unit {0}) × FileStorage → Type 0
  After p = (p.0 ≡ ok tt) × IsSingle p.1 rs × (p.1.checkpoint ≡ f.checkpoint)

  sync_batch-After : (p : SyncPolicy) → After (sync_batch p no_faults f)
  unfolding sync_batch flush_writer after_flushing
  sync_batch-After sync_every_record = (refl, S, refl)
  sync_batch-After sync_interval = (refl, S, refl)
  sync_batch-After sync_batch_commit =
      subst After
        (sym (ap (after_flushing no_faults) (flush_handle-drained f (readings 0 rs) S.holds)))
        (refl, drained-IsSingle, refl)

put_be_8 : (n : ℕ) → n < 2 ^ 64 → checkpoint_of (some (put_be 8 n)) ≡ n
unfolding put_be
put_be_8 n h = get_be-put_be 8 n h

module _ (f : FileStorage) (rs : List Record) (S : IsSingle f rs) (new : ℕ)
    (low : f.checkpoint ≤ new) (high : new ≤ length rs) where
  advance-IsSingle : IsSingle (advance no_faults new f) rs
  unfolding advance
  advance-IsSingle =
      if_cases (λ g. IsSingle g rs)
        (not (sle f.opts.max_segment_size 0) && ltb 0 (length f.records))
        (λ c. absurd (ground (arith, c, S.single)))
        (λ c. record {
          holds =
              moved-Holds f (readings 0 rs) S.holds new low
                (omega (arith, high, count f rs S, S.first_base));
          fresh = S.fresh;
          first_base = S.first_base;
          active = S.active;
          log_bytes = S.log_bytes;
          stored = S.stored;
          saved = put_be_8 new (omega (arith, high, count f rs S, S.holds.small));
          single = S.single;
          not_closed = S.not_closed;
        })

module _ (f : FileStorage) (rs : List Record) (S : IsSingle f rs) (offset : ℕ)
    (inside : offset < length rs) where
  held : offset < f.base_offset + length f.records
  held = omega (arith, count f rs S)

  written :
      f.checkpoint < offset + 1
      → (p : Result (Unit {0}) × FileStorage) → After f rs S p
      → IsSingle (write_checkpoint no_faults (offset + 1) p).1 rs
  unfolding write_checkpoint
  written lt (ok u, g) (a, s, c) =
      advance-IsSingle g rs s (offset + 1) (omega (arith, c)) (omega arith)
  written lt (err x, g) (a, s, c) = s

  commit-IsSingle : IsSingle (commit no_faults offset f).1 rs
  unfolding commit
  commit-IsSingle =
      if_cases Single f.closed (λ c. absurd (cc (c, S.holds.is_open)))
        (λ c.
          rw
            (
              next_word f (readings 0 rs) S.holds offset held,
              faults_of_open f no_faults S.holds.file_open,
            )
            (if_cases Single (leb (offset + 1) f.checkpoint) (λ old. S)
              (λ new.
                written (ground arith) (sync_batch f.opts.sync_policy no_faults f)
                  (sync_batch-After f rs S f.opts.sync_policy))))
    where
      Single : Result (Unit {0}) × FileStorage → Type 0
      Single p = IsSingle p.1 rs

module _ (dir : Bytes) (max_capacity : ℕ) (o : FileStorageOptions) (disk : Dir)
    (meta : Option Bytes) (rs : List Record) (L : IsLog rs disk)
    (single : sle o.max_segment_size 0 ≡ true) (behind : checkpoint_of meta ≤ length rs) where
  abbrev fresh_engine : FileStorage
  fresh_engine = reopened dir max_capacity o disk meta rs L single

  fresh-IsSingle : IsSingle fresh_engine rs
  unfolding defaulted
  fresh-IsSingle = record {
    holds = reopened-Holds dir max_capacity o disk meta rs L single;
    fresh = reopened-IsFresh dir max_capacity o disk meta rs L single;
    first_base = refl;
    active = refl;
    log_bytes =
        ap (λ b. or_empty b ++ []) (cut_there dir max_capacity o disk meta rs L single)
        ∙ append-nil (frames rs);
    stored = L.stored;
    saved = ground (arith, behind);
    single = single;
    not_closed = refl;
  }

-- The life of an engine with one segment and no faults, with the records that its log has: it is
-- opened over a log that the stored checkpoint does not lie behind, and then takes appends of
-- records of at most 10 MB, reads and commits of records that it has, in any order.
pub data Runs : FileStorage → List Record → Type 0 where
  opened :
      (dir : Bytes) (max_capacity : ℕ) (o : FileStorageOptions) (disk : Dir) (meta : Option Bytes)
      (rs : List Record) (f : FileStorage)
      → IsLog rs disk
      → checkpoint_of meta ≤ length rs
      → (length dir == 0) ≡ false
      → sle max_capacity 0 ≡ false
      → sle o.max_segment_size 0 ≡ true
      → new_with_options no_faults dir max_capacity o disk meta ≡ some (ok tt, f)
      → Runs f rs
  appended :
      (f : FileStorage) (rs : List Record) (rec : Record) (n : ℕ) (g : FileStorage)
      → Runs f rs
      → IsStored rec
      → length rs < max_log
      → append no_faults rec f ≡ (ok n, g)
      → Runs g (rs ++ (rec ∷ []))
  read :
      (f : FileStorage) (rs : List Record) (n : ℕ)
      → Runs f rs
      → 0 < n
      → n ≤ max_batch
      → Runs (read_batch no_faults n f).1 rs
  committed :
      (f : FileStorage) (rs : List Record) (offset : ℕ)
      → Runs f rs
      → offset < length rs
      → Runs (commit no_faults offset f).1 rs

same_engine :
    (f g : FileStorage)
    → ◌≡◌ {A = Option (Result (Unit {0}) × FileStorage)} (some (ok tt, f)) (some (ok tt, g))
    → f ≡ g
same_engine f g e = cc e

runs-IsSingle : (f : FileStorage) (rs : List Record) → Runs f rs → IsSingle f rs
runs-IsSingle _ _ (opened dir room o disk meta rs f L behind named positive single e) =
    subst (λ h. IsSingle h rs)
      (same_engine _ _ (sym (new-reopened dir room o disk meta rs L single named positive) ∙ e))
      (fresh-IsSingle dir room o disk meta rs L single behind)
runs-IsSingle _ _ (appended f rs rec n g r w room e) =
    (subst (AppendsSingle f rs (runs-IsSingle f rs r) rec) e
      (append-AppendsSingle f rs (runs-IsSingle f rs r) rec w room)).1
runs-IsSingle _ _ (read f rs n r pos small) =
    read_batch-IsSingle f rs (runs-IsSingle f rs r) n pos small
runs-IsSingle _ _ (committed f rs offset r inside) =
    commit-IsSingle f rs (runs-IsSingle f rs r) offset inside

-- At any point in the life of an engine with one segment and no faults, in which no record had
-- more than 10 MB or a field out of range and there were at most 2 ^ 62 of them, no batch was
-- read of none or more than 2 ^ 32, the stored checkpoint did not lie behind the log that was
-- opened, and only records of the log were committed, the engine may be closed and its directory
-- opened again, with one segment, a name and a positive capacity: the new engine is open and has
-- the same records pending.
pub runs-Reopen :
    (f : FileStorage) (rs : List Record)
    → Runs f rs
    → (dir : Bytes) (max_capacity : ℕ) (o : FileStorageOptions) → (length dir == 0) ≡ false
    → sle max_capacity 0 ≡ false
    → sle o.max_segment_size 0 ≡ true
    → (g : FileStorage) × (new_with_options no_faults dir max_capacity o
          (close no_faults f).1.disk
          (close no_faults f).1.checkpoint_meta
        ≡ some (ok tt, g))
      × IsOpen g
      × (pending g ≡ pending f)
runs-Reopen f rs r = new-close f rs (runs-IsSingle f rs r)
