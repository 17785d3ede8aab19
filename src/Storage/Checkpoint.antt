-- ===== src/Storage/Checkpoint.antt =====
-- storage_file.go: pruning to its end, and Commit, when no call fails.
use mathlib.Core.Path.{subst}
use walspool.Base.{
  ℕ, ◌+◌, ◌<◌, ◌≤◌, ◌≡◌, refl, sym, ap, ◌∙◌, not, ◌&&◌, List, some, length, drop, take, Option,
  Bytes, none, arith, if_cases, if◌then◌else◌, ltb, leb, add64, sle,
}
use walspool.Errors.{Result, ok}
use walspool.Record.{Record, put_be}
use walspool.Storage.State.{
  faults_of_open, SyncPolicy, sync_every_record, sync_batch_commit, sync_interval, FileStorage,
  no_faults, segment_path,
}
use walspool.Storage.Reading.{flush_writer, after_flushing}
use walspool.Storage.Commits.{advance, write_checkpoint, sync_batch, commit}
use walspool.Storage.Files.{get}
use walspool.Storage.Index.{All-map}
use walspool.Storage.Invariant.{Holds, IsFresh}
use walspool.Storage.Flushes.{drained, drained-Holds, flush_handle-drained}
use walspool.Storage.Keeps.{SameStart}
use walspool.Storage.PruneLoop.{Prunes, Removed, nothing_pruned, prune_committed_segments-Prunes}

-- What a commit of `offset` has done: it succeeds, the checkpoint is behind the offset, and its
-- file has it, or both are as they were where the checkpoint lay there or further; and the first
-- `n` records may be gone, with the files of their segments.
pub record Commits (f : FileStorage) (rs : List Record) (offset : ℕ)
    (p : Result (Unit {0}) × FileStorage) : Type 0 where
  pub answer : p.0 ≡ ok tt
  pub n : ℕ
  pub holds : Holds p.1 (drop n rs)
  pub base_moves : p.1.base_offset ≡ f.base_offset + n
  pub removed : Removed f (take n f.records) p.1.disk
  pub reaches :
      p.1.checkpoint ≡ (if ltb f.checkpoint (offset + 1) then offset + 1 else f.checkpoint)
  pub saved :
      p.1.checkpoint_meta
      ≡ (if ltb f.checkpoint (offset + 1) then some (put_be 8 (offset + 1)) else f.checkpoint_meta)
  pub stays_fresh : IsFresh f → IsFresh p.1

newer : (a b : ℕ) (x y : Option Bytes) → a < b → (if ltb a b then x else y) ≡ x
newer a b x y h = ground arith

older : (a b : ℕ) (x y : Option Bytes) → b ≤ a → (if ltb a b then x else y) ≡ y
older a b x y h = ground arith

-- The flush and the sync of SyncBatchCommit.
abbrev Synced : FileStorage → List Record → Result (Unit {0}) × FileStorage → Type 0
Synced f rs p =
    (g : FileStorage) × (p ≡ (ok tt, g))
    × Holds g rs
    × SameStart f g
    × (g.records ≡ f.records)
    × ((b : ℕ) → segment_path g b ≡ segment_path f b)
    × (IsFresh f → IsFresh g)

sync_batch-Synced :
    (f : FileStorage) (rs : List Record)
    → Holds f rs
    → (p : SyncPolicy) → Synced f rs (sync_batch p no_faults f)
unfolding sync_batch flush_writer after_flushing segment_path
sync_batch-Synced f rs H sync_every_record = (f, refl, H, (refl, refl), refl, λ b. refl, λ h. h)
sync_batch-Synced f rs H sync_interval = (f, refl, H, (refl, refl), refl, λ b. refl, λ h. h)
sync_batch-Synced f rs H sync_batch_commit = (
  drained f rs H,
  ap (after_flushing no_faults) (flush_handle-drained f rs H),
  drained-Holds f rs H,
  (refl, refl),
  refl,
  λ b. refl,
  λ h. h,
)

module _ (f : FileStorage) (rs : List Record) (H : Holds f rs) (new : ℕ) (low : f.checkpoint ≤ new)
    (high : new ≤ f.base_offset + length f.records) where
  abbrev moved : FileStorage
  moved = record f { checkpoint_meta = some (put_be 8 new); checkpoint = new }

  pub moved-Holds : Holds moved rs
  unfolding segment_path
  moved-Holds = record {
    file = H.file;
    bytes = H.bytes;
    is_open = H.is_open;
    file_open = H.file_open;
    opened = H.opened;
    named = H.named;
    ready = H.ready;
    position = H.position;
    kept = H.kept;
    counted = H.counted;
    placed = H.placed;
    ordered = H.ordered;
    active_low = H.active_low;
    small = H.small;
    checkpoint_low = omega (arith, H.checkpoint_low, low);
    checkpoint_high = high;
    none_behind = H.none_behind;
  }

  advance-Prunes : Prunes moved rs (advance no_faults new f)
  unfolding advance
  advance-Prunes =
      if_cases (Prunes moved rs) (not (sle f.opts.max_segment_size 0) && ltb 0 (length f.records))
        (λ c. (prune_committed_segments-Prunes moved rs moved-Holds).0)
        (λ c. nothing_pruned moved rs moved-Holds)

module _ (f : FileStorage) (rs : List Record) (H : Holds f rs) (offset : ℕ)
    (inside : offset < f.base_offset + length f.records) where
  pub next_word : add64 offset 1 ≡ offset + 1
  next_word = omega (arith, H.small)

  written-Commits :
      (f.checkpoint < offset + 1)
      → (p : Result (Unit {0}) × FileStorage) → Synced f rs p
      → Commits f rs offset (write_checkpoint no_faults (offset + 1) p)
  unfolding write_checkpoint segment_path
  written-Commits lt p (g, e, h, (c, b), l, path, fresh) =
      subst (λ p. Commits f rs offset (write_checkpoint no_faults (offset + 1) p)) (sym e)
        (record {
          answer = refl;
          n = q.n;
          holds = q.holds;
          base_moves = omega (arith, q.base_moves, b);
          removed =
              subst (λ l. Removed f (take q.n l) (advance no_faults (offset + 1) g).disk) l
                (All-map _ _ (take q.n g.records)
                  (λ x r.
                    subst (λ m. get m (advance no_faults (offset + 1) g).disk ≡ none)
                      (path x.seg_base) r)
                  q.removed);
          reaches = q.same_checkpoint ∙ (ground (arith, lt));
          saved = q.same_meta ∙ sym (newer _ _ _ _ lt);
          stays_fresh = λ x. q.stays_fresh (fresh x);
        })
    where
      q :
          Prunes
            (record g { checkpoint_meta = some (put_be 8 (offset + 1)); checkpoint = offset + 1 })
            rs
            (advance no_faults (offset + 1) g)
      q = advance-Prunes g rs h (offset + 1) (omega (arith, c)) (omega (arith, b, ap length l))

  -- A commit of the offset of a record that is held, with no faults, succeeds, and moves the
  -- checkpoint behind it, in the engine and in the checkpoint file, or leaves both as they were
  -- where the checkpoint lies there or further. The engine holds the records from some offset on,
  -- at most the checkpoint; those before it are gone with the files of their segments.
  pub commit-Commits : Commits f rs offset (commit no_faults offset f)
  unfolding commit
  commit-Commits =
      if_cases (Commits f rs offset) f.closed (λ c. absurd (cc (c, H.is_open)))
        (λ c.
          rw (next_word, faults_of_open f no_faults H.file_open)
            (if_cases (Commits f rs offset) (leb (offset + 1) f.checkpoint)
              (λ old. record {
                answer = refl;
                n = 0;
                holds = H;
                base_moves = omega arith;
                removed = tt;
                reaches = ground arith;
                saved = sym (
                    older f.checkpoint (offset + 1) (some (put_be 8 (offset + 1))) f.checkpoint_meta
                      (ground arith));
                stays_fresh = λ h. h;
              })
              (λ new.
                written-Commits (ground arith) (sync_batch f.opts.sync_policy no_faults f)
                  (sync_batch-Synced f rs H f.opts.sync_policy))))
