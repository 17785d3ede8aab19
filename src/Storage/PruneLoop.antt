-- ===== src/Storage/PruneLoop.antt =====
-- storage_file.go: pruneCommittedSegments to its end, when no call fails.
use mathlib.Core.Path.{subst}
use walspool.Base.{
  ℕ, zero, suc, ◌+◌, ◌<◌, ◌≤◌, ◌≡◌, refl, sym, ap, ◌∙◌, inl, inr, true, false, List, [], ◌∷◌,
  length, drop, drop-drop, take, All, Bool, Option, none, Bytes, if◌then◌else◌, arith, if_cases,
}
use walspool.Record.{Record}
use walspool.Storage.{OffsetPos}
use walspool.Storage.State.{FileStorage, no_faults, segment_path}
use walspool.Storage.Commits.{
  prunable, prune_segment, prune_round, prune_rounds, prune_committed_segments,
}
use walspool.Storage.Invariant.{Holds, IsFresh}
use walspool.Storage.Prunes.{k, pruned, pruned-Holds, base_moved, rest_length}
use walspool.Storage.Segments.{skipped, skipped_there, behind_segment-drop, skipped-le}
use walspool.Storage.Index.{All-map}
use walspool.Storage.Files.{FileName, Dir, get, remove, get-remove, name_eq, name_eq_refl}

-- The first segment of the index may not go.
abbrev pub StaysPut : FileStorage → List OffsetPos → Type 0
StaysPut f [] = Unit {0}
StaysPut f (e ∷ es) = prunable f e es ≡ false

-- The files of segments are gone.
abbrev pub Removed : FileStorage → List OffsetPos → Dir → Type 0
Removed f es d = All (λ e. get (segment_path f e.seg_base) d ≡ none) es

-- The first `n` records are gone, with the files of their segments, and the offsets of the others
-- are as they were.
pub record Prunes (f : FileStorage) (rs : List Record) (g : FileStorage) : Type 0 where
  pub n : ℕ
  pub entries : g.records ≡ drop n f.records
  pub removed : Removed f (take n f.records) g.disk
  pub no_new_file : (name : FileName) → get name f.disk ≡ none → get name g.disk ≡ none
  pub same_path : (b : ℕ) → segment_path g b ≡ segment_path f b
  pub same_meta : g.checkpoint_meta ≡ f.checkpoint_meta
  pub holds : Holds g (drop n rs)
  pub base_moves : g.base_offset ≡ f.base_offset + n
  pub same_checkpoint : g.checkpoint ≡ f.checkpoint
  pub stays_fresh : IsFresh f → IsFresh g

still :
    (t : Bool) {before after : Option Bytes}
    → after ≡ (if t then none else before)
    → before ≡ none
    → after ≡ none
still true e h = e
still false e h = e ∙ h

module _ (f : FileStorage) (rs : List Record) (H : Holds f rs) where
  pub nothing_pruned : Prunes f rs f
  nothing_pruned = record {
    n = 0;
    entries = refl;
    removed = tt;
    no_new_file = λ name h. h;
    same_path = λ b. refl;
    same_meta = refl;
    holds = H;
    base_moves = omega arith;
    same_checkpoint = refl;
    stays_fresh = λ h. h;
  }

  module _ (e : OffsetPos) (es : List OffsetPos) (split : f.records ≡ e ∷ es)
      (p : prunable f e es ≡ true) where
    abbrev next : FileStorage
    next = pruned f rs H e es split p

    fewer : length next.records < length f.records
    unfolding prune_segment
    fewer = omega (arith, rest_length f rs H e es split p, ap length split)

    one_gone : Removed f (take (k f rs H e es split p) f.records) next.disk
    unfolding prune_segment segment_path
    one_gone = rw split (
      gone e refl,
      All-map _ _ (take (skipped e.seg_base es) es) gone (skipped_there e.seg_base es),
    )
      where
        gone :
            (x : OffsetPos)
            → x.seg_base ≡ e.seg_base
            → get (segment_path f x.seg_base) (remove (segment_path f e.seg_base) f.disk) ≡ none
        gone x q =
            rw
              (
                q,
                get-remove (segment_path f e.seg_base) (segment_path f e.seg_base) f.disk,
                name_eq_refl (segment_path f e.seg_base),
              )
              refl

    one_pruned : Prunes f rs next
    unfolding prune_segment segment_path
    one_pruned = record {
      n = k f rs H e es split p;
      entries = rw split (behind_segment-drop e.seg_base es);
      removed = one_gone;
      no_new_file = λ name h.
          still (name_eq (segment_path f e.seg_base) name)
            (get-remove (segment_path f e.seg_base) name f.disk) h;
      same_path = λ b. refl;
      same_meta = refl;
      holds = pruned-Holds f rs H e es split p;
      base_moves = base_moved f rs H e es split p;
      same_checkpoint = refl;
      stays_fresh = λ h. elim h [
        | inl z ↦ inl z
        | inr m ↦ inr (
            omega (
              arith,
              m,
              base_moved f rs H e es split p,
              rest_length f rs H e es split p,
              ap length split,
              skipped-le e.seg_base es,
            ))
      ];
    }

All-take-drop :
    (P : OffsetPos → Type 0) (m n : ℕ) (xs : List OffsetPos)
    → All P (take m xs)
    → All P (take n (drop m xs))
    → All P (take (m + n) xs)
All-take-drop P zero n xs p q = let z : 0 + n ≡ n = omega arith in rw z q
All-take-drop P (suc m) n [] p q = let z : suc m + n ≡ suc (m + n) = omega arith in rw z tt
All-take-drop P (suc m) n (x ∷ xs) (p, ps) q =
    let z : suc m + n ≡ suc (m + n) = omega arith in rw z (p, All-take-drop P m n xs ps q)

then_pruned :
    (f : FileStorage) (rs : List Record) (g h : FileStorage) (p : Prunes f rs g)
    → Prunes g (drop p.n rs) h
    → Prunes f rs h
then_pruned f rs g h p q = record {
  n = p.n + q.n;
  entries = q.entries ∙ ap (drop q.n) p.entries ∙ drop-drop p.n q.n (p.n + q.n) f.records refl;
  removed =
      All-take-drop _ p.n q.n f.records
        (All-map _ _ (take p.n f.records) (λ e h. q.no_new_file (segment_path f e.seg_base) h)
          p.removed)
        (subst (λ l. Removed f (take q.n l) h.disk) p.entries
          (All-map _ _ (take q.n g.records)
            (λ e r. subst (λ m. get m h.disk ≡ none) (p.same_path e.seg_base) r) q.removed));
  no_new_file = λ name r. q.no_new_file name (p.no_new_file name r);
  same_path = λ b. q.same_path b ∙ p.same_path b;
  same_meta = q.same_meta ∙ p.same_meta;
  holds = subst (Holds h) (drop-drop p.n q.n (p.n + q.n) rs refl) q.holds;
  base_moves = omega (arith, p.base_moves, q.base_moves);
  same_checkpoint = q.same_checkpoint ∙ p.same_checkpoint;
  stays_fresh = λ e. q.stays_fresh (p.stays_fresh e);
}

-- The engine is pruned, and the first segment may not go.
abbrev Ends : FileStorage → List Record → FileStorage → Type 0
Ends f rs g = Prunes f rs g × StaysPut g g.records

by_first :
    (rest : FileStorage → FileStorage) (f : FileStorage) (rs : List Record)
    → Holds f rs
    → ((g : FileStorage) (qs : List Record)
        → Holds g qs
        → length g.records < length f.records
        → Ends g qs (rest g))
    → (l : List OffsetPos) → f.records ≡ l
    → Ends f rs (prune_round no_faults rest f l)
unfolding prune_round
by_first rest f rs H ih [] split = (nothing_pruned f rs H, subst (StaysPut f) (sym split) tt)
by_first rest f rs H ih (e ∷ es) split =
    if_cases (Ends f rs) (prunable f e es)
      (λ p.
        let q = one_pruned f rs H e es split p in
        let (r, s) =
          ih (pruned f rs H e es split p) (drop q.n rs) q.holds (fewer f rs H e es split p) in
        (then_pruned f rs _ _ q r, s))
      (λ p. (nothing_pruned f rs H, subst (StaysPut f) (sym split) p))

none_left : (f : FileStorage) (l : List OffsetPos) → length l ≤ 0 → StaysPut f l
none_left f [] h = tt
none_left f (e ∷ es) h = absurd (omega arith)

-- The loop ends with rounds for all records.
prune_rounds-Ends :
    (n : ℕ) (f : FileStorage) (rs : List Record)
    → Holds f rs
    → length f.records ≤ n
    → Ends f rs (prune_rounds n no_faults f)
unfolding prune_rounds
prune_rounds-Ends zero f rs H le = (nothing_pruned f rs H, none_left f f.records le)
prune_rounds-Ends (suc n) f rs H le =
    by_first (λ g. prune_rounds n no_faults g) f rs H
      (λ g qs h l. prune_rounds-Ends n g qs h (omega arith)) f.records refl

-- Pruning an engine that holds `rs`, with no faults, ends: records are gone from the front, and the
-- files of their segments with them, all before the checkpoint; the rest is held with its
-- offsets, the checkpoint and its file are as they were, and the first segment that is left is
-- the active one or has a record that is not committed.
pub prune_committed_segments-Prunes :
    (f : FileStorage) (rs : List Record)
    → Holds f rs
    → Prunes f rs (prune_committed_segments no_faults f)
      × StaysPut
          (prune_committed_segments no_faults f)
          (prune_committed_segments no_faults f).records
unfolding prune_committed_segments
prune_committed_segments-Prunes f rs H = prune_rounds-Ends (length f.records) f rs H (omega arith)
