-- ===== src/Storage/Restored.antt =====
-- storage_file.go: the engine after `rollbackTo`, when the calls of the rollback succeed.
use mathlib.Core.List.{append_assoc, append-nil}
use mathlib.Core.Path.{subst}
use walspool.Base.{
  ℕ, ◌+◌, ◌-◌, ◌<◌, ◌≤◌, ◌≡◌, ◌≢◌, refl, sym, ap, ◌∙◌, inl, inr, true, false, List, [], ◌∷◌, ◌++◌,
  none, some, Bytes, length, take, length-append, take_all, take_front, All, arith, leb, Bool-cases,
  length-take, min,
}
use walspool.Record.{Record}
use walspool.Storage.{OffsetPos}
use walspool.Storage.Files.{get, get-put, put, contents, or_empty, resized, name_eq_refl, segment}
use walspool.Storage.State.{Handle, FileStorage, Faults, segment_path, stat, truncate, seek}
use walspool.Storage.Operations.{with_file, rollback_target, rollback_to, drop_trailing, beyond}
use walspool.Storage.Index.{
  AllKept, AllKept-take, Counted-take, InPlace, Ordered-take, Agree, All-take,
}
use walspool.Storage.Invariant.{content, Holds, AllKept-change, name-other, name-later}
use walspool.Storage.Rollback.{
  drop_trailing-take, drop_trailing-Spared, drop_trailing_none, drop_trailing_bound,
  beyond-Monotone, Spared-InPlace, inside-Spared,
}
use walspool.Storage.Writer.{Outcome}
use walspool.Storage.Writer.Moves.{Moves}
use walspool.Storage.Appending.{others_kept, none_later}

-- The calls of a rollback succeed.
pub record IsMended (fl : Faults) : Type 0 where
  pub stats : fl.fails stat ≡ false
  pub truncates : fl.fails truncate ≡ false
  pub seeks : fl.fails seek ≡ false

-- The committed records have reached their file.
abbrev pub Reached : (f : FileStorage) (rs : List Record) → Holds f rs → Type 0
Reached f rs H =
    All (λ e. e.offset < f.checkpoint → InPlace f.active_seg_base (length H.bytes) e) f.records

module _ (f : FileStorage) (rs : List Record) (H : Holds f rs) (given : Bytes) (o : Outcome)
    (m : Moves H.bytes given H.file f.disk o) (fl : Faults) (mended : IsMended fl) where
  abbrev x : Bytes
  x = H.bytes ++ H.file.buffer

  -- What the file holds when the rollback starts.
  abbrev file : Bytes
  file = H.bytes ++ m.gone

  abbrev target : ℕ
  target = rollback_target fl f.write_pos (length file)

  abbrev pub es : List OffsetPos
  es = drop_trailing (beyond f.active_seg_base target) f.records

  target_lem : target ≡ min f.write_pos (length file)
  unfolding rollback_target
  target_lem = simp (mended.stats) (ground arith)

  first_bytes : file ++ m.left ≡ x ++ given
  first_bytes =
      append_assoc H.bytes m.gone m.left
      ∙ ap (λ b. H.bytes ++ b) m.split
      ∙ sym (append_assoc H.bytes H.file.buffer given)

  cut_length : length (take target file) ≡ target
  cut_length = omega (arith, length-take target file, target_lem)

  cut_Agree : Agree target x (take target file ++ [])
  cut_Agree = rw (append-nil (take target file)) (
    omega (arith, H.position, target_lem),
    omega (arith, cut_length),
    sym (take_front target x given (omega (arith, H.position, target_lem)))
        ∙ ap (take target) (sym first_bytes)
        ∙ take_front target file m.left (omega (arith, target_lem))
        ∙ sym (take_all target (take target file) (omega (arith, cut_length))),
  )

  resized_cut : resized target file ≡ take target file
  unfolding resized
  resized_cut =
      let z : target - length file ≡ 0 = omega (arith, target_lem) in
      rw (z, append-nil (take target file)) refl

  spared : All (InPlace f.active_seg_base target) es
  spared =
      Spared-InPlace f.active_seg_base target f.write_pos es
        (drop_trailing-Spared (beyond f.active_seg_base target) f.records
          (beyond-Monotone f.active_seg_base target f.write_pos f.records H.ordered H.placed))
        (rw (drop_trailing-take (beyond f.active_seg_base target) f.records)
          (All-take _ (length es) f.records H.placed))

  -- A picked entry lies in the active segment.
  picked_low :
      (ps : List OffsetPos)
      → All (InPlace f.active_seg_base f.write_pos) ps
      → All (λ e. beyond f.active_seg_base target e ≡ true → f.active_seg_base ≤ e.offset) ps
  unfolding beyond
  picked_low [] p = tt
  picked_low (e ∷ ps) (inl (here, inside, low), p) = (λ t. low, picked_low ps p)
  picked_low (e ∷ ps) (inr (before, low), p) = (λ t. absurd (ground arith), picked_low ps p)

  ends_early :
      (e : OffsetPos)
      → e.seg_base ≡ f.active_seg_base
      → InPlace f.active_seg_base (length H.bytes) e
      → e.pos + e.size ≤ f.write_pos
      → target < e.pos + e.size
      → ⊥
  ends_early e here (inl (h, inside, low)) w out =
      omega (arith, target_lem, length-append H.bytes m.gone)
  ends_early e here (inr (before, low)) w out = omega arith

  -- It is not committed.
  picked_uncommitted :
      (ps : List OffsetPos)
      → All (InPlace f.active_seg_base f.write_pos) ps
      → All (λ e. e.offset < f.checkpoint → InPlace f.active_seg_base (length H.bytes) e) ps
      → All (λ e. beyond f.active_seg_base target e ≡ true → f.checkpoint ≤ e.offset) ps
  unfolding beyond
  picked_uncommitted [] p q = tt
  picked_uncommitted (e ∷ ps) (inl (here, inside, low), p) (q, qs) = (
    (λ t. elim (Bool-cases (leb f.checkpoint e.offset)) [
      | inl l ↦ ground arith
      | inr l ↦ absurd (ends_early e here (q (ground arith)) inside (ground arith))
    ]),
    picked_uncommitted ps p qs,
  )
  picked_uncommitted (e ∷ ps) (inr (before, low), p) (q, qs) =
      (λ t. absurd (ground arith), picked_uncommitted ps p qs)

  prefix : es ≡ take (length es) f.records
  prefix = drop_trailing-take (beyond f.active_seg_base target) f.records

  records_low : f.active_seg_base ≤ f.base_offset + length es
  records_low =
      drop_trailing_bound _ f.active_seg_base f.base_offset f.records
        (picked_low f.records H.placed) H.counted H.active_low

  contents_there : contents o.1.name o.2 ≡ file
  contents_there = rw (m.name_kept) (ap or_empty m.here)

  end_at_target : length (take target file ++ []) ≡ target
  end_at_target = rw (append-nil (take target file)) cut_length

  others_after :
      (base : ℕ)
      → base ≢ f.active_seg_base
      → get (segment_path f base) (put o.1.name (take target file) o.2)
        ≡ get (segment_path f base) f.disk
  others_after base ne =
      rw
        (
          get-put o.1.name (segment_path f base) (take target file) o.2,
          m.name_kept ∙ H.named,
          name-other f f.active_seg_base base (λ e. ne (sym e)),
        )
        (others_kept f rs H given o m base ne)

  none_after :
      (b : ℕ) → f.active_seg_base < b → get (segment b) (put o.1.name (take target file) o.2) ≡ none
  none_after b h =
      rw
        (
          get-put o.1.name (segment b) (take target file) o.2,
          m.name_kept ∙ H.named,
          name-later f f.active_seg_base b h,
        )
        (none_later f rs H given o m b h)

  there_after : get o.1.name (put o.1.name (take target file) o.2) ≡ some (take target file)
  there_after = rw (get-put o.1.name o.1.name (take target file) o.2, name_eq_refl o.1.name) refl

  abbrev mended_handle : Handle
  mended_handle = record o.1 { pos = target; buffer = []; write_err = false }

  -- The engine that the rollback leaves.
  abbrev back : FileStorage
  back = record (with_file mended_handle (put o.1.name (take target file) o.2) f) {
    write_pos = target;
    records = es;
  }

  pub rollback_to-back : rollback_to fl f.write_pos o.1 (with_file o.1 o.2 f) ≡ back
  unfolding rollback_to
  rollback_to-back = simp (contents_there, mended.seeks, mended.truncates, resized_cut) refl

  pub back-Holds : Reached f rs H → Holds back (take (length es) rs)
  unfolding segment_path
  back-Holds reached = record {
    file = mended_handle;
    bytes = take target file;
    is_open = H.is_open;
    file_open = H.file_open;
    opened = refl;
    named = m.name_kept ∙ H.named;
    ready = record { there = there_after; at_end = sym cut_length; sound = refl };
    position = sym end_at_target;
    kept =
        AllKept-change f.active_seg_base (segment_path f) f.disk
          (put o.1.name (take target file) o.2) x (take target file ++ []) target es
          (take (length es) rs) others_after cut_Agree spared
          (subst
            (λ l.
              AllKept (content f.active_seg_base (segment_path f) f.disk x) l (take (length es) rs))
            (sym prefix) (AllKept-take _ (length es) f.records rs H.kept));
    counted = rw prefix (Counted-take (length es) f.base_offset f.records H.counted);
    placed = spared;
    ordered = rw prefix (Ordered-take (length es) f.records H.ordered);
    active_low = records_low;
    small = omega (arith, H.small, ap length prefix, length-take (length es) f.records);
    checkpoint_low = H.checkpoint_low;
    checkpoint_high =
        drop_trailing_bound _ f.checkpoint f.base_offset f.records
          (picked_uncommitted f.records H.placed reached) H.counted H.checkpoint_high;
    none_behind = none_after;
  }

  -- Where nothing was buffered, no record is dropped.
  pub all_back : H.file.buffer ≡ [] → length es ≡ length f.records
  all_back empty = ap length (
      drop_trailing_none _ f.records
        (inside-Spared f.active_seg_base target f.records (rw whole H.placed)))
    where
      whole : target ≡ f.write_pos
      whole = omega (
        arith,
        target_lem,
        H.position,
        length-append H.bytes m.gone,
        length-append H.bytes H.file.buffer,
        ap length empty,
      )
