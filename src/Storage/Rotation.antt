-- ===== src/Storage/Rotation.antt =====
-- storage_file.go: the engine after `rotateSegment`, when its calls succeed.
use mathlib.Core.List.{append-nil}
use walspool.Base.{
  ℕ, ◌+◌, ◌<◌, ◌≡◌, ◌≢◌, refl, sym, ap, ◌∙◌, inl, inr, true, false, List, [], ◌∷◌, ◌++◌, none, some,
  Bytes, length, All, arith, Bool-cases, ◌==◌, ==_iff,
}
use walspool.Record.{Record}
use walspool.Storage.{OffsetPos}
use walspool.Storage.Files.{Dir, get, get-put, contents, create, name_eq_refl, segment}
use walspool.Storage.State.{Handle, FileStorage, no_faults, segment_path, flush}
use walspool.Storage.Operations.{rotate_segment, leave_segment, open_segment_file}
use walspool.Storage.Index.{Kept, AllKept-carry, Kept-unmoved, Counted-lt, InPlace}
use walspool.Storage.Invariant.{
  content, content_active, content_other, Holds, name-other, name-later, path-later,
}
use walspool.Storage.Writer.{Outcome, flush_buffered}
use walspool.Storage.Writer.Moves.{Moves, flush_buffered-Moves}
use walspool.Storage.Writer.Calls.{flush_buffered-Empties}
use walspool.Storage.Writer.Succeeds.{flush_buffered-Good}
use walspool.Storage.Appending.{others_kept, none_later}

module _ (f : FileStorage) (rs : List Record) (H : Holds f rs) where
  abbrev next : ℕ
  next = f.base_offset + length f.records

  abbrev x : Bytes
  x = H.bytes ++ H.file.buffer

  module _ (o : Outcome) (m : Moves H.bytes [] H.file f.disk o) (good : o.0 ≡ true)
      (empty : o.1.buffer ≡ []) (more : f.active_seg_base < next) where
    abbrev disk : Dir
    disk = create (segment_path f next) o.2

    all_gone : H.bytes ++ m.gone ≡ x
    all_gone =
        ap (λ b. H.bytes ++ b)
          (sym (append-nil m.gone)
            ∙ ap (λ b. m.gone ++ b) (sym empty ∙ (m.whole good).0)
            ∙ m.split
            ∙ append-nil H.file.buffer)

    old_there : get (segment_path f f.active_seg_base) o.2 ≡ some x
    old_there = rw (sym H.named) (m.here ∙ ap some all_gone)

    new_empty : contents (segment_path f next) o.2 ≡ []
    new_empty =
        rw (path-later f f.active_seg_base next more, none_later f rs H [] o m next more) refl

    get_other :
        (base : ℕ) → base ≢ next → get (segment_path f base) disk ≡ get (segment_path f base) o.2
    unfolding create
    get_other base ne =
        rw
          (
            get-put (segment_path f next) (segment_path f base) (contents (segment_path f next) o.2)
                o.2,
            name-other f next base (λ e. ne (sym e)),
          )
          refl

    same_content :
        (base : ℕ)
        → base < next
        → content next (segment_path f) disk [] base
          ≡ content f.active_seg_base (segment_path f) f.disk x base
    same_content base lt =
        content_other next (segment_path f) disk [] base ne
        ∙ get_other base ne
        ∙ elim (Bool-cases (base == f.active_seg_base)) [
          | inl e ↦
              let here : base ≡ f.active_seg_base = (==_iff _ _).0 e in
              rw here (old_there ∙ sym (content_active f.active_seg_base (segment_path f) f.disk x))
          | inr e ↦
              let off : base ≢ f.active_seg_base = λ q. ground arith in
              others_kept f rs H [] o m base off
              ∙ sym (content_other f.active_seg_base (segment_path f) f.disk x base off)
        ]
      where
        ne : base ≢ next
        ne q = omega arith

    abbrev new_handle : Handle
    new_handle = record { name = segment_path f next; pos = 0; buffer = []; write_err = false }

    abbrev pub rotated : FileStorage
    rotated = record f {
      active_seg_base = next;
      handle = some new_handle;
      disk = disk;
      write_pos = 0;
    }

    -- Every entry lies before the new segment.
    earlier :
        (es : List OffsetPos)
        → All (InPlace f.active_seg_base f.write_pos) es
        → All (λ e. e.offset < next) es
        → All (InPlace next 0) es
    earlier [] p q = tt
    earlier (e ∷ es) (inl (here, inside, low), ps) (q, qs) =
        (inr (omega arith, q), earlier es ps qs)
    earlier (e ∷ es) (inr (before, low), ps) (q, qs) = (inr (omega arith, q), earlier es ps qs)

    pub all_earlier : All (InPlace next 0) f.records
    all_earlier = earlier f.records H.placed (Counted-lt f.base_offset f.records H.counted)

    carried :
        (e : OffsetPos) (r : Record)
        → InPlace next 0 e
        → Kept (content f.active_seg_base (segment_path f) f.disk x) e r
        → Kept (content next (segment_path f) disk []) e r
    carried e r (inl (here, inside, low)) k = absurd (omega (arith, k.sized, inside))
    carried e r (inr (before, low)) k = Kept-unmoved _ _ e r k (same_content e.seg_base before)

    new_there : get (segment_path f next) disk ≡ some []
    unfolding create
    new_there =
        rw
          (
            get-put (segment_path f next) (segment_path f next) (contents (segment_path f next) o.2)
                o.2,
            name_eq_refl (segment_path f next),
          )
          (ap some new_empty)

    none_behind : (b : ℕ) → next < b → get (segment b) disk ≡ none
    unfolding create
    none_behind b h =
        rw
          (
            get-put (segment_path f next) (segment b) (contents (segment_path f next) o.2) o.2,
            name-later f next b h,
          )
          (none_later f rs H [] o m b (omega arith))

    pub rotated-Holds : Holds rotated rs
    unfolding segment_path create
    rotated-Holds = record {
      file = new_handle;
      bytes = [];
      is_open = H.is_open;
      file_open = H.file_open;
      opened = refl;
      named = refl;
      ready = record { there = new_there; at_end = refl; sound = refl };
      position = refl;
      kept = AllKept-carry (InPlace next 0) _ _ f.records rs carried all_earlier H.kept;
      counted = H.counted;
      placed = all_earlier;
      ordered = H.ordered;
      active_low = omega arith;
      small = H.small;
      checkpoint_low = H.checkpoint_low;
      checkpoint_high = H.checkpoint_high;
      none_behind = none_behind;
    }

  -- `rotateSegment` with no faults.
  module _ (more : f.active_seg_base < next) where
    abbrev pub flushed : Outcome
    flushed = flush_buffered no_faults flush H.file f.disk

    pub moved : Moves H.bytes [] H.file f.disk flushed
    moved = flush_buffered-Moves H.bytes H.file f.disk H.ready no_faults flush

    pub went_well : flushed.0 ≡ true
    went_well = flush_buffered-Good H.file f.disk H.ready.sound flush

    pub emptied : flushed.1.buffer ≡ []
    emptied = flush_buffered-Empties no_faults flush H.file f.disk went_well

    abbrev pub renewed : FileStorage
    renewed = rotated flushed moved went_well emptied more

    pub renewed-Holds : Holds renewed rs
    renewed-Holds = rotated-Holds flushed moved went_well emptied more

    left :
        (o : Outcome)
        → (m : Moves H.bytes [] H.file f.disk o) → (g : o.0 ≡ true) (e : o.1.buffer ≡ [])
        → leave_segment no_faults next o f ≡ (none, rotated o m g e more)
    unfolding leave_segment open_segment_file segment_path
    left (true, h', d') m g e = refl
    left (false, h', d') m g e = absurd cc

    pub rotate_segment-renewed : rotate_segment no_faults next H.file f ≡ (none, renewed)
    unfolding rotate_segment
    rotate_segment-renewed = left flushed moved went_well emptied
