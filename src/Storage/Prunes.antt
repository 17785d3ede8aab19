-- ===== src/Storage/Prunes.antt =====
-- storage_file.go: pruneCommittedSegments when no call fails.
use walspool.Base.{
  ℕ, suc, ◌+◌, ◌-◌, ◌<◌, ◌≤◌, ◌≡◌, ◌≢◌, refl, sym, ap, ◌∙◌, inl, inr, Bool, true, false, List, [],
  ◌∷◌, ◌++◌, none, Bytes, length, length-drop, drop, All, arith, Bool-cases, ◌==◌, ==_iff,
  if◌then◌else◌,
}
use mathlib.Core.Path.{subst}
use walspool.Record.{Record}
use walspool.Storage.{OffsetPos}
use walspool.Storage.Files.{get, get-remove, name_eq, segment}
use walspool.Storage.State.{FileStorage, no_faults, segment_path}
use walspool.Storage.Commits.{behind_segment, last_in_segment, prunable, base_behind, prune_segment}
use walspool.Storage.Index.{
  Kept, AllKept, AllKept-carry, AllKept-drop, Kept-unmoved, Counted, InPlace, Ordered, Ordered-drop,
  All-drop,
}
use walspool.Storage.Invariant.{content, content_active, content_other, Holds, name-other}
use walspool.Storage.Segments.{
  skipped, behind_segment-drop, skipped-le, last_at, last_before, behind_later, Counted-drop,
}

-- One segment goes.
module _ (f : FileStorage) (rs : List Record) (H : Holds f rs) (e : OffsetPos) (es : List OffsetPos)
    (split : f.records ≡ e ∷ es) (p : prunable f e es ≡ true) where
  abbrev pub k : ℕ
  k = suc (skipped e.seg_base es)

  abbrev pub pruned : FileStorage
  pruned = prune_segment no_faults f e es

  kept_part : behind_segment e.seg_base es ≡ drop k f.records
  kept_part = rw split (behind_segment-drop e.seg_base es)

  counted : Counted f.base_offset (e ∷ es)
  counted = subst (Counted f.base_offset) split H.counted

  placed : All (InPlace f.active_seg_base f.write_pos) (e ∷ es)
  placed = subst (All (InPlace f.active_seg_base f.write_pos)) split H.placed

  ordered : Ordered (e ∷ es)
  ordered = subst Ordered split H.ordered

  size : length f.records ≡ suc (length es)
  size = ap length split

  inactive : e.seg_base ≢ f.active_seg_base
  unfolding prunable
  inactive q = ground arith

  committed : last_in_segment e.seg_base e.offset es < f.checkpoint
  unfolding prunable
  committed = ground arith

  last : last_in_segment e.seg_base e.offset es ≡ f.base_offset + skipped e.seg_base es
  last = rw (counted.0) (last_at e.seg_base f.base_offset es counted.1)

  first_low : e.offset < f.active_seg_base
  first_low = elim (placed.0) [
    | inl (here, inside, low) ↦ absurd (inactive here)
    | inr (before, low) ↦ low
  ]

  active_behind : f.base_offset + k ≤ f.active_seg_base
  active_behind = omega (
    arith,
    last,
    last_before e.seg_base f.active_seg_base f.write_pos e.offset es inactive first_low placed.1,
  )

  pub rest_length : length (behind_segment e.seg_base es) ≡ length es - skipped e.seg_base es
  rest_length = rw (behind_segment-drop e.seg_base es) (length-drop (skipped e.seg_base es) es)

  -- The first offset that is left, or that of the active segment.
  pub base_moved : pruned.base_offset ≡ f.base_offset + k
  unfolding prune_segment
  base_moved = moved (behind_segment e.seg_base es) refl
    where
      moved :
          (R : List OffsetPos)
          → behind_segment e.seg_base es ≡ R
          → base_behind f.active_seg_base R ≡ f.base_offset + k
      moved [] q = omega (
        arith,
        active_behind,
        H.active_low,
        size,
        rest_length,
        ap length q,
        skipped-le e.seg_base es,
      )
      moved (y ∷ ys) q =
          (subst (Counted (f.base_offset + k)) (sym kept_part ∙ q)
            (Counted-drop f.base_offset k f.records H.counted)).0

  disk_other :
      (n : ℕ) → n ≢ e.seg_base → get (segment_path f n) pruned.disk ≡ get (segment_path f n) f.disk
  unfolding prune_segment
  disk_other n ne =
      rw
        (
          get-remove (segment_path f e.seg_base) (segment_path f n) f.disk,
          name-other f e.seg_base n (λ q. ne (sym q)),
        )
        refl

  abbrev x : Bytes
  x = H.bytes ++ H.file.buffer

  carried :
      (y : OffsetPos) (r : Record)
      → e.seg_base < y.seg_base
      → Kept (content f.active_seg_base (segment_path f) f.disk x) y r
      → Kept (content f.active_seg_base (segment_path f) pruned.disk x) y r
  carried y r lt c = Kept-unmoved _ _ y r c (elim (Bool-cases (y.seg_base == f.active_seg_base)) [
    | inl h ↦
        let here : y.seg_base ≡ f.active_seg_base = (==_iff _ _).0 h in
        rw here (
          content_active f.active_seg_base (segment_path f) pruned.disk x
          ∙ sym (content_active f.active_seg_base (segment_path f) f.disk x))
    | inr h ↦
        let off : y.seg_base ≢ f.active_seg_base = λ q. ground arith in
        content_other f.active_seg_base (segment_path f) pruned.disk x y.seg_base off
        ∙ disk_other y.seg_base (λ q. omega arith)
        ∙ sym (content_other f.active_seg_base (segment_path f) f.disk x y.seg_base off)
  ])

  none_later : (b : ℕ) → f.active_seg_base < b → get (segment b) pruned.disk ≡ none
  unfolding prune_segment
  none_later b h =
      rw (get-remove (segment_path f e.seg_base) (segment b) f.disk)
        (gone (name_eq (segment_path f e.seg_base) (segment b)))
    where
      gone : (t : Bool) → (if t then none else get (segment b) f.disk) ≡ none
      gone true = refl
      gone false = H.none_behind b h

  pub pruned-Holds : Holds pruned (drop k rs)
  unfolding prune_segment segment_path
  pruned-Holds = record {
    file = H.file;
    bytes = H.bytes;
    is_open = H.is_open;
    file_open = H.file_open;
    opened = H.opened;
    named = H.named;
    ready = record {
      there =
          rw (H.named)
            (disk_other f.active_seg_base (λ q. inactive (sym q)) ∙ rw (sym H.named) H.ready.there);
      at_end = H.ready.at_end;
      sound = H.ready.sound;
    };
    position = H.position;
    kept =
        AllKept-carry (λ y. e.seg_base < y.seg_base) _ _ (behind_segment e.seg_base es) (drop k rs)
          carried (behind_later e es ordered.0 ordered.1)
          (subst (λ l. AllKept (content f.active_seg_base (segment_path f) f.disk x) l (drop k rs))
            (sym kept_part) (AllKept-drop _ k f.records rs H.kept));
    counted = rw base_moved (
        subst (Counted (f.base_offset + k)) (sym kept_part)
          (Counted-drop f.base_offset k f.records H.counted));
    placed =
        subst (All (InPlace f.active_seg_base f.write_pos)) (sym kept_part)
          (All-drop _ k f.records H.placed);
    ordered = subst Ordered (sym kept_part) (Ordered-drop k f.records H.ordered);
    active_low =
        omega (arith, H.active_low, base_moved, rest_length, size, skipped-le e.seg_base es);
    small = omega (arith, H.small, base_moved, rest_length, size, skipped-le e.seg_base es);
    checkpoint_low = omega (arith, base_moved, last, committed);
    checkpoint_high =
        omega (arith, H.checkpoint_high, base_moved, rest_length, size, skipped-le e.seg_base es);
    none_behind = none_later;
  }
