-- ===== src/Storage/RoundTrip.antt =====
-- storage_file.go: an engine with one segment, closed and opened again.
use mathlib.Core.List.{append-nil}
use mathlib.Core.Path.{subst}
use walspool.Base.{
  ℕ, ◌-◌, ◌<◌, ◌≤◌, ◌≡◌, refl, sym, ap, ◌∙◌, inl, true, false, ◌==◌, List, [], ◌∷◌, ◌++◌, none,
  some, Bytes, length, drop, All, arith, max_log, sle,
}
use walspool.Errors.{Result, ok, err}
use walspool.Record.{Record}
use walspool.Record.Layout.{frame}
use walspool.Storage.Files.{active_wal, contents, or_empty}
use walspool.Storage.State.{FileStorageOptions, FileStorage, no_faults, segment_path}
use walspool.Storage.Recovery.{IsStored, frames}
use walspool.Storage.Opening.{checkpoint_of, new_with_options}
use walspool.Storage.Operations.{append}
use walspool.Storage.Commits.{close}
use walspool.Storage.Index.{AllKept-length}
use walspool.Storage.Invariant.{active_bytes, Holds, IsFresh}
use walspool.Storage.Appending.{read_back}
use walspool.Storage.Appends.{Appends, append-Appends}
use walspool.Storage.Reopening.{readings, length-readings, readings-append, frames-append}
use walspool.Storage.Reopens.{IsLog, new-Reopens}
use walspool.Storage.Closes.{closed_engine, close-closed_engine, all_written, none_after}
use walspool.Storage.Queue.{IsOpen, pending, pending-Holds}

-- An engine with one segment, whose file and buffer hold the records `rs` and no other bytes, and
-- whose checkpoint is the stored one.
pub record IsSingle (f : FileStorage) (rs : List Record) : Type 0 where
  pub holds : Holds f (readings 0 rs)
  pub fresh : IsFresh f
  pub first_base : f.base_offset ≡ 0
  pub active : f.active_seg_base ≡ 0
  pub log_bytes : active_bytes f f.handle ≡ frames rs
  pub stored : All IsStored rs
  pub saved : checkpoint_of f.checkpoint_meta ≡ f.checkpoint
  pub single : sle f.opts.max_segment_size 0 ≡ true
  pub not_closed : f.close_result ≡ none

All-append :
    (rs : List Record) (r : Record) → All IsStored rs → IsStored r → All IsStored (rs ++ (r ∷ []))
All-append [] r v w = (w, tt)
All-append (x ∷ rs) r v w = (v.0, All-append rs r v.1 w)

module _ (f : FileStorage) (rs : List Record) (S : IsSingle f rs) where
  pub count : length f.records ≡ length rs
  count = AllKept-length _ f.records (readings 0 rs) S.holds.kept ∙ length-readings 0 rs

  active_path : segment_path f f.active_seg_base ≡ active_wal
  unfolding segment_path
  active_path = ground (arith, S.active, S.single)

  whole : S.holds.bytes ++ S.holds.file.buffer ≡ frames rs
  whole =
      ap (λ b. or_empty b ++ S.holds.file.buffer) (sym S.holds.ready.there)
      ∙ ap (active_bytes f) (sym S.holds.opened)
      ∙ S.log_bytes

  small : length rs ≤ max_log
  small = omega (arith, S.holds.small, count)

  closed-IsLog : IsLog rs (close no_faults f).1.disk
  closed-IsLog =
      rw (ap (λ p. p.1.disk) (close-closed_engine f (readings 0 rs) S.holds S.not_closed)) (record {
        tail = [];
        whole =
            ap (λ n. contents n (closed_engine f (readings 0 rs) S.holds S.not_closed).disk)
              (sym (S.holds.named ∙ active_path))
            ∙ ap or_empty (all_written f (readings 0 rs) S.holds S.not_closed)
            ∙ whole
            ∙ sym (append-nil (frames rs));
        torn = inl refl;
        stored = S.stored;
        small = small;
        no_segments =
            λ b h. none_after f (readings 0 rs) S.holds S.not_closed b (omega (arith, S.active));
      })

  same_meta : (close no_faults f).1.checkpoint_meta ≡ f.checkpoint_meta
  same_meta =
      ap (λ p. p.1.checkpoint_meta) (close-closed_engine f (readings 0 rs) S.holds S.not_closed)

  all_pending :
      pending f ≡ drop (checkpoint_of (close no_faults f).1.checkpoint_meta) (readings 0 rs)
  all_pending =
      pending-Holds f (readings 0 rs) S.holds ∙ ap (λ n. drop n (readings 0 rs)) from_start
    where
      from_start :
          f.checkpoint - f.base_offset ≡ checkpoint_of (close no_faults f).1.checkpoint_meta
      from_start = omega (arith, S.first_base, S.saved) ∙ ap checkpoint_of (sym same_meta)

  -- An engine with one segment is closed with no faults, and its directory is opened again with one
  -- segment, a name and a positive capacity: the new engine is open and has the same records
  -- pending.
  pub new-close :
      (dir : Bytes) (max_capacity : ℕ) (o : FileStorageOptions)
      → (length dir == 0) ≡ false
      → sle max_capacity 0 ≡ false
      → sle o.max_segment_size 0 ≡ true
      → (g : FileStorage) × (new_with_options no_faults dir max_capacity o
            (close no_faults f).1.disk
            (close no_faults f).1.checkpoint_meta
          ≡ some (ok tt, g))
        × IsOpen g
        × (pending g ≡ pending f)
  new-close dir cap o named room single =
      let (g, e, i, p) =
        new-Reopens dir cap o (close no_faults f).1.disk (close no_faults f).1.checkpoint_meta rs
          closed-IsLog single named room in
      (g, e, i, p ∙ sym all_pending)

  -- What an append to an engine with one segment has done.
  abbrev pub AppendsSingle : Record → Result ℕ × FileStorage → Type 0
  AppendsSingle rec (ok n, g) = (n ≡ length rs) × IsSingle g (rs ++ (rec ∷ []))
  AppendsSingle rec (err x, g) = g ≡ f

  still_single :
      (rec : Record)
      → IsStored rec
      → (p : Result ℕ × FileStorage) → Appends f (readings 0 rs) rec p
      → AppendsSingle rec p
  still_single rec w (err x, g) same = same
  still_single rec w (ok n, g) (at, h, fresh, (c, b), grows) = (
    place,
    record {
      holds =
          subst (Holds g)
            (ap (λ k. readings 0 rs ++ (read_back k rec ∷ [])) (place ∙ omega arith)
              ∙ sym (readings-append 0 rs rec))
            h;
      fresh = fresh;
      first_base = b ∙ S.first_base;
      active = (grows.behind S.single).0 ∙ S.active;
      log_bytes =
          (grows.behind S.single).1
          ∙ ap (λ x. x ++ frame rec) S.log_bytes
          ∙ sym (frames-append rs rec);
      stored = All-append rs rec S.stored w;
      saved = ap checkpoint_of grows.same_meta ∙ S.saved ∙ sym c;
      single = subst (λ o. sle o.max_segment_size 0 ≡ true) (sym grows.same_opts) S.single;
      not_closed = grows.same_result ∙ S.not_closed;
    },
  )
    where
      place : n ≡ length rs
      place = omega (arith, at, count, S.first_base)

  -- An append with no faults of a record that recovery accepts, where there is room for one more
  -- offset, puts it behind the others of such an engine, or changes nothing.
  pub append-AppendsSingle :
      (rec : Record)
      → IsStored rec
      → length rs < max_log
      → AppendsSingle rec (append no_faults rec f)
  append-AppendsSingle rec w room = still_single rec w _ (
      append-Appends f (readings 0 rs) S.holds S.fresh rec
        (record {
          id_word = w.wire.id_word;
          time_word = w.wire.time_word;
          payload_fits = w.wire.payload_fits;
        })
        (omega (arith, room, count, S.first_base)))
