-- ===== src/Storage/Keeps.antt =====
-- storage_file.go: Append, whatever its calls do, where the record fits into the active segment.
use mathlib.Core.List.{append-nil}
use mathlib.Core.Path.{subst}
use walspool.Base.{
  ℕ, ◌+◌, ◌<◌, ◌≤◌, ◌≡◌, refl, sym, ap, ◌∙◌, inl, inr, true, false, List, [], ◌∷◌, ◌++◌, Bytes,
  length, take, take_all, arith, max_log, Bool-cases, if_cases, ◌^◌, sle, sub64, ltb,
}
use walspool.Errors.{Result, ok, err, Error, sentinel, wrap, spool_full, precondition_violated}
use walspool.Record.{Record, body}
use walspool.Record.Layout.{IsWire, frame}
use walspool.Record.RoundTrip.{marshal-frame}
use walspool.Storage.State.{
  faults_of_open, SyncPolicy, sync_every_record, sync_batch_commit, sync_interval, Handle,
  FileStorage, Faults, flush_now, sync, unavailable,
}
use walspool.Storage.Operations.{
  with_file, index_append, roll_back, after_sync, sync_record, after_write, write_record, overflows,
  append_bytes, next_offset, append,
}
use walspool.Storage.Index.{AllKept-length}
use walspool.Storage.Invariant.{active_bytes, Holds, IsFresh}
use walspool.Storage.Writer.{Outcome, flush_buffer}
use walspool.Storage.Writer.Moves.{Moves, flush_buffer-Moves}
use walspool.Storage.Writer.Calls.{write-Moves, both}
use walspool.Storage.Appending.{read_back, indexed-Holds, indexed-IsFresh, indexed-bytes, ready'}
use walspool.Storage.Restored.{es, IsMended, Reached, rollback_to-back, back-Holds, all_back}

-- The ranges of a record's fields, the length of the topic aside.
pub record InRange (r : Record) : Type 0 where
  pub id_word : r.id < 2 ^ 64
  pub time_word : r.timestamp < 2 ^ 64
  pub payload_fits : length r.payload < 2 ^ 32

-- The first offset and the checkpoint are as they were.
abbrev pub SameStart : FileStorage → FileStorage → Type 0
SameStart f f' = (f'.checkpoint ≡ f.checkpoint) × (f'.base_offset ≡ f.base_offset)

-- Where segments are off, the bytes of the record stand behind those of the log.
pub record Grows (f : FileStorage) (rec : Record) (f' : FileStorage) : Type 0 where
  pub same_opts : f'.opts ≡ f.opts
  pub same_meta : f'.checkpoint_meta ≡ f.checkpoint_meta
  pub same_result : f'.close_result ≡ f.close_result
  pub behind :
      sle f.opts.max_segment_size 0 ≡ true
      → (f'.active_seg_base ≡ f.active_seg_base)
        × (active_bytes f' f'.handle ≡ active_bytes f f.handle ++ frame rec)

module _ (f : FileStorage) (rs : List Record) (H : Holds f rs) where
  -- What an append of `rec` has done, by its answer. The records are kept with the new one behind
  -- them; or the first `k` of them are, and all where no bytes were buffered.
  abbrev pub Keeps : Record → Result ℕ × FileStorage → Type 0
  Keeps rec (ok n, f') =
      (n ≡ f.base_offset + length f.records)
      × Holds f' (rs ++ (read_back n rec ∷ []))
      × IsFresh f'
      × SameStart f f'
  Keeps rec (err x, f') =
      (k : ℕ) × Holds f' (take k rs) × SameStart f f' × (H.file.buffer ≡ [] → k ≡ length rs)

  module _ (rec : Record) (w : IsWire rec) (room : f.base_offset + length f.records < max_log) where
    abbrev pub at : ℕ
    at = f.base_offset + length f.records

    abbrev pub numbered : Record
    numbered = record rec { offset = at }

    abbrev pub given : Bytes
    given = frame numbered

    numbered-IsWire : IsWire rec → IsWire numbered
    numbered-IsWire w = record {
      id_word = w.id_word;
      time_word = w.time_word;
      topic_fits = w.topic_fits;
      payload_fits = w.payload_fits;
    }

    pub indexed :
        (o : Outcome)
        → Moves H.bytes given H.file f.disk o
        → o.0 ≡ true
        → Keeps rec (index_append numbered at (length given) (with_file o.1 o.2 f))
    unfolding index_append body
    indexed o m good = (
      refl,
      indexed-Holds f rs H given o m numbered (numbered-IsWire w) refl good room numbered,
      indexed-IsFresh f rs H given o m numbered (numbered-IsWire w) refl good room numbered,
      (refl, refl),
    )

    pub indexed-Grows :
        (o : Outcome)
        → Moves H.bytes given H.file f.disk o
        → o.0 ≡ true
        → Grows f rec (index_append numbered at (length given) (with_file o.1 o.2 f)).1
    unfolding index_append body
    indexed-Grows o m good = record {
      same_opts = refl;
      same_meta = refl;
      same_result = refl;
      behind = λ s. (
        refl,
        indexed-bytes f rs H given o m numbered (numbered-IsWire w) refl good room numbered
            ∙ ap (λ h. active_bytes f h ++ given) (sym H.opened),
      );
    }

    pub flushed :
        (fl : Faults) (h' : Handle) (d' : _)
        → (m : Moves H.bytes given H.file f.disk (true, h', d'))
        → Moves H.bytes given H.file f.disk (flush_buffer fl flush_now h' d')
    flushed fl h' d' m =
        both H.bytes given H.file H.file f.disk given (true, h', d') m refl [] _ refl
          (flush_buffer-Moves (H.bytes ++ m.gone) h' d' (ready' f rs H given (true, h', d') m refl)
            fl flush_now)
          (append-nil (H.file.buffer ++ given))

    module _ (fl : Faults) (mended : IsMended fl) (reached : Reached f rs H) where
      rolled :
          (o : Outcome) → Moves H.bytes given H.file f.disk o → Keeps rec (roll_back fl o.1 o.2 f)
      unfolding roll_back
      rolled o m =
          subst (λ g. Keeps rec (err unavailable, g))
            (sym (rollback_to-back f rs H given o m fl mended))
            (
              length (es f rs H given o m fl mended),
              back-Holds f rs H given o m fl mended reached,
              (refl, refl),
              λ e. all_back f rs H given o m fl mended e ∙ AllKept-length _ f.records rs H.kept,
            )

      -- The flush and the sync of SyncEveryRecord.
      synced :
          (o : Outcome)
          → Moves H.bytes given H.file f.disk o
          → Keeps rec (after_sync fl numbered at (length given) o f)
      unfolding after_sync
      synced (false, h', d') m = rolled (false, h', d') m
      synced (true, h', d') m =
          if_cases (Keeps rec) (fl.fails sync) (λ s. rolled (true, h', d') m)
            (λ s. indexed (true, h', d') m refl)

      by_policy :
          (p : SyncPolicy) (h' : Handle) (d' : _)
          → (m : Moves H.bytes given H.file f.disk (true, h', d'))
          → Keeps rec (sync_record p fl numbered at (length given) h' d' f)
      unfolding sync_record
      by_policy sync_every_record h' d' m = synced _ (flushed fl h' d' m)
      by_policy sync_batch_commit h' d' m = indexed (true, h', d') m refl
      by_policy sync_interval h' d' m = indexed (true, h', d') m refl

      written_one :
          (o : Outcome)
          → Moves H.bytes given H.file f.disk o
          → Keeps rec (after_write fl numbered at (length given) o f)
      unfolding after_write
      written_one (false, h', d') m = rolled (false, h', d') m
      written_one (true, h', d') m = by_policy f.opts.sync_policy h' d' m

      pub write_record-Keeps : Keeps rec (write_record fl numbered at given f.handle f)
      unfolding write_record
      write_record-Keeps =
          subst (λ h. Keeps rec (write_record fl numbered at given h f)) (sym H.opened)
            (written_one _ (write-Moves fl H.bytes f.opts.buffer_size given H.file f.disk H.ready))

  unchanged : (x : Error) (rec : Record) → Keeps rec (err x, f)
  unchanged x rec =
      (length rs, rw (take_all (length rs) rs (omega arith)) H, (refl, refl), λ e. refl)

  -- An Append to an open engine, of a record whose fields are in range and that fits into the
  -- active segment, while the next offset is below 2 ^ 62, whatever calls of the writer fail, when
  -- those of the rollback do not and committed records are in the file: it keeps the record
  -- behind the others, or fails and keeps the first of them, all where no bytes were buffered.
  pub append-Keeps :
      (fl : Faults)
      → IsMended fl
      → Reached f rs H
      → (rec : Record) → InRange rec
      → overflows (length (frame rec)) f ≡ false
      → f.base_offset + length f.records < max_log
      → Keeps rec (append fl rec f)
  unfolding append append_bytes body
  append-Keeps fl mended reached rec q fits room =
      if_cases (Keeps rec) f.closed (λ c. absurd (cc (c, H.is_open)))
        (λ c.
          if_cases (Keeps rec) (sle f.max_capacity (sub64 (next_offset f) f.checkpoint))
            (λ full. unchanged (sentinel spool_full) rec)
            (λ free.
              rw (next_at, faults_of_open f fl H.file_open)
                (elim (Bool-cases (ltb 65535 (length rec.topic))) [
                  | inl long ↦
                      rw ((marshal-frame numbered).1 (ground arith))
                        (unchanged (wrap (sentinel precondition_violated)) rec)
                  | inr short ↦ rw ((marshal-frame numbered).0 (ground arith)) (
                      if_cases (Keeps rec) (overflows (length (frame numbered)) f)
                        (λ o. absurd (cc (o, fits')))
                        (λ o. write_record-Keeps rec (wire (ground arith)) room fl mended reached))
                ])))
    where
      numbered : Record
      numbered = record rec { offset = f.base_offset + length f.records }

      fits' : overflows (length (frame numbered)) f ≡ false
      fits' = fits

      next_at : next_offset f ≡ f.base_offset + length f.records
      next_at = omega (arith, room)

      wire : length rec.topic ≤ 65535 → IsWire rec
      wire t = record {
        id_word = q.id_word;
        time_word = q.time_word;
        topic_fits = t;
        payload_fits = q.payload_fits;
      }
