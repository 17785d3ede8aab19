-- ===== src/Storage/Appends.antt =====
-- storage_file.go: Append when no call fails, with the rotation to a new segment.
use mathlib.Core.Path.{subst}
use walspool.Base.{
  ℕ, ◌+◌, ◌<◌, ◌≤◌, ◌≡◌, refl, sym, inl, inr, true, false, List, [], ◌∷◌, ◌++◌, Option, none, some,
  Bytes, length, arith, max_log, Bool-cases, if_cases, sle, sub64, ltb,
}
use walspool.Errors.{Result, ok, err, sentinel, panic}
use walspool.Record.{Record}
use walspool.Record.Layout.{IsWire}
use walspool.Record.RoundTrip.{marshal-frame}
use walspool.Storage.State.{
  faults_of_open, SyncPolicy, sync_every_record, sync_batch_commit, sync_interval, Handle,
  FileStorage, no_faults, flush_now,
}
use walspool.Storage.Files.{Dir}
use walspool.Storage.Operations.{
  with_file, index_append, after_sync, sync_record, after_write, write_record, after_rotate,
  rotate_segment, overflows, append_bytes, next_offset, append,
}
use walspool.Storage.Invariant.{Holds, IsFresh}
use walspool.Storage.Writer.{Outcome}
use walspool.Storage.Writer.Moves.{Moves}
use walspool.Storage.Writer.Calls.{write-Moves}
use walspool.Storage.Writer.Succeeds.{flush_buffer-Good, write-Good}
use walspool.Storage.Appending.{read_back}
use walspool.Storage.Rotation.{renewed, renewed-Holds, rotate_segment-renewed}
use walspool.Storage.Keeps.{
  SameStart, Grows, InRange, numbered, given, indexed, indexed-Grows, flushed,
}

module _ (f : FileStorage) (rs : List Record) where
  -- What an append has done, by its answer: the record is kept behind the others, or nothing is
  -- changed.
  abbrev pub Appends : Record → Result ℕ × FileStorage → Type 0
  Appends rec (ok n, f') =
      (n ≡ f.base_offset + length f.records)
      × Holds f' (rs ++ (read_back n rec ∷ []))
      × IsFresh f'
      × SameStart f f'
      × Grows f rec f'
  Appends rec (err x, f') = f' ≡ f

  -- The record is kept behind the others.
  abbrev Stores : Record → Result ℕ × FileStorage → Type 0
  Stores rec (ok n, f') =
      (n ≡ f.base_offset + length f.records)
      × Holds f' (rs ++ (read_back n rec ∷ []))
      × IsFresh f'
      × SameStart f f'
      × Grows f rec f'
  Stores rec (err x, f') = ⊥

  stored-Appends : (rec : Record) (p : Result ℕ × FileStorage) → Stores rec p → Appends rec p
  stored-Appends rec (ok n, f') s = s
  stored-Appends rec (err x, f') s = absurd s

  module _ (H : Holds f rs) (rec : Record) (w : IsWire rec)
      (room : f.base_offset + length f.records < max_log) where
    abbrev at : ℕ
    at = f.base_offset + length f.records

    abbrev rec' : Record
    rec' = numbered f rs H rec w room

    abbrev bytes : Bytes
    bytes = given f rs H rec w room

    abbrev Moved : Outcome → Type 0
    Moved o = Moves H.bytes bytes H.file f.disk o

    indexed_ok :
        (o : Outcome)
        → Moved o
        → o.0 ≡ true
        → Stores rec (index_append rec' at (length bytes) (with_file o.1 o.2 f))
    unfolding index_append
    indexed_ok o m good =
        let (n, h, fresh, s) = indexed f rs H rec w room o m good in
        (n, h, fresh, s, indexed-Grows f rs H rec w room o m good)

    synced :
        (o : Outcome)
        → Moved o
        → o.0 ≡ true
        → Stores rec (after_sync no_faults rec' at (length bytes) o f)
    unfolding after_sync
    synced (false, h, d) m g = absurd cc
    synced (true, h, d) m g = indexed_ok (true, h, d) m g

    by_policy :
        (p : SyncPolicy) (h : Handle) (d : Dir)
        → Moved (true, h, d)
        → h.write_err ≡ false
        → Stores rec (sync_record p no_faults rec' at (length bytes) h d f)
    unfolding sync_record
    by_policy sync_every_record h d m s =
        synced _ (flushed f rs H rec w room no_faults h d m) (flush_buffer-Good h d s flush_now)
    by_policy sync_batch_commit h d m s = indexed_ok (true, h, d) m refl
    by_policy sync_interval h d m s = indexed_ok (true, h, d) m refl

    written_ok :
        (o : Outcome)
        → Moved o
        → o.0 ≡ true
        → Stores rec (after_write no_faults rec' at (length bytes) o f)
    unfolding after_write
    written_ok (false, h, d) m g = absurd cc
    written_ok (true, h, d) m g = by_policy f.opts.sync_policy h d m (m.whole g).1

    pub write_record-Stores : Stores rec (write_record no_faults rec' at bytes f.handle f)
    unfolding write_record
    write_record-Stores =
        subst (λ h. Stores rec (write_record no_faults rec' at bytes h f)) (sym H.opened)
          (written_ok _
            (write-Moves no_faults H.bytes f.opts.buffer_size bytes H.file f.disk H.ready)
            (write-Good H.file f.disk H.ready.sound f.opts.buffer_size bytes))

-- A record that starts a new segment.
module _ (f : FileStorage) (rs : List Record) (H : Holds f rs) (rec : Record) (w : IsWire rec)
    (room : f.base_offset + length f.records < max_log)
    (more : f.active_seg_base < f.base_offset + length f.records)
    (multi : sle f.opts.max_segment_size 0 ≡ false) where
  moved_over :
      (p : Result ℕ × FileStorage) → Stores (renewed f rs H more) rs rec p → Stores f rs rec p
  moved_over (ok n, g) (a, h, fresh, s, grows) = (
    a,
    h,
    fresh,
    s,
    record {
      same_opts = grows.same_opts;
      same_meta = grows.same_meta;
      same_result = grows.same_result;
      behind = λ q. absurd (cc (q, multi));
    },
  )
  moved_over (err x, g) s = s

  after_rotate-Stores : Stores f rs rec (
      after_rotate no_faults
        (numbered f rs H rec w room)
        (f.base_offset + length f.records)
        (given f rs H rec w room)
        (rotate_segment no_faults (f.base_offset + length f.records) H.file f))
  unfolding after_rotate
  after_rotate-Stores = rw (rotate_segment-renewed f rs H more) (
      moved_over _
        (write_record-Stores (renewed f rs H more) rs (renewed-Holds f rs H more) rec w room))

module _ (f : FileStorage) (rs : List Record) (H : Holds f rs) (fresh : IsFresh f) where
  -- Where the record does not fit, the active segment has a record.
  has_record :
      (size : ℕ) → overflows size f ≡ true → f.active_seg_base < f.base_offset + length f.records
  unfolding overflows
  has_record size o = elim fresh [ inl z ↦ absurd (ground arith) | inr m ↦ m ]

  has_segments : (size : ℕ) → overflows size f ≡ true → sle f.opts.max_segment_size 0 ≡ false
  unfolding overflows
  has_segments size o = ground arith

  append_bytes-Stores :
      (rec : Record) (w : IsWire rec) (room : f.base_offset + length f.records < max_log)
      → Stores f rs rec (
          append_bytes no_faults
            (numbered f rs H rec w room)
            (f.base_offset + length f.records)
            (ok (given f rs H rec w room))
            f)
  unfolding append_bytes
  append_bytes-Stores rec w room =
      if_cases (Stores f rs rec) (overflows (length (given f rs H rec w room)) f)
        (λ o.
          subst Rotates (sym H.opened)
            (after_rotate-Stores f rs H rec w room (has_record _ o) (has_segments _ o)))
        (λ o. write_record-Stores f rs H rec w room)
    where
      Rotates : Option Handle → Type 0
      Rotates h = Stores f rs rec (elim h [
        | none ↦ (err (sentinel panic), f)
        | some h ↦
            after_rotate no_faults (numbered f rs H rec w room) (f.base_offset + length f.records)
              (given f rs H rec w room)
              (rotate_segment no_faults (f.base_offset + length f.records) h f)
      ])

  -- An Append, with no faults, of a record whose fields are in range, to an engine that holds its
  -- records and whose active segment is empty or has one of them, while the next offset is below
  -- 2 ^ 62: the record is kept behind the others under the next offset, in the active segment or
  -- a new one, with the checkpoint and the first offset as they were; or the call fails and
  -- changes nothing.
  pub append-Appends :
      (rec : Record)
      → InRange rec
      → f.base_offset + length f.records < max_log
      → Appends f rs rec (append no_faults rec f)
  unfolding append
  append-Appends rec q room =
      if_cases (Appends f rs rec) f.closed (λ c. absurd (cc (c, H.is_open)))
        (λ c.
          if_cases (Appends f rs rec) (sle f.max_capacity (sub64 (next_offset f) f.checkpoint))
            (λ full. refl)
            (λ free.
              rw (next_at, faults_of_open f no_faults H.file_open)
                (elim (Bool-cases (ltb 65535 (length rec.topic))) [
                  | inl long ↦
                      rw ((marshal-frame rec').1 (ground arith)) (unfold append_bytes in refl)
                  | inr short ↦ rw ((marshal-frame rec').0 (ground arith)) (
                      stored-Appends f rs rec _
                        (append_bytes-Stores rec (wire (ground arith)) room))
                ])))
    where
      rec' : Record
      rec' = record rec { offset = f.base_offset + length f.records }

      next_at : next_offset f ≡ f.base_offset + length f.records
      next_at = omega (arith, room)

      wire : length rec.topic ≤ 65535 → IsWire rec
      wire t = record {
        id_word = q.id_word;
        time_word = q.time_word;
        topic_fits = t;
        payload_fits = q.payload_fits;
      }
