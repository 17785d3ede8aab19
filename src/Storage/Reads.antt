-- ===== src/Storage/Reads.antt =====
-- storage_file.go: ReadBatch and UncommittedCount when no call fails.
use mathlib.Core.List.{append_assoc, append-nil}
use mathlib.Core.Path.{subst}
use walspool.Base.{
  ℕ, ◌+◌, ◌-◌, ◌<◌, ◌≤◌, ◌≡◌, ◌≢◌, refl, sym, ap, ◌∙◌, true, false, List, [], ◌∷◌, ◌++◌, Option,
  some, Bytes, length, length-drop, take, drop, take_all, drop_all, take-min, min, arith, max_log,
  max_batch, if_cases, sle, slt, sub64, ltb, ◌==◌, ==_iff,
}
use walspool.Errors.{Result, ok, ◌>>=◌}
use walspool.Record.{Record, zero_record, unmarshal_binary, body, checksum_ieee}
use walspool.Record.Layout.{frame}
use walspool.Record.RoundTrip.{marshal-frame, unmarshal-marshal}
use walspool.Storage.{OffsetPos}
use walspool.Storage.Files.{get, contents, or_empty}
use walspool.Storage.State.{faults_of_open, Handle, FileStorage, no_faults, segment_path}
use walspool.Storage.Operations.{next_offset}
use walspool.Storage.Reading.{
  after_reading, after_decoding, read_active, read_opened, read_bytes, read_entry, read_entries,
  start_idx, end_idx, read_flushed, read_batch, uncommitted_count,
}
use walspool.Storage.Index.{Kept, AllKept, AllKept-take, AllKept-drop, AllKept-length}
use walspool.Storage.Invariant.{IsFresh, content, content_active, content_other, Holds}
use walspool.Storage.Keeps.{SameStart}
use walspool.Storage.Flushes.{drained, drained-Holds, drained_empty, flush_handle-drained}

-- Decoding the bytes of an entry.
module _ (c : ℕ → Option Bytes) (e : OffsetPos) (r : Record) (k : Kept c e r) where
  pub decoded_back :
      record (record r { offset = 0; checksum = checksum_ieee (body r) }) { offset = e.offset } ≡ r
  decoded_back = λ i. record r { offset = sym k.numbered i; checksum = sym k.sum i }

  pub unmarshal_back :
      unmarshal_binary zero_record (frame r)
      ≡ ok (record r { offset = 0; checksum = checksum_ieee (body r) })
  unmarshal_back =
      ap (unmarshal_binary zero_record) (sym (append-nil (frame r)))
      ∙ sym (
          ap (λ b. b >>= λ bs. unmarshal_binary zero_record (bs ++ []))
            ((marshal-frame r).0 k.wire.topic_fits))
      ∙ unmarshal-marshal zero_record r [] k.wire

module _ (f : FileStorage) (rs : List Record) (H : Holds f rs) (empty : H.file.buffer ≡ [])
    (e : OffsetPos) (r : Record)
    (k : Kept
      (content f.active_seg_base (segment_path f) f.disk (H.bytes ++ H.file.buffer))
      e
      r) where
  read_whole : (file : Bytes) → file ≡ k.file → read_bytes false e.pos e.size file ≡ ok (frame r)
  unfolding read_bytes
  read_whole file same = rw same (
      let fits : ltb (length k.file) (e.pos + e.size) ≡ false = ground (arith, k.inside) in
      rw (fits, k.whole) refl)

  -- The bytes of an entry, from the active file or an earlier one.
  read_entry-frame : read_entry no_faults f e ≡ ok (frame r)
  unfolding read_entry
  read_entry-frame =
      if_cases Whole (e.seg_base == f.active_seg_base)
        (λ here. subst Active (sym H.opened) (
          read_whole (contents H.file.name f.disk)
            (ap or_empty H.ready.there ∙ active_file ((==_iff _ _).0 here))))
        (λ off. subst Opened (sym (stored (λ q. ground arith))) (read_whole k.file refl))
    where
      Whole : Result Bytes → Type 0
      Whole b = b ≡ ok (frame r)

      Active : Option Handle → Type 0
      Active h = Whole (read_active no_faults f e h)

      Opened : Option Bytes → Type 0
      Opened b = Whole (read_opened no_faults e b)

      stored : e.seg_base ≢ f.active_seg_base → get (segment_path f e.seg_base) f.disk ≡ some k.file
      stored ne =
          sym (
            content_other f.active_seg_base (segment_path f) f.disk (H.bytes ++ H.file.buffer)
              e.seg_base ne)
          ∙ k.held

      all_written : H.bytes ≡ H.bytes ++ H.file.buffer
      all_written = sym (ap (λ b. H.bytes ++ b) empty ∙ append-nil H.bytes)

      active_file : e.seg_base ≡ f.active_seg_base → H.bytes ≡ k.file
      active_file here = cc (
        all_written,
        content_active f.active_seg_base (segment_path f) f.disk (H.bytes ++ H.file.buffer),
        k.held,
        here,
      )

module _ (f : FileStorage) (rs : List Record) (H : Holds f rs) (empty : H.file.buffer ≡ []) where
  pub read_entries-kept :
      (es : List OffsetPos) (bs batch : List Record)
      → AllKept (content f.active_seg_base (segment_path f) f.disk (H.bytes ++ H.file.buffer)) es bs
      → read_entries no_faults f es batch ≡ ok (batch ++ bs)
  unfolding read_entries AllKept
  read_entries-kept [] [] batch k = ap ok (sym (append-nil batch))
  read_entries-kept [] (b ∷ bs) batch k = absurd k
  read_entries-kept (e ∷ es) [] batch k = absurd k
  read_entries-kept (e ∷ es) (b ∷ bs) batch (k, ks) =
      ap (after_reading e batch rest) (read_entry-frame f rs H empty e b k)
      ∙ ap (after_decoding e batch rest) (unmarshal_back _ e b k)
      ∙ ap (λ r. rest (batch ++ (r ∷ []))) (decoded_back _ e b k)
      ∙ read_entries-kept es bs (batch ++ (b ∷ [])) ks
      ∙ ap ok (append_assoc batch (b ∷ []) bs)
    where
      rest : List Record → Result (List Record)
      rest b = read_entries no_faults f es b

end_idx_lem :
    (c n len : ℕ) → c < len → len ≤ max_log → n ≤ max_batch → end_idx c n len ≡ min (c + n) len
unfolding end_idx
end_idx_lem c n len h k l = ground arith

module _ (f : FileStorage) (rs : List Record) (H : Holds f rs) (empty : H.file.buffer ≡ []) where
  abbrev first : ℕ
  first = f.checkpoint - f.base_offset

  start_at : start_idx f ≡ first
  unfolding start_idx
  start_at = ground (arith, H.checkpoint_low, H.checkpoint_high, H.small)

  count : length f.records ≡ length rs
  count = AllKept-length _ f.records rs H.kept

  read_flushed-kept :
      (n : ℕ)
      → 0 < n
      → n ≤ max_batch
      → read_flushed no_faults n (true, f) ≡ (ok (take n (drop first rs)), f)
  unfolding read_flushed
  read_flushed-kept n pos small = rw start_at (
      if_cases Answer (sle (length f.records) first)
        (λ over.
          ap (λ b. (ok b, f))
            (sym (ap (take n) (drop_all first rs (passed over)) ∙ take_all n [] (omega arith))))
        (λ more.
          rw (end_idx_lem first n (length f.records) (inside more) (omega (arith, H.small)) small) (
            if_cases Answer (slt (min (first + n) (length f.records)) first)
              (λ back. absurd (forward (inside more) back))
              (λ on.
                ap (λ b. (b, f))
                  (read_entries-kept f rs H empty (take (to - first) (drop first f.records))
                      (take (to - first) (drop first rs)) []
                      (AllKept-take _ _ _ _ (AllKept-drop _ first f.records rs H.kept))
                    ∙ ap ok (
                        take-min (to - first) n (drop first rs)
                          (omega (arith, length-drop first rs, count))))))))
    where
      Answer : Result (List Record) × FileStorage → Type 0
      Answer p = p ≡ (ok (take n (drop first rs)), f)

      to : ℕ
      to = min (first + n) (length f.records)

      passed : sle (length f.records) first ≡ true → length rs ≤ first
      passed h = ground (arith, count, H.small, H.checkpoint_high)

      inside : sle (length f.records) first ≡ false → first < length f.records
      inside h = ground (arith, H.small, H.checkpoint_high)

      forward : first < length f.records → slt to first ≡ true → ⊥
      forward h b = ground (arith, H.small)

pub read_batch-drained :
    (f : FileStorage) (rs : List Record) (H : Holds f rs) (n : ℕ)
    → 0 < n
    → n ≤ max_batch
    → read_batch no_faults n f
      ≡ (ok (take n (drop (f.checkpoint - f.base_offset) rs)), drained f rs H)
unfolding read_batch
read_batch-drained f rs H n pos small =
    if_cases (λ p. p ≡ (ok (take n (drop (f.checkpoint - f.base_offset) rs)), drained f rs H))
      f.closed (λ c. absurd (cc (c, H.is_open)))
      (λ c.
        rw (faults_of_open f no_faults H.file_open)
          (ap (read_flushed no_faults n) (flush_handle-drained f rs H))
        ∙ read_flushed-kept (drained f rs H) rs (drained-Holds f rs H) (drained_empty f rs H) n pos
            small)

-- A read of one to 2 ^ 32 records from an engine that holds `rs`, with no faults, gives the first
-- of those that are not committed, as many as asked for; the engine holds the same records, with
-- the same checkpoint.
pub read_batch-kept :
    (f : FileStorage) (rs : List Record)
    → Holds f rs
    → (n : ℕ) → 0 < n
    → n ≤ max_batch
    → ((read_batch no_faults n f).0 ≡ ok (take n (drop (f.checkpoint - f.base_offset) rs)))
      × Holds (read_batch no_faults n f).1 rs
      × SameStart f (read_batch no_faults n f).1
      × (IsFresh f → IsFresh (read_batch no_faults n f).1)
read_batch-kept f rs H n pos small =
    rw (read_batch-drained f rs H n pos small) (refl, drained-Holds f rs H, (refl, refl), λ h. h)

-- The count that an engine reports is that of the records that are not committed.
pub uncommitted_count-kept :
    (f : FileStorage) (rs : List Record)
    → Holds f rs
    → uncommitted_count f ≡ (ok (length (drop (f.checkpoint - f.base_offset) rs)), f)
unfolding uncommitted_count
uncommitted_count-kept f rs H =
    if_cases Counts f.closed (λ c. absurd (cc (c, H.is_open)))
      (λ c.
        if_cases Counts (slt (sub64 (next_offset f) f.checkpoint) 0)
          (λ neg. absurd (not_negative neg)) (λ nonneg. ap (λ n. (ok n, f)) as_many))
  where
    Counts : Result ℕ × FileStorage → Type 0
    Counts p = p ≡ (ok (length (drop (f.checkpoint - f.base_offset) rs)), f)

    as_many : sub64 (next_offset f) f.checkpoint ≡ length (drop (f.checkpoint - f.base_offset) rs)
    as_many = omega (
      arith,
      length-drop (f.checkpoint - f.base_offset) rs,
      AllKept-length _ f.records rs H.kept,
      H.small,
      H.checkpoint_low,
      H.checkpoint_high,
    )

    not_negative : slt (sub64 (next_offset f) f.checkpoint) 0 ≡ true → ⊥
    not_negative h = ground (arith, H.small, H.checkpoint_low, H.checkpoint_high)
