-- ===== src/Storage/Recovery.antt =====
-- Recovery after a crash: of whole records and a torn one, the whole ones are kept.
use mathlib.Core.List.{append_assoc, append-nil}
use walspool.Base.{
  ℕ, zero, suc, ◌+◌, ◌<◌, ◌≤◌, ◌≡◌, ◌⊎◌, refl, sym, ap, ◌∙◌, inl, inr, true, false, ltb,
  if◌then◌else◌, List, [], ◌∷◌, ◌++◌, some, Bytes, length, length-append, take, drop, drop_append,
  take_append, All, add64, arith, Bool-cases,
}
use walspool.Record.{Record, header_size, has_magic, total_len, slice, get_be}
use walspool.Record.Endian.{get_be-put_be}
use walspool.Record.Layout.{
  IsWire, frame, total_len-frame, has_magic-frame, id_field, length-frame_with,
}
use walspool.Record.Decode.{header_append}
use walspool.Storage.{
  max_recoverable_record_size, OffsetPos, Scan, ends_scan, index_record, scan_records, truncate,
  recover_segment,
}

-- A record that recovery accepts: its fields are in range and it has at most 10 MB.
pub record IsStored (r : Record) : Type 0 where
  pub wire : IsWire r
  pub not_large : length (frame r) ≤ max_recoverable_record_size

-- The bytes of whole records.
abbrev pub frames : List Record → Bytes
frames [] = []
frames (r ∷ rs) = frame r ++ frames rs

-- What is left of a record whose write was cut short, or nothing.
pub record IsTorn (tail : Bytes) : Type 0 where
  pub torn : Record
  pub lost : Bytes
  pub wire : IsWire torn
  pub cut : tail ++ lost ≡ frame torn
  pub short : 0 < length lost

abbrev pub positions : ℕ → ℕ → ℕ → List Record → List OffsetPos
positions seg_base offset pos [] = []
positions seg_base offset pos (r ∷ rs) =
    record { offset = offset; seg_base = seg_base; pos = pos; size = length (frame r) }
    ∷ positions seg_base (add64 offset 1) (pos + length (frame r)) rs

abbrev pub highest : ℕ → List Record → ℕ
highest m [] = m
highest m (r ∷ rs) = highest (if ltb m r.id then r.id else m) rs

-- When a scan ends, and when it goes on.
module _ (d : Bytes) where
  ends_header : length d < header_size → ends_scan d ≡ true
  unfolding ends_scan
  ends_header h = ground arith

  ends_short : length d < total_len d → ends_scan d ≡ true
  unfolding ends_scan
  ends_short h = ground arith

  goes_on :
      has_magic d ≡ true
      → header_size ≤ length d
      → total_len d ≤ max_recoverable_record_size
      → total_len d ≤ length d
      → ends_scan d ≡ false
  unfolding ends_scan
  goes_on m l t h = rw m (ground arith)

-- A torn record ends the scan.
ends_torn : (tail : Bytes) → IsTorn tail → ends_scan tail ≡ true
ends_torn tail t = elim (Bool-cases (ltb (length tail) header_size)) [
  | inl p ↦ ends_header tail (ground arith)
  | inr p ↦ ends_short tail (long (ground arith))
]
  where
    whole : total_len (tail ++ t.lost) ≡ length (frame t.torn)
    whole =
        ap total_len (t.cut ∙ sym (append-nil (frame t.torn))) ∙ total_len-frame _ t.torn [] t.wire

    long : header_size ≤ length tail → length tail < total_len tail
    long h = omega (
      arith,
      (header_append tail t.lost h).1,
      whole,
      ap length t.cut,
      length-append tail t.lost,
      t.short,
    )

module _ (r : Record) (v : IsStored r) (rest : Bytes) where
  total_whole : total_len (frame r ++ rest) ≡ length (frame r)
  total_whole = total_len-frame _ r rest v.wire

  on_whole : ends_scan (frame r ++ rest) ≡ false
  on_whole =
      goes_on (frame r ++ rest) (has_magic-frame _ r rest)
        (omega (arith, length-append (frame r) rest, length-frame_with _ r))
        (omega (arith, total_whole, v.not_large))
        (omega (arith, total_whole, length-append (frame r) rest))

  id_whole : get_be (slice 7 8 (frame r ++ rest)) ≡ r.id
  id_whole = ap get_be (id_field _ r rest) ∙ get_be-put_be 8 r.id v.wire.id_word

  index_whole :
      (seg_base offset pos : ℕ) (s : Scan)
      → index_record seg_base offset pos (frame r ++ rest) s ≡ record {
        records =
            s.records
            ++ (record { offset = offset; seg_base = seg_base; pos = pos; size = length (frame r) }
                ∷ []);
        max_id = if ltb s.max_id r.id then r.id else s.max_id;
        valid_file_end = pos + length (frame r);
      }
  unfolding index_record
  index_whole seg_base offset pos s = rw (total_whole, id_whole) refl

module _ (f seg_base offset pos : ℕ) (bytes : Bytes) (s : Scan) where
  scan_ended : ends_scan bytes ≡ true → scan_records (suc f) seg_base offset pos bytes s ≡ some s
  unfolding scan_records
  scan_ended h = rw h refl

  scan_next :
      ends_scan bytes ≡ false
      → scan_records (suc f) seg_base offset pos bytes s
        ≡ scan_records f seg_base
            (add64 offset 1)
            (pos + total_len bytes)
            (drop (total_len bytes) bytes)
            (index_record seg_base offset pos bytes s)
  unfolding scan_records
  scan_next h = rw h refl

scan-frames :
    (f seg_base offset pos : ℕ) (rs : List Record) (tail : Bytes) (s : Scan)
    → length (frames rs ++ tail) < f
    → All IsStored rs
    → ends_scan tail ≡ true
    → s.valid_file_end ≡ pos
    → scan_records f seg_base offset pos (frames rs ++ tail) s
      ≡ some (record {
        records = s.records ++ positions seg_base offset pos rs;
        max_id = highest s.max_id rs;
        valid_file_end = pos + length (frames rs);
      })
scan-frames zero seg_base offset pos rs tail s h v t p = absurd (omega arith)
scan-frames (suc f) seg_base offset pos [] tail s h v t p =
    scan_ended f seg_base offset pos tail s t
    ∙ ap some (λ i. record {
      records = sym (append-nil s.records) i;
      max_id = s.max_id;
      valid_file_end = at_end i;
    })
  where
    at_end : s.valid_file_end ≡ pos + 0
    at_end = omega (arith, p)
scan-frames (suc f) seg_base offset pos (r ∷ rs) tail s h (w, v) t p =
    ap (λ b. scan_records (suc f) seg_base offset pos b s) (append_assoc (frame r) (frames rs) tail)
    ∙ scan_next f seg_base offset pos (frame r ++ rest) s (on_whole r w rest)
    ∙ ap
        (λ n.
          scan_records f seg_base (add64 offset 1) (pos + n) (drop n (frame r ++ rest))
            (index_record seg_base offset pos (frame r ++ rest) s))
        (total_whole r w rest)
    ∙ ap
        (λ b.
          scan_records f seg_base (add64 offset 1) (pos + length (frame r)) b
            (index_record seg_base offset pos (frame r ++ rest) s))
        (drop_append (length (frame r)) (frame r) rest refl)
    ∙ ap (scan_records f seg_base (add64 offset 1) (pos + length (frame r)) rest)
        (index_whole r w rest seg_base offset pos s)
    ∙ scan-frames f seg_base (add64 offset 1) (pos + length (frame r)) rs tail _ fuel v t refl
    ∙ ap some (λ i. record {
      records = append_assoc s.records (entry ∷ []) later i;
      max_id = highest s.max_id (r ∷ rs);
      valid_file_end = total i;
    })
  where
    rest : Bytes
    rest = frames rs ++ tail

    entry : OffsetPos
    entry = record { offset = offset; seg_base = seg_base; pos = pos; size = length (frame r) }

    later : List OffsetPos
    later = positions seg_base (add64 offset 1) (pos + length (frame r)) rs

    fuel : length (frames rs ++ tail) < f
    fuel = omega (
      arith,
      h,
      length-append (frame r) (frames rs),
      length-append (frames (r ∷ rs)) tail,
      length-append (frames rs) tail,
    )

    total : pos + length (frame r) + length (frames rs) ≡ pos + length (frames (r ∷ rs))
    total = omega (arith, length-append (frame r) (frames rs))

ends_empty : ends_scan [] ≡ true
unfolding ends_scan
ends_empty = refl

-- Recovery of a segment that holds whole records, each of at most 10 MB and with fields in range,
-- and then nothing, or a record whose write was cut short: it ends, cuts the file to the whole records exactly, and appends to the index one entry
-- for each in order, with consecutive offsets from the segment's base and the position and length
-- of its bytes; the highest id is that of the records and of the one before.
pub recover_segment_torn :
    (seg_base : ℕ) (rs : List Record) (tail : Bytes) (records : List OffsetPos) (max_id : ℕ)
    → All IsStored rs
    → (tail ≡ []) ⊎ IsTorn tail
    → recover_segment seg_base (frames rs ++ tail) records max_id
      ≡ some (
        record {
          records = records ++ positions seg_base seg_base 0 rs;
          max_id = highest max_id rs;
          valid_file_end = length (frames rs);
        },
        frames rs,
      )
unfolding recover_segment
recover_segment_torn seg_base rs tail records max_id v t =
    ap (truncate (frames rs ++ tail)) (
      scan-frames (length (frames rs ++ tail) + 1) seg_base seg_base 0 rs tail
        (record { records = records; max_id = max_id; valid_file_end = 0 }) (omega arith) v
        (ended t) refl)
    ∙ ap
        (λ n. some (
          record {
            records = records ++ positions seg_base seg_base 0 rs;
            max_id = highest max_id rs;
            valid_file_end = n;
          },
          take n (frames rs ++ tail),
        ))
        whole_end
    ∙ ap
        (λ b. some (
          record {
            records = records ++ positions seg_base seg_base 0 rs;
            max_id = highest max_id rs;
            valid_file_end = length (frames rs);
          },
          b,
        ))
        (take_append (length (frames rs)) (frames rs) tail refl)
  where
    ended : (tail ≡ []) ⊎ IsTorn tail → ends_scan tail ≡ true
    ended (inl e) = ap ends_scan e ∙ ends_empty
    ended (inr u) = ends_torn tail u

    whole_end : 0 + length (frames rs) ≡ length (frames rs)
    whole_end = omega arith
