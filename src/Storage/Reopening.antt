-- ===== src/Storage/Reopening.antt =====
-- storage_file.go: an engine opened over a log of whole records, with one segment.
use mathlib.Core.List.{append_assoc, append-nil}
use mathlib.Core.Path.{subst}
use walspool.Base.{
  ℕ, suc, ◌+◌, ◌≤◌, ◌≡◌, refl, sym, ap, ◌∙◌, inl, inr, List, [], ◌∷◌, ◌++◌, Option, some, Bytes,
  length, length-append, take, drop_append, take_append, All, arith, max_log, add64,
}
use walspool.Record.{Record, body}
use walspool.Record.Layout.{frame}
use walspool.Storage.Recovery.{IsStored, frames, positions}
use walspool.Storage.Index.{Kept, AllKept, Counted, InPlace, Ordered, All-map}
use walspool.Storage.Appending.{read_back}

-- The records as they are read back from offset `n` on.
abbrev pub readings : ℕ → List Record → List Record
readings n [] = []
readings n (r ∷ rs) = read_back n r ∷ readings (suc n) rs

pub length-readings : (n : ℕ) (rs : List Record) → length (readings n rs) ≡ length rs
length-readings n [] = refl
length-readings n (r ∷ rs) = ap suc (length-readings (suc n) rs)

pub readings-append :
    (n : ℕ) (rs : List Record) (r : Record)
    → readings n (rs ++ (r ∷ [])) ≡ readings n rs ++ (read_back (n + length rs) r ∷ [])
readings-append n [] r = ap (λ k. read_back k r ∷ []) (omega arith)
readings-append n (x ∷ rs) r =
    ap (λ l. read_back n x ∷ l)
      (readings-append (suc n) rs r
        ∙ ap (λ k. readings (suc n) rs ++ (read_back k r ∷ [])) (omega arith))

pub frames-append : (rs : List Record) (r : Record) → frames (rs ++ (r ∷ [])) ≡ frames rs ++ frame r
frames-append [] r = append-nil (frame r)
frames-append (x ∷ rs) r =
    ap (λ b. frame x ++ b) (frames-append rs r) ∙ sym (append_assoc (frame x) (frames rs) (frame r))

-- The index of a scan of one file.
module _ (base : ℕ) where
  pub length-positions :
      (n pos : ℕ) (rs : List Record) → length (positions base n pos rs) ≡ length rs
  length-positions n pos [] = refl
  length-positions n pos (r ∷ rs) =
      ap suc (length-positions (add64 n 1) (pos + length (frame r)) rs)

  next_word : (n k : ℕ) → n + suc k ≤ max_log → add64 n 1 ≡ suc n
  next_word n k h = omega arith

  pub positions-Counted :
      (n pos : ℕ) (rs : List Record) → n + length rs ≤ max_log → Counted n (positions base n pos rs)
  positions-Counted n pos [] h = tt
  positions-Counted n pos (r ∷ rs) h = (
    refl,
    rw (next_word n (length rs) h)
        (positions-Counted (suc n) (pos + length (frame r)) rs (omega arith)),
  )

  pub positions-InPlace :
      (limit n pos : ℕ) (rs : List Record)
      → n + length rs ≤ max_log
      → base ≤ n
      → pos + length (frames rs) ≤ limit
      → All (InPlace base limit) (positions base n pos rs)
  positions-InPlace limit n pos [] m l h = tt
  positions-InPlace limit n pos (r ∷ rs) m l h = (
    inl (refl, omega (arith, length-append (frame r) (frames rs)), l),
    rw (next_word n (length rs) m) (
        positions-InPlace limit (suc n) (pos + length (frame r)) rs (omega arith) (omega arith)
          (omega (arith, length-append (frame r) (frames rs)))),
  )

  positions_behind :
      (q n pos : ℕ) (rs : List Record)
      → q ≤ pos
      → All (λ e. (base ≡ e.seg_base) × (q ≤ e.pos)) (positions base n pos rs)
  positions_behind q n pos [] h = tt
  positions_behind q n pos (r ∷ rs) h =
      ((refl, h), positions_behind q (add64 n 1) (pos + length (frame r)) rs (omega arith))

  pub positions-Ordered : (n pos : ℕ) (rs : List Record) → Ordered (positions base n pos rs)
  positions-Ordered n pos [] = tt
  positions-Ordered n pos (r ∷ rs) = (
    All-map _ _ (positions base (add64 n 1) (pos + length (frame r)) rs) (λ e h. inr h)
        (positions_behind (pos + length (frame r)) (add64 n 1) (pos + length (frame r)) rs
          (omega arith)),
    positions-Ordered (add64 n 1) (pos + length (frame r)) rs,
  )

  -- Each entry holds its record.
  pub positions-kept :
      (c : ℕ → Option Bytes) (n : ℕ) (before : Bytes) (rs : List Record)
      → c base ≡ some (before ++ frames rs)
      → All IsStored rs
      → n + length rs ≤ max_log
      → AllKept c (positions base n (length before) rs) (readings n rs)
  unfolding AllKept body
  positions-kept c n before [] h v m = tt
  positions-kept c n before (r ∷ rs) h (w, v) m = (
    kept,
    rw (next_word n (length rs) m) (
        subst (λ p. AllKept c (positions base (suc n) p rs) (readings (suc n) rs))
          (length-append before (frame r))
          (positions-kept c (suc n) (before ++ frame r) rs
            (h ∙ ap some (sym (append_assoc before (frame r) (frames rs)))) v (omega arith))),
  )
    where
      kept :
          Kept c
            (record { offset = n; seg_base = base; pos = length before; size = length (frame r) })
            (read_back n r)
      kept = record {
        file = before ++ frames (r ∷ rs);
        held = h;
        inside =
            omega
              (arith, length-append before (frames (r ∷ rs)), length-append (frame r) (frames rs));
        whole =
            ap (take (length (frame r)))
              (drop_append (length before) before (frame r ++ frames rs) refl)
            ∙ take_append (length (frame r)) (frame r) (frames rs) refl;
        sized = refl;
        wire = record {
          id_word = w.wire.id_word;
          time_word = w.wire.time_word;
          topic_fits = w.wire.topic_fits;
          payload_fits = w.wire.payload_fits;
        };
        sum = refl;
        numbered = refl;
      }
