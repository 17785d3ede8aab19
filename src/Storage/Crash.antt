-- ===== src/Storage/Crash.antt =====
-- storage_file.go: opening a log of which only the first bytes are left.
use mathlib.Core.List.{append-nil, append_assoc}
use walspool.Base.{
  ℕ, suc, ◌-◌, ◌<◌, ◌≤◌, ◌≡◌, ◌⊎◌, refl, sym, ap, ◌∙◌, inl, inr, true, false, ◌==◌, leb, List, [],
  ◌∷◌, ◌++◌, Option, none, some, Bytes, length, length-append, length-take, length-drop, take, drop,
  take_all, take_past, take_front, take-append-drop, arith, max_log, sle, All, Bool-cases,
}
use walspool.Errors.{ok}
use walspool.Record.{Record}
use walspool.Record.Layout.{frame}
use walspool.Storage.Recovery.{IsStored, IsTorn, frames}
use walspool.Storage.Files.{active_wal, segment, Dir, get, contents}
use walspool.Storage.State.{FileStorageOptions, FileStorage, no_faults}
use walspool.Storage.Opening.{checkpoint_of, new_with_options}
use walspool.Storage.Reopening.{readings}
use walspool.Storage.Reopens.{new-Reopens}
use walspool.Storage.Queue.{IsOpen, pending}

-- The records whose bytes are all among the first `n` of the log, and the rest of those bytes.
record Survives (n : ℕ) (rs : List Record) : Type 0 where
  pub k : ℕ
  pub tail : Bytes
  pub split : take n (frames rs) ≡ frames (take k rs) ++ tail
  pub torn : (tail ≡ []) ⊎ IsTorn tail
  pub stored : All IsStored (take k rs)
  pub whole : length (frames (take k rs)) ≤ n
  pub most : k < length rs → n < length (frames (take (suc k) rs))

survives : (n : ℕ) (rs : List Record) → All IsStored rs → Survives n rs
survives n [] v = record {
  k = 0;
  tail = [];
  split = take_all n [] (omega arith);
  torn = inl refl;
  stored = tt;
  whole = omega arith;
  most = λ h. absurd (omega arith);
}
survives n (r ∷ rs) (w, v) = elim (Bool-cases (leb (length (frame r)) n)) [
  | inl all ↦ more (survives (n - length (frame r)) rs v) (ground arith)
  | inr cut ↦ record {
    k = 0;
    tail = take n (frames (r ∷ rs));
    split = refl;
    torn = partly (ground arith);
    stored = tt;
    whole = omega arith;
    most = λ h.
        let q : n < length (frame r) = ground arith in
        omega (arith, q, ap length (append-nil (frame r)));
  }
]
  where
    more : Survives (n - length (frame r)) rs → length (frame r) ≤ n → Survives n (r ∷ rs)
    more s le = record {
      k = suc s.k;
      tail = s.tail;
      split =
          take_past n (frame r) (frames rs) le
          ∙ ap (λ b. frame r ++ b) s.split
          ∙ sym (append_assoc (frame r) (frames (take s.k rs)) s.tail);
      torn = s.torn;
      stored = (w, s.stored);
      whole = omega (arith, s.whole, length-append (frame r) (frames (take s.k rs)));
      most = λ h.
          let q = s.most (omega arith) in
          omega (arith, length-append (frame r) (frames (take (suc s.k) rs)));
    }

    partly :
        n < length (frame r) → (take n (frames (r ∷ rs)) ≡ []) ⊎ IsTorn (take n (frames (r ∷ rs)))
    partly lt = inr (record {
      torn = r;
      lost = drop n (frame r);
      wire = w.wire;
      cut =
          ap (λ b. b ++ drop n (frame r)) (take_front n (frame r) (frames rs) (omega arith))
          ∙ take-append-drop n (frame r);
      short = omega (arith, length-drop n (frame r));
    })

-- A log of at most 2 ^ 62 whole records, each of at most 10 MB and with fields in range, of which a
-- crash has left the first `n` bytes and no segment files: with no faults, an engine opens over it,
-- for one segment, a named directory and a positive capacity. Pending are the records whose bytes
-- are all left, numbered from 0 on, without those before the stored checkpoint; there are as many
-- of them as the bytes allow.
pub new_after_crash :
    (n : ℕ) (rs : List Record) (disk : Dir)
    → contents active_wal disk ≡ take n (frames rs)
    → All IsStored rs
    → length rs ≤ max_log
    → ((b : ℕ) → 0 < b → get (segment b) disk ≡ none)
    → (dir : Bytes) (max_capacity : ℕ) (o : FileStorageOptions) (meta : Option Bytes)
    → (length dir == 0) ≡ false
    → sle max_capacity 0 ≡ false
    → sle o.max_segment_size 0 ≡ true
    → (k : ℕ) × (length (frames (take k rs)) ≤ n)
      × (k < length rs → n < length (frames (take (suc k) rs)))
      × ((f : FileStorage) × (new_with_options no_faults dir max_capacity o disk meta
            ≡ some (ok tt, f))
          × IsOpen f
          × (pending f ≡ drop (checkpoint_of meta) (readings 0 (take k rs))))
new_after_crash n rs disk left v small others dir cap o meta named room single =
    let s = survives n rs v in
    (
      s.k,
      s.whole,
      s.most,
      new-Reopens dir cap o disk meta (take s.k rs)
          (record {
            tail = s.tail;
            whole = left ∙ s.split;
            torn = s.torn;
            stored = s.stored;
            small = omega (arith, length-take s.k rs);
            no_segments = others;
          })
          single named room,
    )
