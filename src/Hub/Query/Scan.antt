-- ===== src/Hub/Query/Scan.antt =====
-- The loop over the ring gives the newest matching entries of the hub.
use mathlib.Core.List.{reverse, reverse-append}
use native.Mathlib.Nat.{add-mod_right}
use walspool.Base.{
  ℕ, zero, suc, ◌+◌, ◌-◌, ◌%◌, ◌≡◌, refl, sym, ap, ◌∙◌, inl, inr, List, [], ◌∷◌, arith, length,
  Bool, true, false, leb, Bool-cases, none, get_or,
}
use walspool.Hub.Types.{LogEntry}
use walspool.Hub.Ring.{slots, slots-suc}
use walspool.Hub.State.{MemoryLogHub}
use walspool.Hub.Query.{collect, scan}
use walspool.Hub.Query.Walk.{after, after_enough, after_end, after-collect}
use walspool.Hub.Ingest.Log.{entries_at}

module _ (test : LogEntry → Bool) (limit : ℕ) (h : MemoryLogHub) where
  abbrev slot : ℕ → ℕ
  slot i = (h.head + h.count - 1 - i + h.capacity) % h.capacity

  scan_enough :
      (n i : ℕ) (matched : List LogEntry)
      → leb limit (length matched) ≡ true
      → scan test limit h (suc n) i matched ≡ matched
  unfolding scan
  scan_enough n i matched e = ground arith

  scan_on :
      (n i : ℕ) (matched : List LogEntry)
      → leb limit (length matched) ≡ false
      → scan test limit h (suc n) i matched
        ≡ scan test limit h n (i + 1) (collect test (get_or h.entries (slot i) none) matched)
  unfolding scan
  scan_on n i matched e = ground arith

  newest_slot :
      (n i : ℕ)
      → i + suc n ≡ h.count
      → reverse (slots h.capacity h.head 0 (suc n)) ≡ slot i ∷ reverse (slots h.capacity h.head 0 n)
  newest_slot n i e =
      ap reverse (slots-suc h.capacity h.head 0 n)
      ∙ reverse-append (slots h.capacity h.head 0 n) ((h.head + (0 + n)) % h.capacity ∷ [])
      ∙ ap (λ p. p ∷ reverse (slots h.capacity h.head 0 n))
          (sym (add-mod_right (h.head + (0 + n)) h.capacity)
            ∙ ap (λ k. k % h.capacity) (omega arith))

  nothing_left : slots h.capacity h.head 0 0 ≡ []
  unfolding slots
  nothing_left = refl

  pub scan-after :
      (n i : ℕ) (matched : List LogEntry)
      → i + n ≡ h.count
      → scan test limit h n i matched
        ≡ after test limit matched (entries_at h.entries (reverse (slots h.capacity h.head 0 n)))
  unfolding scan
  scan-after zero i matched e =
      sym (after_end test limit matched)
      ∙ ap (λ ps. after test limit matched (entries_at h.entries (reverse ps))) (sym nothing_left)
  scan-after (suc n) i matched e = elim (Bool-cases (leb limit (length matched))) [
    | inl x ↦ scan_enough n i matched x ∙ sym (after_enough test limit matched _ x)
    | inr x ↦
        scan_on n i matched x
        ∙ scan-after n (i + 1) (collect test (get_or h.entries (slot i) none) matched) (omega arith)
        ∙ after-collect test limit (get_or h.entries (slot i) none) matched _ x
        ∙ ap (λ ps. after test limit matched (entries_at h.entries ps)) (sym (newest_slot n i e))
  ]
