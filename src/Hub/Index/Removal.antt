-- ===== src/Hub/Index/Removal.antt =====
-- `unlink` of the oldest slot of a key: on the index of that key, of other keys, and of the
-- other side.
use mathlib.Core.Path.{subst, ap₂}
use walspool.Base.{
  ℕ, suc, ◌^◌, ◌<◌, ◌≡◌, ◌≢◌, inl, inr, refl, sym, ap, ◌∙◌, List, [], ◌∷◌, All, length, arith, Bool,
  false, ◌==◌, ◌&&◌, ◌||◌, leb, some, Bytes, lookup, insert, erase, lookup-insert, lookup-erase,
  str_eq, str_eq_refl, Bool-cases, ==_iff,
}
use walspool.Hub.Index.{
  Side, no_link, SlotLinks, IndexSpan, Spans, prev_at, next_at, set_prev, clear, join, unlink,
  shrink,
}
use walspool.Hub.Index.Chain.{
  IsChain, last_or, other, length-set_prev, prev-set_prev_ne, next-set_prev, prev-set_prev-other,
}
use walspool.Hub.Index.Writes.{Same, IsChain-Same, length-clear, clear_ne, clear-other}
use walspool.Hub.Index.Linked.{
  IsDistinct, IsIndexed, IsChain-front, All-last_or, All-Same, All-everywhere,
}

ne-==_false : (a b : ℕ) → a ≢ b → (a == b) ≡ false
ne-==_false a b h = elim (Bool-cases (a == b)) [ inl e ↦ absurd (h ((==_iff a b).0 e)) | inr e ↦ e ]

several : (b : Bool) (n : ℕ) → (leb (suc (suc n)) 1 || (b && false)) ≡ false
several b n = ground arith

module _ (sd : Side) (pos : ℕ) (x : ℕ) (key : Bytes) (ls : List SlotLinks) (m : Spans) where
  abbrev k : Bytes
  k = x ∷ key

  unlink_last :
      lookup k m ≡ some (record { head = pos; tail = pos; count = 1 })
      → unlink sd pos k (ls, m) ≡ (clear sd pos ls, erase k m)
  unfolding unlink
  unlink_last e = rw e

  abbrev shifted : ℕ → ℕ → ℕ → IndexSpan
  shifted q t n = record { head = q; tail = t; count = suc n }

  join_front : (q : ℕ) → q ≢ no_link → join sd no_link q ls ≡ set_prev sd q no_link ls
  unfolding join
  join_front q h = rw (ne-==_false q no_link h)

  shrink_front :
      (q t n : ℕ)
      → q ≢ no_link
      → suc n < 2 ^ 32
      → shrink no_link q (record { head = pos; tail = t; count = suc (suc n) }) ≡ shifted q t n
  unfolding shrink
  shrink_front q t n h small =
      rw (ne-==_false q no_link h)
        (ap (λ c. record { head = q; tail = t; count = c }) (omega arith))

  unlink_front :
      (q t n : ℕ)
      → lookup k m ≡ some (record { head = pos; tail = t; count = suc (suc n) })
      → t ≢ pos
      → q ≢ no_link
      → suc n < 2 ^ 32
      → prev_at sd ls pos ≡ no_link
      → next_at sd ls pos ≡ q
      → unlink sd pos k (ls, m)
        ≡ (clear sd pos (set_prev sd q no_link ls), insert k (shifted q t n) m)
  unfolding unlink
  unlink_front q t n e ne h small a b =
      rw (e, ne-==_false t pos ne, a, b)
        (rw (several (pos == pos) n) (
          ap₂ (λ l s. (clear sd pos l, insert k s m)) (join_front q h)
            (shrink_front q t n h small)))

  front :
      (q : ℕ) (qs : List ℕ)
      → All (λ r. r < length ls) (q ∷ qs)
      → IsDistinct (pos ∷ q ∷ qs)
      → length ls < 2 ^ 31
      → length (q ∷ qs) < 2 ^ 31
      → lookup k m
        ≡ some (record { head = pos; tail = last_or q qs; count = suc (suc (length qs)) })
      → IsChain sd ls no_link (pos ∷ q ∷ qs)
      → unlink sd pos k (ls, m) ≡ (
        clear sd pos (set_prev sd q no_link ls),
        insert k (shifted q (last_or q qs) (length qs)) m,
      )
  front q qs lt d small few e c =
      unlink_front q (last_or q qs) (length qs) e (λ h. All-last_or (λ r. pos ≢ r) q qs d.0 (sym h))
        (λ h. omega (arith, lt.0)) (omega arith) c.0 c.1

  front_ne : (q r : ℕ) → pos ≢ r → q ≢ r → Same sd ls (clear sd pos (set_prev sd q no_link ls)) r
  front_ne q r ne ne' =
      let (a, b) = clear_ne sd pos (set_prev sd q no_link ls) r ne in
      (a ∙ prev-set_prev_ne sd ls q no_link r ne', b ∙ next-set_prev sd ls q no_link sd r)

  front_other : (q r : ℕ) → Same (other sd) ls (clear sd pos (set_prev sd q no_link ls)) r
  front_other q r =
      let (a, b) = clear-other sd pos (set_prev sd q no_link ls) r in
      (a ∙ prev-set_prev-other sd ls q no_link r, b ∙ next-set_prev sd ls q no_link (other sd) r)

  -- Oldest first, a key loses its first slot.
  pub unlink-IsIndexed :
      (ps : List ℕ)
      → All (λ q. q < length ls) ps
      → IsDistinct (pos ∷ ps)
      → length ls < 2 ^ 31
      → length ps < 2 ^ 31
      → IsIndexed sd (ls, m) k (pos ∷ ps)
      → IsIndexed sd (unlink sd pos k (ls, m)) k ps
  unlink-IsIndexed [] lt d small few (e, c) =
      subst (λ r. IsIndexed sd r k []) (sym (unlink_last e))
        (rw (lookup-erase k k m, str_eq_refl k) refl)
  unlink-IsIndexed (q ∷ qs) lt d small few (e, c) =
      subst (λ r. IsIndexed sd r k (q ∷ qs)) (sym (front q qs lt d small few e c))
        (
          rw (lookup-insert k k (shifted q (last_or q qs) (length qs)) m, str_eq_refl k) refl,
          IsChain-front sd ls pos q no_link qs lt.0 d c,
        )

  -- Another key of the side, whose slots are none of those of this key.
  pub unlink-IsIndexed_ne :
      (ps : List ℕ) (j : Bytes) (qs : List ℕ)
      → str_eq k j ≡ false
      → All (λ q. q < length ls) ps
      → IsDistinct (pos ∷ ps)
      → length ls < 2 ^ 31
      → length ps < 2 ^ 31
      → All (λ r. All (λ p. p ≢ r) (pos ∷ ps)) qs
      → IsIndexed sd (ls, m) k (pos ∷ ps)
      → IsIndexed sd (ls, m) j qs
      → IsIndexed sd (unlink sd pos k (ls, m)) j qs
  unlink-IsIndexed_ne [] j [] dj lt d small few apart (e, c) f =
      subst (λ r. IsIndexed sd r j []) (sym (unlink_last e)) (rw (lookup-erase k j m, dj) f)
  unlink-IsIndexed_ne [] j (r ∷ rs) dj lt d small few apart (e, c) (f, c') =
      subst (λ s. IsIndexed sd s j (r ∷ rs)) (sym (unlink_last e))
        (
          rw (lookup-erase k j m, dj) f,
          IsChain-Same sd ls _ no_link (r ∷ rs)
              (All-Same (λ r. All (λ p. p ≢ r) (pos ∷ [])) (λ r. Unit {0}) _
                (λ r n _. clear_ne sd pos ls r n.0) (r ∷ rs) apart
                (All-everywhere _ (λ r. tt) (r ∷ rs)))
              c',
        )
  unlink-IsIndexed_ne (q ∷ qs) j [] dj lt d small few apart (e, c) f =
      subst (λ s. IsIndexed sd s j []) (sym (front q qs lt d small few e c))
        (rw (lookup-insert k j (shifted q (last_or q qs) (length qs)) m, dj) f)
  unlink-IsIndexed_ne (q ∷ qs) j (r ∷ rs) dj lt d small few apart (e, c) (f, c') =
      subst (λ s. IsIndexed sd s j (r ∷ rs)) (sym (front q qs lt d small few e c))
        (
          rw (lookup-insert k j (shifted q (last_or q qs) (length qs)) m, dj) f,
          IsChain-Same sd ls _ no_link (r ∷ rs)
              (All-Same (λ r. All (λ p. p ≢ r) (pos ∷ q ∷ qs)) (λ r. Unit {0}) _
                (λ r n _. front_ne q r n.0 n.1.0) (r ∷ rs) apart
                (All-everywhere _ (λ r. tt) (r ∷ rs)))
              c',
        )

  -- The other side, and the number of slots.
  pub unlink-other :
      (ps : List ℕ) (r : ℕ)
      → All (λ q. q < length ls) ps
      → IsDistinct (pos ∷ ps)
      → length ls < 2 ^ 31
      → length ps < 2 ^ 31
      → IsIndexed sd (ls, m) k (pos ∷ ps)
      → Same (other sd) ls (unlink sd pos k (ls, m)).0 r
  unlink-other [] r lt d small few (e, c) = rw (unlink_last e) (clear-other sd pos ls r)
  unlink-other (q ∷ qs) r lt d small few (e, c) =
      subst (λ s. Same (other sd) ls s.0 r) (sym (front q qs lt d small few e c)) (front_other q r)

  pub length-unlink :
      (ps : List ℕ)
      → All (λ q. q < length ls) ps
      → IsDistinct (pos ∷ ps)
      → length ls < 2 ^ 31
      → length ps < 2 ^ 31
      → IsIndexed sd (ls, m) k (pos ∷ ps)
      → length (unlink sd pos k (ls, m)).0 ≡ length ls
  length-unlink [] lt d small few (e, c) = rw (unlink_last e) (length-clear sd pos ls)
  length-unlink (q ∷ qs) lt d small few (e, c) =
      subst (λ s. length s.0 ≡ length ls) (sym (front q qs lt d small few e c))
        (length-clear sd pos (set_prev sd q no_link ls) ∙ length-set_prev sd ls q no_link)
