-- ===== src/Hub/Index/Update.antt =====
-- `link` and `unlink` on the index of their key, of other keys, and of the other side.
use mathlib.Core.Path.{subst}
use walspool.Base.{
  ℕ, ◌+◌, ◌%◌, ◌^◌, ◌<◌, ◌≡◌, ◌≢◌, refl, sym, ap, ◌∙◌, List, [], ◌∷◌, ◌++◌, All, length, arith,
  false, none, some, Bytes, lookup, insert, lookup-insert, str_eq, str_eq_refl, length-append,
}
use walspool.Hub.Index.{Side, no_link, SlotLinks, IndexSpan, Spans, clear, link}
use walspool.Hub.Index.Chain.{last_or, other}
use walspool.Hub.Index.Writes.{
  Same, IsChain-Same, length-clear, clear_self, clear_ne, clear-other, behind, length-behind,
  behind_ne, behind-other,
}
use walspool.Hub.Index.Linked.{IsDistinct, IsIndexed, IsChain-behind, All-last_or, All-Same}

module _ (sd : Side) (pos : ℕ) (x : ℕ) (key : Bytes) (ls : List SlotLinks) (m : Spans) where
  abbrev k : Bytes
  k = x ∷ key

  abbrev single : IndexSpan
  single = record { head = pos; tail = pos; count = 1 }

  link_fresh : lookup k m ≡ none → link sd pos k (ls, m) ≡ (clear sd pos ls, insert k single m)
  unfolding link
  link_fresh e = rw e

  link_known :
      (span : IndexSpan)
      → lookup k m ≡ some span
      → link sd pos k (ls, m) ≡ (
        behind sd pos span.tail ls,
        insert k (record span { tail = pos; count = (span.count + 1) % 2 ^ 32 }) m,
      )
  unfolding link
  link_known span e = rw e

  last_snoc : (b p : ℕ) (ps : List ℕ) → last_or b ((p ∷ ps) ++ (pos ∷ [])) ≡ pos
  last_snoc b p [] = refl
  last_snoc b p (q ∷ ps) = last_snoc p q ps

  lookup_self : (s : IndexSpan) → lookup k (insert k s m) ≡ some s
  lookup_self s = rw (lookup-insert k k s m, str_eq_refl k)

  pub link-IsIndexed :
      (ps : List ℕ)
      → pos < length ls
      → All (λ q. q < length ls) ps
      → All (λ q. pos ≢ q) ps
      → IsDistinct ps
      → length ps < 2 ^ 31
      → IsIndexed sd (ls, m) k ps
      → IsIndexed sd (link sd pos k (ls, m)) k (ps ++ (pos ∷ []))
  link-IsIndexed [] h lt ne d small e =
      let (a, b) = clear_self sd pos ls h in rw (link_fresh e) (lookup_self single, (a, b, tt))
  link-IsIndexed (p ∷ ps) h lt ne d small (e, c) =
      subst (λ r. IsIndexed sd r k (p ∷ (ps ++ (pos ∷ [])))) (sym (link_known _ e))
        (
          lookup_self _
              ∙ ap some
                  (λ i. record { head = p; tail = sym (last_snoc p p ps) i; count = counted i }),
          IsChain-behind sd ls pos no_link p ps h lt ne d c,
        )
    where
      counted : (length (p ∷ ps) + 1) % 2 ^ 32 ≡ length ((p ∷ ps) ++ (pos ∷ []))
      counted = omega (arith, length-append (p ∷ ps) (pos ∷ []))

  -- Another key of the side, whose slots are none of those of this key.
  pub link-IsIndexed_ne :
      (ps : List ℕ) (j : Bytes) (qs : List ℕ)
      → str_eq k j ≡ false
      → All (λ q. pos ≢ q) qs
      → All (λ q. All (λ p. p ≢ q) ps) qs
      → IsIndexed sd (ls, m) k ps
      → IsIndexed sd (ls, m) j qs
      → IsIndexed sd (link sd pos k (ls, m)) j qs
  link-IsIndexed_ne [] j [] dj ne apart e f =
      rw (link_fresh e) (rw (lookup-insert k j single m, dj) f)
  link-IsIndexed_ne [] j (q ∷ qs) dj ne apart e (f, c) =
      subst (λ r. IsIndexed sd r j (q ∷ qs)) (sym (link_fresh e))
        (
          rw (lookup-insert k j single m, dj) f,
          IsChain-Same sd ls _ no_link (q ∷ qs)
              (All-Same (λ r. pos ≢ r) (λ r. pos ≢ r) _ (λ r n _. clear_ne sd pos ls r n) (q ∷ qs)
                ne ne)
              c,
        )
  link-IsIndexed_ne (p ∷ ps) j [] dj ne apart (e, c) f =
      rw (link_known _ e) (rw (lookup-insert k j _ m, dj) f)
  link-IsIndexed_ne (p ∷ ps) j (q ∷ qs) dj ne apart (e, c) (f, c') =
      subst (λ r. IsIndexed sd r j (q ∷ qs)) (sym (link_known _ e))
        (
          rw (lookup-insert k j _ m, dj) f,
          IsChain-Same sd ls _ no_link (q ∷ qs)
              (All-Same (λ r. pos ≢ r) (λ r. All (λ s. s ≢ r) (p ∷ ps)) _
                (λ r n a. behind_ne sd pos (last_or p ps) ls r n (All-last_or (λ s. s ≢ r) p ps a))
                (q ∷ qs) ne apart)
              c',
        )

  -- The other side.
  pub link-other :
      (ps : List ℕ) (q : ℕ)
      → IsIndexed sd (ls, m) k ps
      → Same (other sd) ls (link sd pos k (ls, m)).0 q
  link-other [] q e = rw (link_fresh e) (clear-other sd pos ls q)
  link-other (p ∷ ps) q (e, c) = rw (link_known _ e) (behind-other sd pos (last_or p ps) ls q)

  pub length-link :
      (ps : List ℕ) → IsIndexed sd (ls, m) k ps → length (link sd pos k (ls, m)).0 ≡ length ls
  length-link [] e = rw (link_fresh e) (length-clear sd pos ls)
  length-link (p ∷ ps) (e, c) = rw (link_known _ e) (length-behind sd pos (last_or p ps) ls)
