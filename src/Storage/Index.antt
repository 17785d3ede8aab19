-- ===== src/Storage/Index.antt =====
-- The index over the bytes of its segments: what each entry holds, and how the entries are placed.
use walspool.Base.{
  ℕ, zero, suc, ◌+◌, ◌<◌, ◌≤◌, ◌≡◌, ◌⊎◌, refl, sym, ap, ◌∙◌, List, [], ◌∷◌, ◌++◌, Option, some,
  Bytes, length, take, drop, All, arith,
}
use walspool.Record.{Record, body, checksum_ieee, slice}
use walspool.Record.Layout.{IsWire, frame}
use walspool.Storage.{OffsetPos}

-- The bytes at an entry are the encoding of a record, which is as it is read back.
pub record Kept (content : ℕ → Option Bytes) (e : OffsetPos) (r : Record) : Type 0 where
  pub file : Bytes
  pub held : content e.seg_base ≡ some file
  pub inside : e.pos + e.size ≤ length file
  pub whole : slice e.pos e.size file ≡ frame r
  pub sized : e.size ≡ length (frame r)
  pub wire : IsWire r
  pub sum : r.checksum ≡ checksum_ieee (body r)
  pub numbered : r.offset ≡ e.offset

-- The entries hold these records, one each.
unfoldable pub AllKept : (ℕ → Option Bytes) → List OffsetPos → List Record → Type 0
AllKept c [] [] = Unit {0}
AllKept c (e ∷ es) (r ∷ rs) = Kept c e r × AllKept c es rs
AllKept c _ _ = ⊥

-- Offsets count up from `n`.
abbrev pub Counted : ℕ → List OffsetPos → Type 0
Counted n [] = Unit {0}
Counted n (e ∷ es) = (e.offset ≡ n) × Counted (suc n) es

-- In the active segment, within its first `limit` bytes; or in an earlier one.
abbrev pub InPlace : ℕ → ℕ → OffsetPos → Type 0
InPlace active limit e =
    ((e.seg_base ≡ active) × (e.pos + e.size ≤ limit) × (active ≤ e.offset))
    ⊎ ((e.seg_base < active) × (e.offset < active))

-- In an earlier segment, or before it in the same one.
abbrev pub Before : OffsetPos → OffsetPos → Type 0
Before e e' = (e.seg_base < e'.seg_base) ⊎ ((e.seg_base ≡ e'.seg_base) × (e.pos + e.size ≤ e'.pos))

abbrev pub Ordered : List OffsetPos → Type 0
Ordered [] = Unit {0}
Ordered (e ∷ es) = All (Before e) es × Ordered es

-- Two files have the same first `n` bytes.
abbrev pub Agree : ℕ → Bytes → Bytes → Type 0
Agree n a b = (n ≤ length a) × (n ≤ length b) × (take n a ≡ take n b)

take-take : (m n : ℕ) (b : Bytes) → m ≤ n → take m (take n b) ≡ take m b
take-take zero n b h = refl
take-take (suc m) zero b h = absurd (omega arith)
take-take (suc m) (suc n) [] h = refl
take-take (suc m) (suc n) (x ∷ b) h = ap (◌∷◌ x) (take-take m n b (omega arith))

slice-take : (lo n k : ℕ) (b : Bytes) → lo + n ≤ k → slice lo n (take k b) ≡ slice lo n b
slice-take zero n k b h = take-take n k b (omega arith)
slice-take (suc lo) n zero b h = absurd (omega arith)
slice-take (suc lo) n (suc k) [] h = refl
slice-take (suc lo) n (suc k) (x ∷ b) h = slice-take lo n k b (omega arith)

-- An entry is kept when the bytes up to its end are.
pub Kept-agreeing :
    (c c' : ℕ → Option Bytes) (e : OffsetPos) (r : Record) (a b : Bytes) (n : ℕ)
    → Kept c e r
    → c e.seg_base ≡ some a
    → c' e.seg_base ≡ some b
    → Agree n a b
    → e.pos + e.size ≤ n
    → Kept c' e r
Kept-agreeing c c' e r a b n k ha hb (la, lb, same) h = record {
  file = b;
  held = hb;
  inside = omega (arith, h, lb);
  whole =
      sym (slice-take e.pos e.size n b h)
      ∙ ap (slice e.pos e.size) (sym same)
      ∙ slice-take e.pos e.size n a h
      ∙ ap (slice e.pos e.size) same_file
      ∙ k.whole;
  sized = k.sized;
  wire = k.wire;
  sum = k.sum;
  numbered = k.numbered;
}
  where
    same_file : a ≡ k.file
    same_file = cc (ha, k.held)

pub Kept-unmoved :
    (c c' : ℕ → Option Bytes) (e : OffsetPos) (r : Record)
    → Kept c e r
    → c' e.seg_base ≡ c e.seg_base
    → Kept c' e r
Kept-unmoved c c' e r k h = record {
  file = k.file;
  held = h ∙ k.held;
  inside = k.inside;
  whole = k.whole;
  sized = k.sized;
  wire = k.wire;
  sum = k.sum;
  numbered = k.numbered;
}

-- What is so for each entry carries the records over.
pub AllKept-carry :
    (Q : OffsetPos → Type 0) (c c' : ℕ → Option Bytes) (es : List OffsetPos) (rs : List Record)
    → ((e : OffsetPos) (r : Record) → Q e → Kept c e r → Kept c' e r)
    → All Q es
    → AllKept c es rs
    → AllKept c' es rs
unfolding AllKept
AllKept-carry Q c c' [] [] f q k = tt
AllKept-carry Q c c' [] (r ∷ rs) f q k = k
AllKept-carry Q c c' (e ∷ es) [] f q k = k
AllKept-carry Q c c' (e ∷ es) (r ∷ rs) f q k = (f e r q.0 k.0, AllKept-carry Q c c' es rs f q.1 k.1)

module _ (c : ℕ → Option Bytes) where
  pub AllKept-take :
      (n : ℕ) (es : List OffsetPos) (rs : List Record)
      → AllKept c es rs
      → AllKept c (take n es) (take n rs)
  unfolding AllKept
  AllKept-take zero es rs k = tt
  AllKept-take (suc n) [] [] k = tt
  AllKept-take (suc n) [] (r ∷ rs) k = absurd k
  AllKept-take (suc n) (e ∷ es) [] k = absurd k
  AllKept-take (suc n) (e ∷ es) (r ∷ rs) k = (k.0, AllKept-take n es rs k.1)

  pub AllKept-drop :
      (n : ℕ) (es : List OffsetPos) (rs : List Record)
      → AllKept c es rs
      → AllKept c (drop n es) (drop n rs)
  unfolding AllKept
  AllKept-drop zero es rs k = k
  AllKept-drop (suc n) [] [] k = tt
  AllKept-drop (suc n) [] (r ∷ rs) k = absurd k
  AllKept-drop (suc n) (e ∷ es) [] k = absurd k
  AllKept-drop (suc n) (e ∷ es) (r ∷ rs) k = AllKept-drop n es rs k.1

  pub AllKept-append :
      (es : List OffsetPos) (rs : List Record) (e : OffsetPos) (r : Record)
      → AllKept c es rs
      → Kept c e r
      → AllKept c (es ++ (e ∷ [])) (rs ++ (r ∷ []))
  unfolding AllKept
  AllKept-append [] [] e r k h = (h, tt)
  AllKept-append [] (x ∷ rs) e r k h = absurd k
  AllKept-append (x ∷ es) [] e r k h = absurd k
  AllKept-append (x ∷ es) (y ∷ rs) e r k h = (k.0, AllKept-append es rs e r k.1 h)

  pub AllKept-length :
      (es : List OffsetPos) (rs : List Record) → AllKept c es rs → length es ≡ length rs
  unfolding AllKept
  AllKept-length [] [] k = refl
  AllKept-length [] (r ∷ rs) k = absurd k
  AllKept-length (e ∷ es) [] k = absurd k
  AllKept-length (e ∷ es) (r ∷ rs) k = ap suc (AllKept-length es rs k.1)

module _ (P : OffsetPos → Type 0) where
  pub All-take : (n : ℕ) (es : List OffsetPos) → All P es → All P (take n es)
  All-take zero es h = tt
  All-take (suc n) [] h = tt
  All-take (suc n) (e ∷ es) h = (h.0, All-take n es h.1)

  pub All-drop : (n : ℕ) (es : List OffsetPos) → All P es → All P (drop n es)
  All-drop zero es h = h
  All-drop (suc n) [] h = tt
  All-drop (suc n) (e ∷ es) h = All-drop n es h.1

  pub All-append : (es : List OffsetPos) (e : OffsetPos) → All P es → P e → All P (es ++ (e ∷ []))
  All-append [] e h p = (p, tt)
  All-append (x ∷ es) e h p = (h.0, All-append es e h.1 p)

pub All-map :
    (P Q : OffsetPos → Type 0) (es : List OffsetPos)
    → ((e : OffsetPos) → P e → Q e)
    → All P es
    → All Q es
All-map P Q [] f h = tt
All-map P Q (e ∷ es) f h = (f e h.0, All-map P Q es f h.1)

pub Ordered-take : (n : ℕ) (es : List OffsetPos) → Ordered es → Ordered (take n es)
Ordered-take zero es h = tt
Ordered-take (suc n) [] h = tt
Ordered-take (suc n) (e ∷ es) h = (All-take (Before e) n es h.0, Ordered-take n es h.1)

pub Ordered-drop : (n : ℕ) (es : List OffsetPos) → Ordered es → Ordered (drop n es)
Ordered-drop zero es h = h
Ordered-drop (suc n) [] h = tt
Ordered-drop (suc n) (e ∷ es) h = Ordered-drop n es h.1

pub Ordered-append :
    (es : List OffsetPos) (e : OffsetPos)
    → All (λ x. Before x e) es
    → Ordered es
    → Ordered (es ++ (e ∷ []))
Ordered-append [] e b h = (tt, tt)
Ordered-append (x ∷ es) e b h = (All-append (Before x) es e h.0 b.0, Ordered-append es e b.1 h.1)

pub Counted-take : (n k : ℕ) (es : List OffsetPos) → Counted k es → Counted k (take n es)
Counted-take zero k es h = tt
Counted-take (suc n) k [] h = tt
Counted-take (suc n) k (e ∷ es) h = (h.0, Counted-take n (suc k) es h.1)

pub Counted-append :
    (k : ℕ) (es : List OffsetPos) (e : OffsetPos)
    → Counted k es
    → e.offset ≡ k + length es
    → Counted k (es ++ (e ∷ []))
Counted-append k [] e h p = (omega arith, tt)
Counted-append k (x ∷ es) e h p = (h.0, Counted-append (suc k) es e h.1 (omega arith))

pub Counted-lt :
    (k : ℕ) (es : List OffsetPos) → Counted k es → All (λ e. e.offset < k + length es) es
Counted-lt k [] h = tt
Counted-lt k (e ∷ es) (h, hs) =
    (omega arith, All-map _ _ es (λ x q. omega arith) (Counted-lt (suc k) es hs))
