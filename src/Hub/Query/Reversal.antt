-- ===== src/Hub/Query/Reversal.antt =====
-- Filters, reversals and the newest elements of a list.
use mathlib.Core.Path.{fun_ext}
use mathlib.Core.List.{reverse, reverse_aux, reverse-append}
use walspool.Base.{
  ℕ, ◌+◌, ◌-◌, ◌≡◌, refl, sym, ap, ◌∙◌, inl, inr, List, [], ◌∷◌, ◌++◌, arith, length, length-drop,
  take, drop, drop_append, take-append-drop, Bool, ◌&&◌, Bool-cases, Option-cases, if◌then◌else◌,
  Option, none, get_or, Bytes, str_eq,
}
use walspool.Hub.Types.{LogEntry}
use walspool.Hub.Index.{Side}
use walspool.Hub.Ingest.{key_of}
use walspool.Hub.Ingest.Holding.{holding}
use walspool.Hub.Ingest.Log.{entries_at, newest}
use walspool.Hub.Query.Walk.{filter}

module _ {ℓ} {A : Type ℓ} where
  pub length-reverse_aux : (xs ys : List A) → length (reverse_aux xs ys) ≡ length xs + length ys
  length-reverse_aux [] ys = omega arith
  length-reverse_aux (x ∷ xs) ys = omega (arith, length-reverse_aux xs (x ∷ ys))

  -- Newest first, the first `n` are the newest `n` of the list in order.
  pub reverse-take : (n : ℕ) (ys : List A) → reverse (take n ys) ≡ newest n (reverse ys)
  reverse-take n ys =
      sym (drop_append (length (reverse ys) - n) (reverse (drop n ys)) (reverse (take n ys)) short)
      ∙ ap (drop (length (reverse ys) - n)) (sym split)
    where
      split : reverse ys ≡ reverse (drop n ys) ++ reverse (take n ys)
      split = ap reverse (sym (take-append-drop n ys)) ∙ reverse-append (take n ys) (drop n ys)

      short : length (reverse (drop n ys)) ≡ length (reverse ys) - n
      short =
          omega
            (arith, length-reverse_aux (drop n ys) [], length-reverse_aux ys [], length-drop n ys)

module _ (test : LogEntry → Bool) where
  filter-reverse_aux :
      (xs ys : List LogEntry)
      → filter test (reverse_aux xs ys) ≡ reverse_aux (filter test xs) (filter test ys)
  filter-reverse_aux [] ys = refl
  filter-reverse_aux (x ∷ xs) ys = elim (Bool-cases (test x)) [
    | inl e ↦ filter-reverse_aux xs (x ∷ ys) ∙ (rw e refl)
    | inr e ↦ filter-reverse_aux xs (x ∷ ys) ∙ (rw e refl)
  ]

  pub filter-reverse : (xs : List LogEntry) → filter test (reverse xs) ≡ reverse (filter test xs)
  filter-reverse xs = filter-reverse_aux xs []

pub filter-filter :
    (s t : LogEntry → Bool) (xs : List LogEntry)
    → filter s (filter t xs) ≡ filter (λ e. t e && s e) xs
filter-filter s t [] = refl
filter-filter s t (x ∷ xs) = elim (Bool-cases (t x)) [
  | inl e ↦ rw e (ap (λ r. if s x then x ∷ r else r) (filter-filter s t xs))
  | inr e ↦ rw e (filter-filter s t xs)
]

pub filter_same :
    (s t : LogEntry → Bool) (xs : List LogEntry)
    → ((e : LogEntry) → s e ≡ t e)
    → filter s xs ≡ filter t xs
filter_same s t xs h = ap (λ f. filter f xs) (fun_ext h)

module _ (es : List (Option LogEntry)) where
  entries_at-reverse_aux :
      (ps qs : List ℕ)
      → entries_at es (reverse_aux ps qs) ≡ reverse_aux (entries_at es ps) (entries_at es qs)
  entries_at-reverse_aux [] qs = refl
  entries_at-reverse_aux (p ∷ ps) qs = elim (Option-cases (get_or es p none)) [
    | inl e ↦ entries_at-reverse_aux ps (p ∷ qs) ∙ (rw e refl)
    | inr (x, e) ↦ entries_at-reverse_aux ps (p ∷ qs) ∙ (rw e refl)
  ]

  pub entries_at-reverse : (ps : List ℕ) → entries_at es (reverse ps) ≡ reverse (entries_at es ps)
  entries_at-reverse ps = entries_at-reverse_aux ps []

  pub entries_at-holding :
      (sd : Side) (k : Bytes) (ps : List ℕ)
      → entries_at es (holding sd k es ps) ≡ filter (λ e. str_eq k (key_of sd e)) (entries_at es ps)
  unfolding holding
  entries_at-holding sd k [] = refl
  entries_at-holding sd k (p ∷ ps) = elim (Option-cases (get_or es p none)) [
    | inl e ↦ rw e (entries_at-holding sd k ps)
    | inr (x, e) ↦ elim (Bool-cases (str_eq k (key_of sd x))) [
      | inl t ↦ rw (e, t) (rw e (ap (◌∷◌ x) (entries_at-holding sd k ps)))
      | inr t ↦ rw (e, t) (entries_at-holding sd k ps)
    ]
  ]
