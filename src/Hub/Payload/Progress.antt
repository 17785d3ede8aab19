-- ===== src/Hub/Payload/Progress.antt =====
-- Every round of the scanner consumes input, so that its fuel is enough.
use walspool.Base.{
  ℕ, zero, suc, ◌+◌, ◌-◌, ◌<◌, ◌≤◌, ◌≡◌, refl, Bool, true, false, ◌==◌, [], ◌∷◌, ◌++◌, Option, none,
  some, Bytes, length, arith, if_cases,
}
use walspool.Hub.Payload.{
  Codec, skip_ws, skip_scalar, Scanned, scan_from, scan_string, opens, closes, Skip, at, malformed,
  exhausted, skip_container, Meta, Next, stop, more, starved, skip_comma, go_on, after_container,
  after_string, scan_value, after_colon, after_key, scan_key, scan_loop,
}

length-skip_ws : (s : Bytes) → length (skip_ws s) ≤ length s
unfolding skip_ws
length-skip_ws [] = omega arith
length-skip_ws (c ∷ s) = ground (arith, length-skip_ws s)

length-skip_scalar : (s : Bytes) → length (skip_scalar s) ≤ length s
unfolding skip_scalar
length-skip_scalar [] = omega arith
length-skip_scalar (c ∷ s) = ground (arith, length-skip_scalar s)

-- Where a string is found, what follows is shorter than `n`.
abbrev Leaves : ℕ → Option Scanned → Type 0
Leaves n none = Unit {0}
Leaves n (some v) = length v.rest < n

weaker : (m n : ℕ) (o : Option Scanned) → m ≤ n → Leaves m o → Leaves n o
weaker m n none h l = tt
weaker m n (some v) h l = omega (arith, l)

scan_from-Leaves :
    (seen : Bytes) (esc : Bool) (s : Bytes) → Leaves (length s) (scan_from seen esc s)
unfolding scan_from
scan_from-Leaves seen esc [] = tt
scan_from-Leaves seen esc (c ∷ []) = if_cases (Leaves 1) (c == b'"') (λ h. omega arith) (λ h. tt)
scan_from-Leaves seen esc (c ∷ d ∷ s) =
    if_cases (Leaves (length (c ∷ d ∷ s))) (c == 92)
      (λ h.
        weaker (length s) _ (scan_from (seen ++ (c ∷ d ∷ [])) true s) (omega arith)
          (scan_from-Leaves (seen ++ (c ∷ d ∷ [])) true s))
      (λ h.
        if_cases (Leaves (length (c ∷ d ∷ s))) (c == b'"') (λ k. omega arith)
          (λ k.
            weaker (length (d ∷ s)) _ (scan_from (seen ++ (c ∷ [])) esc (d ∷ s)) (omega arith)
              (scan_from-Leaves (seen ++ (c ∷ [])) esc (d ∷ s))))

scan_string-Leaves : (c : ℕ) (s : Bytes) → Leaves (length s) (scan_string (c ∷ s))
unfolding scan_string
scan_string-Leaves c s = scan_from-Leaves [] false s

-- A container ends short of its input, and never for want of fuel.
abbrev Ends : ℕ → Skip → Type 0
Ends n (at s) = length s < n
Ends n malformed = Unit {0}
Ends n exhausted = ⊥

weaker_end : (m n : ℕ) (o : Skip) → m ≤ n → Ends m o → Ends n o
weaker_end m n (at s) h l = omega (arith, l)
weaker_end m n malformed h l = tt
weaker_end m n exhausted h l = l

skip_container-Ends :
    (f depth : ℕ) (s : Bytes) → length s < f → Ends (length s) (skip_container f depth s)
unfolding skip_container
skip_container-Ends zero depth s h = absurd (omega arith)
skip_container-Ends (suc f) depth [] h = tt
skip_container-Ends (suc f) depth (c ∷ s) h =
    if_cases (Ends (length (c ∷ s))) (c == b'"')
      (λ a.
        quoted (scan_string (c ∷ s)) (scan_string-Leaves c s)
          (λ t l. skip_container-Ends f depth t l))
      (λ a.
        if_cases (Ends (length (c ∷ s))) (opens c)
          (λ b. longer (depth + 1) (skip_container-Ends f (depth + 1) s (omega arith)))
          (λ b.
            if_cases (Ends (length (c ∷ s))) (closes c)
              (λ e.
                if_cases (Ends (length (c ∷ s))) (depth - 1 == 0) (λ z. omega arith)
                  (λ z. longer (depth - 1) (skip_container-Ends f (depth - 1) s (omega arith))))
              (λ e. longer depth (skip_container-Ends f depth s (omega arith)))))
  where
    longer :
        (k : ℕ)
        → Ends (length s) (skip_container f k s)
        → Ends (length (c ∷ s)) (skip_container f k s)
    longer k l = weaker_end (length s) (length (c ∷ s)) (skip_container f k s) (omega arith) l

    quoted :
        (o : Option Scanned)
        → Leaves (length s) o
        → ((t : Bytes) → length t < f → Ends (length t) (skip_container f depth t))
        → Ends
            (length (c ∷ s))
            (elim o [ none ↦ malformed | some v ↦ skip_container f depth v.rest ])
    quoted none l ih = tt
    quoted (some v) l ih =
        weaker_end (length v.rest) (length (c ∷ s)) (skip_container f depth v.rest)
          (omega (arith, l)) (ih v.rest (omega (arith, l, h)))

length-skip_comma : (s : Bytes) → length (skip_comma s) ≤ length s
unfolding skip_comma
length-skip_comma [] = omega arith
length-skip_comma (c ∷ s) = ground arith

-- A round leaves less than `n` bytes, or ends the loop.
abbrev Advances : ℕ → Next → Type 0
Advances n (stop m) = Unit {0}
Advances n (more s m) = length s < n
Advances n starved = ⊥

go_on-Advances : (n : ℕ) (s : Bytes) (m : Meta) → length s < n → Advances n (go_on s m)
unfolding go_on
go_on-Advances n s m h = omega (arith, h, length-skip_comma (skip_ws s), length-skip_ws s)

after_container-Advances :
    (n : ℕ) (o : Skip) (m : Meta) → Ends n o → Advances n (after_container o m)
unfolding after_container
after_container-Advances n (at s) m h = go_on-Advances n s m h
after_container-Advances n malformed m h = tt
after_container-Advances n exhausted m h = h

module _ (codec : Codec) where
  after_string-Advances :
      (n : ℕ) (key : Bytes) (o : Option Scanned) (m : Meta)
      → Leaves n o
      → Advances n (after_string codec key o m)
  unfolding after_string
  after_string-Advances n key none m h = tt
  after_string-Advances n key (some v) m h = go_on-Advances n v.rest _ h

  scan_value-Advances :
      (n : ℕ) (key s : Bytes) (m : Meta) → length s < n → Advances n (scan_value codec key s m)
  unfolding scan_value
  scan_value-Advances n key [] m h = tt
  scan_value-Advances n key (c ∷ s) m h =
      if_cases (Advances n) (c == b'"')
        (λ a.
          after_string-Advances n key (scan_string (c ∷ s)) m
            (weaker (length s) n (scan_string (c ∷ s)) (omega (arith, h)) (scan_string-Leaves c s)))
        (λ a.
          if_cases (Advances n) (opens c)
            (λ b. after_container-Advances n (skip_container (length (c ∷ s) + 1) 0 (c ∷ s)) m (
              weaker_end (length (c ∷ s)) n (skip_container (length (c ∷ s) + 1) 0 (c ∷ s))
                (omega (arith, h))
                (skip_container-Ends (length (c ∷ s) + 1) 0 (c ∷ s) (omega arith))))
            (λ b.
              go_on-Advances n (skip_scalar (c ∷ s)) m
                (omega (arith, h, length-skip_scalar (c ∷ s)))))

  after_colon-Advances :
      (n : ℕ) (key s : Bytes) (m : Meta) → length s < n → Advances n (after_colon codec key s m)
  unfolding after_colon
  after_colon-Advances n key [] m h = tt
  after_colon-Advances n key (c ∷ s) m h =
      if_cases (Advances n) (c == b':')
        (λ a. scan_value-Advances n key (skip_ws s) m (omega (arith, h, length-skip_ws s)))
        (λ a. tt)

  after_key-Advances :
      (n : ℕ) (o : Option Scanned) (m : Meta) → Leaves n o → Advances n (after_key codec o m)
  unfolding after_key
  after_key-Advances n none m h = tt
  after_key-Advances n (some k) m h =
      after_colon-Advances n k.content (skip_ws k.rest) m (omega (arith, h, length-skip_ws k.rest))

  scan_key-Advances : (s : Bytes) (m : Meta) → Advances (length s) (scan_key codec s m)
  unfolding scan_key
  scan_key-Advances [] m = tt
  scan_key-Advances (c ∷ s) m =
      if_cases (Advances (length (c ∷ s))) (c == b'"')
        (λ a. after_key-Advances (length (c ∷ s)) (scan_string (c ∷ s)) m (
          weaker (length s) (length (c ∷ s)) (scan_string (c ∷ s)) (omega arith)
            (scan_string-Leaves c s)))
        (λ a. tt)

  pub scan_loop_ends :
      (f : ℕ) (s : Bytes) (m : Meta)
      → length s < f
      → (m' : Meta) × (scan_loop codec f s m ≡ some m')
  unfolding scan_loop
  scan_loop_ends zero s m h = absurd (omega arith)
  scan_loop_ends (suc f) s m h =
      ended (scan_key codec (skip_ws s) m) (scan_key-Advances (skip_ws s) m)
        (λ t k l. scan_loop_ends f t k (omega (arith, l, h, length-skip_ws s)))
    where
      ended :
          (x : Next)
          → Advances (length (skip_ws s)) x
          → ((t : Bytes) (k : Meta)
              → length t < length (skip_ws s)
              → (m' : Meta) × (scan_loop codec f t k ≡ some m'))
          → (m' : Meta) × ((elim x [
            | stop m' ↦ some m'
            | more s' m' ↦ scan_loop codec f s' m'
            | starved ↦ none
          ])
              ≡ some m')
      ended (stop k) a ih = (k, refl)
      ended (more t k) a ih = ih t k a
      ended starved a ih = absurd a
