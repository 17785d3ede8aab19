-- ===== src/Client/Sanitize/Decoding.antt =====
-- What is decoded: a scalar value, and fewer bytes.
use walspool.Base.{
  ℕ, suc, ◌+◌, ◌%◌, ◌*◌, ◌⊎◌, inl, inr, ◌<◌, ◌≤◌, ◌≡◌, refl, Bool, true, not, ◌&&◌, ◌||◌, ◌==◌, ltb,
  [], ◌∷◌, Bytes, length, arith, if_cases, Bool-cases,
}
use walspool.Client.Sanitize.{is_in, decode_two, decode_three, decode_four, decode_rune}

-- A Unicode scalar value, which UTF-8 can encode.
abbrev pub is_scalar : ℕ → Bool
is_scalar r = not (is_in 55296 57343 r || ltb 1114111 r)

pub decode_rune_shorter : (a : ℕ) (bs : Bytes) → length (decode_rune a bs).1 ≤ length bs
unfolding decode_rune
decode_rune_shorter a bs =
    if_cases P (ltb a 128) (λ h. omega arith)
      (λ h.
        if_cases P (is_in 194 223 a) (λ h. two bs)
          (λ h.
            if_cases P (a == 224) (λ h. three 160 191 bs)
              (λ h.
                if_cases P (a == 237) (λ h. three 128 159 bs)
                  (λ h.
                    if_cases P (is_in 225 239 a) (λ h. three 128 191 bs)
                      (λ h.
                        if_cases P (a == 240) (λ h. four 144 191 bs)
                          (λ h.
                            if_cases P (is_in 241 243 a) (λ h. four 128 191 bs)
                              (λ h.
                                if_cases P (a == 244) (λ h. four 128 143 bs)
                                  (λ h. omega arith))))))))
  where
    Leaves : ℕ → ℕ × Bytes → Type 0
    Leaves n d = length d.1 ≤ n

    P : ℕ × Bytes → Type 0
    P = Leaves (length bs)

    two : (bs : Bytes) → length (decode_two a bs).1 ≤ length bs
    two [] = omega arith
    two (b ∷ bs) =
        if_cases (Leaves (suc (length bs))) (is_in 128 191 b) (λ h. omega arith) (λ h. omega arith)

    three : (low high : ℕ) (bs : Bytes) → length (decode_three low high a bs).1 ≤ length bs
    three low high [] = omega arith
    three low high (b ∷ []) = omega arith
    three low high (b ∷ c ∷ bs) =
        if_cases (Leaves (suc (suc (length bs)))) (is_in low high b && is_in 128 191 c)
          (λ h. omega arith) (λ h. omega arith)

    four : (low high : ℕ) (bs : Bytes) → length (decode_four low high a bs).1 ≤ length bs
    four low high [] = omega arith
    four low high (b ∷ []) = omega arith
    four low high (b ∷ c ∷ []) = omega arith
    four low high (b ∷ c ∷ d ∷ bs) =
        if_cases (Leaves (suc (suc (suc (length bs)))))
          (is_in low high b && (is_in 128 191 c && is_in 128 191 d)) (λ h. omega arith)
          (λ h. omega arith)

-- What is decoded of any bytes is a scalar value.
pub decode_rune-scalar : (a : ℕ) (bs : Bytes) → is_scalar (decode_rune a bs).0 ≡ true
unfolding decode_rune
decode_rune-scalar a bs =
    if_cases Scalar (ltb a 128) (λ h. ground arith)
      (λ h.
        if_cases Scalar (is_in 194 223 a) (λ h. two bs)
          (λ h.
            if_cases Scalar (a == 224) (λ h. three 160 191 bs (λ b k. inl (ground arith)))
              (λ h.
                if_cases Scalar (a == 237) (λ h. three 128 159 bs (λ b k. inl (ground arith)))
                  (λ not_d.
                    if_cases Scalar (is_in 225 239 a)
                      (λ h. three 128 191 bs (λ b k. elim (Bool-cases (ltb a 237)) [
                        | inl lt ↦ inl (ground arith)
                        | inr ge ↦ inr (ground arith, ground arith)
                      ]))
                      (λ h.
                        if_cases Scalar (a == 240)
                          (λ h. four 144 191 bs (λ b k. (ground arith, ground arith)))
                          (λ h.
                            if_cases Scalar (is_in 241 243 a)
                              (λ h. four 128 191 bs (λ b k. (ground arith, ground arith)))
                              (λ h.
                                if_cases Scalar (a == 244)
                                  (λ h. four 128 143 bs (λ b k. (ground arith, ground arith)))
                                  (λ h. refl))))))))
  where
    Scalar : ℕ × Bytes → Type 0
    Scalar d = is_scalar d.0 ≡ true

    two : (bs : Bytes) → Scalar (decode_two a bs)
    two [] = refl
    two (b ∷ bs) = if_cases Scalar (is_in 128 191 b) (λ h. ground arith) (λ h. refl)

    three :
        (low high : ℕ) (bs : Bytes)
        → ((b : ℕ)
            → is_in low high b ≡ true
            → (a % 16 * 4096 + b % 64 * 64 < 55296)
              ⊎ ((57343 < a % 16 * 4096) × (a % 16 * 4096 < 65536)))
        → Scalar (decode_three low high a bs)
    three low high [] s = refl
    three low high (b ∷ []) s = refl
    three low high (b ∷ c ∷ bs) s =
        if_cases Scalar (is_in low high b && is_in 128 191 c)
          (λ h. elim (s b (ground arith)) [
            | inl low_part ↦ ground arith
            | inr (high_part, small) ↦ ground arith
          ])
          (λ h. refl)

    four :
        (low high : ℕ) (bs : Bytes)
        → ((b : ℕ)
            → is_in low high b ≡ true
            → (65536 ≤ a % 8 * 262144 + b % 64 * 4096) × (a % 8 * 262144 + b % 64 * 4096 < 1114112))
        → Scalar (decode_four low high a bs)
    four low high [] s = refl
    four low high (b ∷ []) s = refl
    four low high (b ∷ c ∷ []) s = refl
    four low high (b ∷ c ∷ d ∷ bs) s =
        if_cases Scalar (is_in low high b && (is_in 128 191 c && is_in 128 191 d))
          (λ h. let (big, small) = s b (ground arith) in ground arith) (λ h. refl)
