-- ===== src/Storage/Writer/Calls.antt =====
-- A flush that succeeds, calls in sequence, and a whole write.
use mathlib.Core.List.{append_assoc, append-nil}
use walspool.Base.{
  ℕ, ◌-◌, ◌≡◌, refl, sym, ap, ◌∙◌, inl, inr, true, false, ◌==◌, leb, [], ◌∷◌, ◌++◌, some, Bytes,
  length, take, drop, take-append-drop, arith, Bool-cases, if_cases,
}
use walspool.Storage.Files.{Dir}
use walspool.Storage.State.{Handle, Call, fill, Faults}
use walspool.Storage.Writer.{
  Outcome, os_write, after_flush, flush_buffer, flush_buffered, after_fill, write,
}
use walspool.Storage.Writer.Moves.{
  IsAtEnd, Moves, unmoved, flush_buffer-Moves, write_through-Moves, write_rest-Moves,
}

pub empty_of : (b : Bytes) → (length b == 0) ≡ true → b ≡ []
empty_of [] h = refl
empty_of (x ∷ b) h = absurd (ground arith)

abbrev pub Empties : Outcome → Type 0
Empties o = o.0 ≡ true → o.1.buffer ≡ []

-- A flush that succeeds leaves the buffer empty.
pub flush_buffer-Empties :
    (fl : Faults) (c : Call) (h : Handle) (d : Dir) → Empties (flush_buffer fl c h d)
unfolding flush_buffer after_flush os_write
flush_buffer-Empties fl c h d =
    if_cases Empties h.write_err (λ f good. absurd cc)
      (λ f.
        if_cases Empties (length h.buffer == 0) (λ z good. empty_of h.buffer z)
          (λ z. elim (Bool-cases (fl.fails c)) [
            | inl x ↦ rw x (λ good. absurd cc)
            | inr x ↦ rw x (λ good. refl)
          ]))

pub flush_buffered-Empties :
    (fl : Faults) (c : Call) (h : Handle) (d : Dir) → Empties (flush_buffered fl c h d)
unfolding flush_buffered
flush_buffered-Empties fl c h d =
    if_cases Empties (length h.buffer == 0) (λ z good. empty_of h.buffer z)
      (λ z. flush_buffer-Empties fl c h d)

module _ (file bytes : Bytes) (h h1 : Handle) (d : Dir) (x : Bytes) (o : Outcome)
    (m : Moves file x h1 d o) (same : h1.name ≡ h.name) where
  -- The handle after a call that went well.
  next-IsAtEnd : o.0 ≡ true → IsAtEnd (file ++ m.gone) o.1 o.2
  next-IsAtEnd good = record {
    there = rw (m.name_kept) (m.here);
    at_end = m.at_end;
    sound = (m.whole good).1;
  }

  -- A call that failed, whose remaining bytes `y` were not tried.
  failed :
      (y : Bytes)
      → (h1.buffer ++ x) ++ y ≡ h.buffer ++ bytes
      → Moves file bytes h d (false, o.1, o.2)
  failed y e = record {
    gone = m.gone;
    left = m.left ++ y;
    split = sym (append_assoc m.gone m.left y) ∙ ap (λ b. b ++ y) m.split ∙ e;
    name_kept = m.name_kept ∙ same;
    at_end = m.at_end;
    here = rw same at m.here;
    others = λ n ne. m.others n (rw same ne);
    whole = λ b. absurd cc;
  }

  -- Two calls, one behind the other.
  pub both :
      (y : Bytes) (o' : Outcome)
      → o.0 ≡ true
      → Moves (file ++ m.gone) y o.1 o.2 o'
      → (h1.buffer ++ x) ++ y ≡ h.buffer ++ bytes
      → Moves file bytes h d o'
  both y o' good m' e = record {
    gone = m.gone ++ m'.gone;
    left = m'.left;
    split =
        append_assoc m.gone m'.gone m'.left
        ∙ ap (λ b. m.gone ++ b) (m'.split ∙ ap (λ b. b ++ y) (m.whole good).0)
        ∙ sym (append_assoc m.gone m.left y)
        ∙ ap (λ b. b ++ y) m.split
        ∙ e;
    name_kept = m'.name_kept ∙ m.name_kept ∙ same;
    at_end = m'.at_end ∙ ap length (append_assoc file m.gone m'.gone);
    here = (rw (m.name_kept ∙ same) at m'.here) ∙ ap some (append_assoc file m.gone m'.gone);
    others = λ n ne. m'.others n (rw (m.name_kept ∙ same) ne) ∙ m.others n (rw same ne);
    whole = m'.whole;
  }

module _ (fl : Faults) (file : Bytes) where
  -- A write, with a buffer of any size, whether its calls succeed or fail.
  pub write-Moves :
      (size : ℕ) (bytes : Bytes) (h : Handle) (d : Dir)
      → IsAtEnd file h d
      → Moves file bytes h d (write fl size bytes h d)
  unfolding write after_fill
  write-Moves size bytes h d e =
      if_cases P h.write_err (λ f. absurd (cc (f, e.sound)))
        (λ f.
          if_cases P (leb (length bytes) room)
            (λ z. unmoved file h d e fl bytes _ refl refl true (λ b. (refl, e.sound)))
            (λ z.
              if_cases P (length h.buffer == 0)
                (λ y. write_through-Moves file h d e fl bytes (empty_of h.buffer y))
                (λ y.
                  filled (flush_buffer fl fill h1 d) (flush_buffer-Empties fl fill h1 d)
                    (flush_buffer-Moves file h1 d e1 fl fill))))
    where
      room : ℕ
      room = size - length h.buffer

      P : Outcome → Type 0
      P o = Moves file bytes h d o

      h1 : Handle
      h1 = record h { buffer = h.buffer ++ take room bytes }

      e1 : IsAtEnd file h1 d
      e1 = record { there = e.there; at_end = e.at_end; sound = e.sound }

      seam : (h1.buffer ++ []) ++ drop room bytes ≡ h.buffer ++ bytes
      seam =
          ap (λ b. b ++ drop room bytes) (append-nil h1.buffer)
          ∙ append_assoc h.buffer (take room bytes) (drop room bytes)
          ∙ ap (λ b. h.buffer ++ b) (take-append-drop room bytes)

      filled :
          (o : Outcome)
          → Empties o
          → Moves file [] h1 d o
          → P (after_fill fl size (drop room bytes) o)
      filled (true, h', d') em m =
          both file bytes h h1 d [] (true, h', d') m refl (drop room bytes) _ refl
            (write_rest-Moves _ h' d' (next-IsAtEnd file bytes h h1 d [] (true, h', d') m refl refl)
              fl size (drop room bytes) (em refl))
            seam
      filled (false, h', d') em m =
          failed file bytes h h1 d [] (false, h', d') m refl (drop room bytes) seam
