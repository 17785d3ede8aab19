-- ===== src/Storage/Writer/Moves.antt =====
-- What the calls of a bufio.Writer do to its file, whether they succeed or fail.
use mathlib.Core.List.{append-nil}
use walspool.Base.{
  ℕ, ◌+◌, ◌-◌, ◌≡◌, refl, sym, ap, ◌∙◌, inl, inr, Bool, true, false, ◌==◌, leb, if◌then◌else◌, [],
  ◌++◌, some, Bytes, length, length-append, take, drop, take_all, drop_all, take-append-drop, arith,
  Bool-cases, if_cases,
}
use walspool.Storage.Files.{
  Dir, get, put, written, resized, name_eq, name_eq_refl, get-put, FileName, or_empty,
}
use walspool.Storage.State.{Handle, Call, through, Faults}
use walspool.Storage.Writer.{
  Outcome, os_write, after_flush, flush_buffer, flush_buffered, write_through, write_rest,
}

-- The handle stands at the end of its file, and no write has failed.
pub record IsAtEnd (file : Bytes) (h : Handle) (d : Dir) : Type 0 where
  pub there : get h.name d ≡ some file
  pub at_end : h.pos ≡ length file
  pub sound : h.write_err ≡ false

-- A call that was given `bytes` has moved the bytes `gone` to the end of the file, which come
-- first of those that were buffered and given; no other file is changed. Where it succeeds, the
-- others are in the buffer.
pub record Moves (file bytes : Bytes) (h : Handle) (d : Dir) (o : Outcome) : Type 0 where
  pub gone : Bytes
  pub left : Bytes
  pub split : gone ++ left ≡ h.buffer ++ bytes
  pub name_kept : o.1.name ≡ h.name
  pub at_end : o.1.pos ≡ length (file ++ gone)
  pub here : get h.name o.2 ≡ some (file ++ gone)
  pub others : (n : FileName) → name_eq h.name n ≡ false → get n o.2 ≡ get n d
  pub whole : o.0 ≡ true → (o.1.buffer ≡ left) × (o.1.write_err ≡ false)

written_end : (file part : Bytes) → written (length file) part file ≡ file ++ part
unfolding written resized
written_end file part =
    let none_left : length file - length file ≡ 0 = omega arith in
    rw
      (
        take_all (length file) file (omega arith),
        drop_all (length file + length part) file (omega arith),
        none_left,
        append-nil file,
        append-nil part,
      )
      refl

-- What a write of `bytes` puts into the file.
abbrev part_of : Faults → Call → Bytes → Bytes
part_of fl c bytes = if fl.fails c then take fl.wrote bytes else bytes

abbrev after : Faults → Call → Bytes → Bytes → Handle → Dir → Outcome
after fl c file bytes h d = (
  if fl.fails c then false else true,
  record h { pos = length file + length (part_of fl c bytes) },
  put h.name (file ++ part_of fl c bytes) d,
)

module _ (file : Bytes) (h : Handle) (d : Dir) (e : IsAtEnd file h d) (fl : Faults) where
  os_write_lem : (c : Call) (bytes : Bytes) → os_write fl c bytes h d ≡ after fl c file bytes h d
  unfolding os_write
  os_write_lem c bytes =
      rw (ap or_empty e.there, e.at_end, written_end file (part_of fl c bytes)) refl

  -- The bytes that are there after a write of `bytes`, when no others are.
  put_here : (b : Bytes) → get h.name (put h.name b d) ≡ some b
  put_here b = rw (get-put h.name h.name b d, name_eq_refl h.name) refl

  put_others :
      (b : Bytes) (n : FileName) → name_eq h.name n ≡ false → get n (put h.name b d) ≡ get n d
  put_others b n ne = rw (get-put h.name n b d, ne) refl

  -- Nothing reaches the file.
  pub unmoved :
      (bytes : Bytes) (h' : Handle)
      → h'.name ≡ h.name
      → h'.pos ≡ h.pos
      → (b : Bool) → (b ≡ true → (h'.buffer ≡ h.buffer ++ bytes) × (h'.write_err ≡ false))
      → Moves file bytes h d (b, h', d)
  unmoved bytes h' n p b w = record {
    gone = [];
    left = h.buffer ++ bytes;
    split = refl;
    name_kept = n;
    at_end = p ∙ e.at_end ∙ ap length (sym (append-nil file));
    here = e.there ∙ ap some (sym (append-nil file));
    others = λ m ne. refl;
    whole = w;
  }

  -- The bytes `gone` reach it.
  lands :
      (bytes gone left : Bytes) (h' : Handle) (b : Bool)
      → gone ++ left ≡ h.buffer ++ bytes
      → h'.name ≡ h.name
      → h'.pos ≡ length file + length gone
      → (b ≡ true → (h'.buffer ≡ left) × (h'.write_err ≡ false))
      → Moves file bytes h d (b, h', put h.name (file ++ gone) d)
  lands bytes gone left h' b s n p w = record {
    gone = gone;
    left = left;
    split = s;
    name_kept = n;
    at_end = omega (arith, p, length-append file gone);
    here = put_here (file ++ gone);
    others = put_others (file ++ gone);
    whole = w;
  }

  after_flush-Moves : (c : Call) → Moves file [] h d (after_flush fl (after fl c file h.buffer h d))
  unfolding after_flush
  after_flush-Moves c = elim (Bool-cases (fl.fails c)) [
    | inl f ↦ rw f (
        lands [] (take fl.wrote h.buffer) (drop fl.wrote h.buffer) _ false
          (take-append-drop fl.wrote h.buffer ∙ sym (append-nil h.buffer)) refl refl
          (λ b. absurd cc))
    | inr f ↦ rw f (lands [] h.buffer [] _ true refl refl refl (λ b. (refl, e.sound)))
  ]

  pub flush_buffer-Moves : (c : Call) → Moves file [] h d (flush_buffer fl c h d)
  unfolding flush_buffer
  flush_buffer-Moves c = simp (e.sound) (
      if_cases (Moves file [] h d) (length h.buffer == 0)
        (λ z. unmoved [] h refl refl true (λ b. (sym (append-nil h.buffer), e.sound)))
        (λ z. rw (os_write_lem c h.buffer) (after_flush-Moves c)))

  pub flush_buffered-Moves : (c : Call) → Moves file [] h d (flush_buffered fl c h d)
  unfolding flush_buffered
  flush_buffered-Moves c =
      if_cases (Moves file [] h d) (length h.buffer == 0)
        (λ z. unmoved [] h refl refl true (λ b. (sym (append-nil h.buffer), e.sound)))
        (λ z. flush_buffer-Moves c)

  pub write_through-Moves :
      (bytes : Bytes) → h.buffer ≡ [] → Moves file bytes h d (write_through fl bytes h d)
  unfolding write_through
  write_through-Moves bytes empty =
      rw (os_write_lem through bytes) (elim (Bool-cases (fl.fails through)) [
        | inl f ↦ rw f (
            lands bytes (take fl.wrote bytes) (drop fl.wrote bytes) _ false
              (rw empty (take-append-drop fl.wrote bytes)) refl refl (λ b. absurd cc))
        | inr f ↦ rw f (
            lands bytes bytes [] _ true (rw empty (append-nil bytes)) refl refl
              (λ b. (empty, e.sound)))
      ])

  pub write_rest-Moves :
      (size : ℕ) (bytes : Bytes)
      → h.buffer ≡ []
      → Moves file bytes h d (write_rest fl size bytes h d)
  unfolding write_rest
  write_rest-Moves size bytes empty =
      if_cases (Moves file bytes h d) (leb (length bytes) size)
        (λ z. unmoved bytes _ refl refl true (λ b. (rw empty refl, e.sound)))
        (λ z. write_through-Moves bytes empty)
