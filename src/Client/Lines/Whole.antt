-- ===== src/Client/Lines/Whole.antt =====
-- A line is read whole, up to the limit, however many buffers it takes.
use mathlib.Core.List.{append_assoc, append-nil}
use mathlib.Core.Path.{subst, ap₂}
use walspool.Base.{
  ℕ, zero, suc, ◌+◌, ◌<◌, ◌≤◌, ◌≡◌, ◌≢◌, refl, sym, ap, ◌∙◌, inl, inr, true, false, ltb, leb,
  if◌then◌else◌, [], ◌∷◌, ◌++◌, Option, none, some, Bytes, length, take, drop, length-append,
  length-take, drop_past, take_past, take_append, drop_append, take_front, take-append-drop,
  take_all, All, arith, Bool-cases, if_cases, ==_iff,
}
use walspool.Client.Lines.{
  newline_at, ends_cr, strip_cr, Chunk, line, prefix, without_newline, chunk_by, read_chunk, Held,
  put_in, ReadLine, line_read, after_chunk, read_chunks, max_bytes_of, reader_size, read_line,
}

-- A line without its newline.
abbrev pub IsPlain : Bytes → Type 0
IsPlain bs = All (λ x. x ≢ 10) bs

newline_in :
    (size : ℕ) (l rest : Bytes)
    → IsPlain l
    → newline_at (take size (l ++ (10 ∷ rest)))
      ≡ (if ltb (length l) size then some (length l) else none)
unfolding newline_at
newline_in zero l rest p = ground arith
newline_in (suc n) [] rest p = ground arith
newline_in (suc n) (x ∷ l) rest (p, ps) = ground (arith, newline_in n l rest ps, p)

strip-plain : (bs : Bytes) → ends_cr bs ≡ false → strip_cr bs ≡ bs
unfolding ends_cr strip_cr
strip-plain [] h = refl
strip-plain (x ∷ []) h = rw h refl
strip-plain (x ∷ y ∷ bs) h = ap (◌∷◌ x) (strip-plain (y ∷ bs) h)

strip-ended : (bs : Bytes) → ends_cr bs ≡ true → bs ≡ strip_cr bs ++ (13 ∷ [])
unfolding ends_cr strip_cr
strip-ended [] h = absurd cc
strip-ended (x ∷ []) h = let e : x ≡ 13 = (==_iff _ _).0 h in rw e refl
strip-ended (x ∷ y ∷ bs) h = ap (◌∷◌ x) (strip-ended (y ∷ bs) h)

strip-behind : (c : Bytes) (x : ℕ) (l : Bytes) → strip_cr (c ++ (x ∷ l)) ≡ c ++ strip_cr (x ∷ l)
unfolding strip_cr
strip-behind [] x l = refl
strip-behind (y ∷ []) x l = refl
strip-behind (y ∷ z ∷ c) x l = ap (◌∷◌ y) (strip-behind (z ∷ c) x l)

-- What is held of the bytes `done` of a line.
abbrev pub held : ℕ → Bytes → Held
held max_bytes done = (take max_bytes done, ltb max_bytes (length done))

put_in-held :
    (max_bytes : ℕ) (done c : Bytes)
    → put_in max_bytes c (held max_bytes done) ≡ held max_bytes (done ++ c)
unfolding put_in
put_in-held max_bytes done c = elim (Bool-cases (ltb max_bytes (length done))) [
  | inl over ↦ rw over (λ i. (cut over i, flag over i))
  | inr under ↦
      rw (under, take_all max_bytes done (ground arith))
        (if_cases Good (ltb max_bytes (length done + length c))
          (λ o i. (sym (take_past max_bytes done c (ground arith)) i, flagged (ground arith) i))
          (λ u i. (
            sym (take_all max_bytes (done ++ c) (ground (arith, length-append done c))) i,
            unflagged (ground arith) i,
          )))
]
  where
    Good : Held → Type 0
    Good h = h ≡ held max_bytes (done ++ c)

    cut : ltb max_bytes (length done) ≡ true → take max_bytes done ≡ take max_bytes (done ++ c)
    cut h = sym (take_front max_bytes done c (ground arith))

    flagged : max_bytes < length done + length c → true ≡ ltb max_bytes (length (done ++ c))
    flagged h = ground (arith, length-append done c)

    unflagged : length done + length c ≤ max_bytes → false ≡ ltb max_bytes (length (done ++ c))
    unflagged h = ground (arith, length-append done c)

    flag : ltb max_bytes (length done) ≡ true → true ≡ ltb max_bytes (length (done ++ c))
    flag h = flagged (ground arith)

module _ (size : ℕ) (l rest : Bytes) (plain : IsPlain l) where
  abbrev bs : Bytes
  bs = l ++ (10 ∷ rest)

  -- The newline is in the buffer.
  short_line : length l < size → read_chunk size bs ≡ line (strip_cr l) rest
  unfolding read_chunk
  short_line h =
      ap (chunk_by size bs) (newline_in size l rest plain ∙ found)
      ∙ ap₂ line (ap strip_cr (take_append (length l) l (10 ∷ rest) refl)) behind
    where
      found : (if ltb (length l) size then some (length l) else none) ≡ some (length l)
      found = ground arith

      next : suc (length l) ≡ length l + 1
      next = omega arith

      behind : drop (suc (length l)) bs ≡ rest
      behind = ap (λ n. drop n bs) next ∙ drop_past l 10 rest

  -- It is not: the chunk is a start of the line.
  record Starts (c : Chunk) : Type 0 where
    pub start : Bytes
    pub more : Bytes
    pub chunk : c ≡ prefix start (more ++ (10 ∷ rest))
    pub split : start ++ more ≡ l
    pub some_bytes : 0 < length start
    pub stripped : strip_cr l ≡ start ++ strip_cr more

  module _ (long : size ≤ length l) (big : 1 < size) where
    abbrev w : Bytes
    w = take size l

    long_line : read_chunk size bs ≡ prefix (strip_cr w) (drop (length (strip_cr w)) bs)
    unfolding read_chunk without_newline
    long_line =
        ap (chunk_by size bs) (newline_in size l rest plain ∙ not_found)
        ∙ rw (full, take_front size l (10 ∷ rest) long) refl
      where
        not_found : (if ltb (length l) size then some (length l) else none) ≡ none
        not_found = ground arith

        full : leb size (length bs) ≡ true
        full = ground (arith, length-append l (10 ∷ rest))

    Starts-by :
        (start more : Bytes)
        → strip_cr w ≡ start
        → start ++ more ≡ l
        → 0 < length start
        → strip_cr l ≡ start ++ strip_cr more
        → Starts (read_chunk size bs)
    Starts-by start more e split pos s = record {
      start = start;
      more = more;
      chunk =
          long_line
          ∙ ap₂ prefix e (
              ap (λ c. drop (length c) bs) e
              ∙ ap (drop (length start))
                  (ap (λ b. b ++ (10 ∷ rest)) (sym split) ∙ append_assoc start more (10 ∷ rest))
              ∙ drop_append (length start) start (more ++ (10 ∷ rest)) refl);
      split = split;
      some_bytes = pos;
      stripped = s;
    }

    long_line-Starts : Starts (read_chunk size bs)
    unfolding strip_cr
    long_line-Starts = elim (Bool-cases (ends_cr w)) [
      | inl cr ↦
          Starts-by (strip_cr w) (13 ∷ drop size l) refl (joined cr)
            (omega (
              arith,
              length-take size l,
              ap length (strip-ended w cr),
              length-append (strip_cr w) (13 ∷ []),
            ))
            (ap strip_cr (sym (joined cr)) ∙ strip-behind (strip_cr w) 13 (drop size l))
      | inr as_is ↦
          Starts-by w (drop size l) (strip-plain w as_is) (take-append-drop size l)
            (omega (arith, length-take size l))
            (unstripped as_is (drop size l) (take-append-drop size l))
    ]
      where
        joined : ends_cr w ≡ true → strip_cr w ++ (13 ∷ drop size l) ≡ l
        joined cr =
            sym (append_assoc (strip_cr w) (13 ∷ []) (drop size l))
            ∙ ap (λ b. b ++ drop size l) (sym (strip-ended w cr))
            ∙ take-append-drop size l

        unstripped :
            ends_cr w ≡ false → (more : Bytes) → w ++ more ≡ l → strip_cr l ≡ w ++ strip_cr more
        unstripped no_cr [] e =
            ap strip_cr (sym e ∙ append-nil w) ∙ strip-plain w no_cr ∙ sym (append-nil w)
        unstripped no_cr (x ∷ more) e = ap strip_cr (sym e) ∙ strip-behind w x more

IsPlain-behind : (a b l : Bytes) → a ++ b ≡ l → IsPlain l → IsPlain b
IsPlain-behind a b l e p = behind a (subst IsPlain (sym e) p)
  where
    behind : (a : Bytes) → IsPlain (a ++ b) → IsPlain b
    behind [] q = q
    behind (x ∷ a) q = behind a q.1

read_chunks-held :
    (n size max_bytes : ℕ) (l rest done : Bytes)
    → IsPlain l
    → 1 < size
    → length l < n
    → read_chunks n size max_bytes (l ++ (10 ∷ rest)) (held max_bytes done)
      ≡ some (line_read (held max_bytes (done ++ strip_cr l)) false rest)
unfolding read_chunks
read_chunks-held zero size max_bytes l rest done p big f = absurd (omega arith)
read_chunks-held (suc n) size max_bytes l rest done p big f =
    elim (Bool-cases (ltb (length l) size)) [
      | inl short ↦
          ap (after_chunk max_bytes go (held max_bytes done))
            (short_line size l rest p (ground arith))
          ∙ ap (λ h. some (line_read h false rest)) (put_in-held max_bytes done (strip_cr l))
      | inr long ↦
          let s = long_line-Starts size l rest p (ground arith) big in
          ap (after_chunk max_bytes go (held max_bytes done)) s.chunk
          ∙ ap (read_chunks n size max_bytes (s.more ++ (10 ∷ rest)))
              (put_in-held max_bytes done s.start)
          ∙ read_chunks-held n size max_bytes s.more rest (done ++ s.start)
              (IsPlain-behind s.start s.more l s.split p) big
              (omega (arith, s.some_bytes, ap length s.split, length-append s.start s.more))
          ∙ ap (λ b. some (line_read (held max_bytes b) false rest))
              (append_assoc done s.start (strip_cr s.more) ∙ ap (λ b. done ++ b) (sym s.stripped))
    ]
  where
    go : Bytes → Held → Option ReadLine
    go left g = read_chunks n size max_bytes left g

held_nothing : (max_bytes : ℕ) → ([], false) ≡ held max_bytes []
held_nothing zero i = ([], false)
held_nothing (suc n) i = ([], flag i)
  where
    flag : false ≡ ltb (suc n) 0
    flag = ground arith

-- Of a stream that starts with a line and its newline, ReadLine gives the line without its line
-- ending, up to the limit, however many buffers it takes: it says whether it cut the line, and
-- leaves the bytes behind the newline.
pub read_line_lem :
    (max_bytes : ℕ) (l rest : Bytes)
    → IsPlain l
    → read_line max_bytes (l ++ (10 ∷ rest))
      ≡ some (record {
        bytes = take (max_bytes_of max_bytes) (strip_cr l);
        truncated = ltb (max_bytes_of max_bytes) (length (strip_cr l));
        at_end = false;
        left = rest;
      })
unfolding read_line
read_line_lem max_bytes l rest p =
    ap
      (read_chunks (length (l ++ (10 ∷ rest)) + 1) reader_size (max_bytes_of max_bytes)
        (l ++ (10 ∷ rest)))
      (held_nothing (max_bytes_of max_bytes))
    ∙ read_chunks-held (length (l ++ (10 ∷ rest)) + 1) reader_size (max_bytes_of max_bytes) l rest
        [] p (omega arith) (omega (arith, length-append l (10 ∷ rest)))
