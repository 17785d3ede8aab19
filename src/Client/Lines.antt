-- ===== src/Client/Lines.antt =====
-- cmd/walspool/security.go: BoundedLineReader, over a bufio.Reader whose buffer has `size` bytes. A
-- stream is the bytes that are still to be read before its end.
pub mod Whole
use walspool.Base.{
  ℕ, zero, suc, ◌+◌, ◌*◌, ◌-◌, Bool, true, false, ◌==◌, ltb, leb, if◌then◌else◌, List, [], ◌∷◌,
  ◌++◌, Option, none, some, Bytes, length, take, drop, sle, map,
}

-- Where the first newline stands.
unfoldable pub newline_at : Bytes → Option ℕ
newline_at [] = none
newline_at (x ∷ bs) =
    let later = newline_at bs in
    if x == 10 then some 0 else elim later [ none ↦ none | some n ↦ some (suc n) ]

unfoldable pub ends_cr : Bytes → Bool
ends_cr [] = false
ends_cr (x ∷ []) = x == 13
ends_cr (x ∷ y ∷ bs) = ends_cr (y ∷ bs)

-- Without a carriage return at the end.
unfoldable pub strip_cr : Bytes → Bytes
strip_cr [] = []
strip_cr (x ∷ []) = if x == 13 then [] else x ∷ []
strip_cr (x ∷ y ∷ bs) = x ∷ strip_cr (y ∷ bs)

-- What `bufio.Reader.ReadLine` returns: a line, or the start of one that is longer than the
-- buffer, or the end of the stream; each with what is left.
pub data Chunk : Type 0 where
  line : Bytes → Bytes → Chunk
  prefix : Bytes → Bytes → Chunk
  end : Chunk

-- With no newline in the buffer: it is full, or the stream ends.
unfoldable pub without_newline : ℕ → Bytes → Chunk
without_newline size bs =
    let start = strip_cr (take size bs) in
    if leb size (length bs)
    then prefix start (drop (length start) bs)
    else if length bs == 0
    then end
    else line bs []

abbrev pub chunk_by : ℕ → Bytes → Option ℕ → Chunk
chunk_by size bs none = without_newline size bs
chunk_by size bs (some n) = line (strip_cr (take n bs)) (drop (suc n) bs)

unfoldable pub read_chunk : ℕ → Bytes → Chunk
read_chunk size bs = chunk_by size bs (newline_at (take size bs))

-- The buffer of the line and whether it was cut.
abbrev pub Held : Type 0
Held = Bytes × Bool

-- A chunk goes in as far as the limit allows.
unfoldable pub put_in : ℕ → Bytes → Held → Held
put_in max_bytes chunk (buf, truncated) =
    if truncated
    then (buf, truncated)
    else if ltb max_bytes (length buf + length chunk)
    then (buf ++ take (max_bytes - length buf) chunk, true)
    else (buf ++ chunk, false)

-- A line read, and whether the stream ended in it, with what is left.
pub record ReadLine : Type 0 where
  pub bytes : Bytes
  pub truncated : Bool
  pub at_end : Bool
  pub left : Bytes

abbrev pub line_read : Held → Bool → Bytes → ReadLine
line_read (buf, truncated) at_end left = record {
  bytes = buf;
  truncated = truncated;
  at_end = at_end;
  left = left;
}

abbrev pub after_chunk : ℕ → (Bytes → Held → Option ReadLine) → Held → Chunk → Option ReadLine
after_chunk max_bytes rest h end = some (line_read h true [])
after_chunk max_bytes rest h (line c left) = some (line_read (put_in max_bytes c h) false left)
after_chunk max_bytes rest h (prefix c left) = rest left (put_in max_bytes c h)

-- The loop; `none` means that the fuel ran out.
unfoldable pub read_chunks : ℕ → ℕ → ℕ → Bytes → Held → Option ReadLine
read_chunks zero size max_bytes bs h = none
read_chunks (suc n) size max_bytes bs h =
    after_chunk max_bytes (λ left g. read_chunks n size max_bytes left g) h (read_chunk size bs)

-- `NewBoundedLineReader`
abbrev pub max_bytes_of : ℕ → ℕ
max_bytes_of max_bytes = if sle max_bytes 0 then 1024 * 1024 else max_bytes

abbrev pub reader_size : ℕ
reader_size = 64 * 1024

unfoldable pub read_line : ℕ → Bytes → Option ReadLine
unfolding read_chunks
read_line max_bytes bs =
    read_chunks (length bs + 1) reader_size (max_bytes_of max_bytes) bs ([], false)
