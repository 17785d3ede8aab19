-- ===== src/Storage/Writer.antt =====
-- The bufio.Writer over a segment file. An operation gives whether it went well, with the handle and
-- the directory after it.
pub mod Moves
pub mod Calls
pub mod Succeeds
use walspool.Base.{
  ℕ, ◌+◌, ◌-◌, Bool, true, false, ◌==◌, leb, if◌then◌else◌, List, [], ◌++◌, Bytes, length, take,
  drop, min,
}
use walspool.Storage.Files.{Dir, contents, put, written}
use walspool.Storage.State.{Handle, Call, fill, through, flush, Faults}

abbrev pub Outcome : Type 0
Outcome = Bool × Handle × Dir

-- `write(2)`: all bytes, or some of them and an error.
pub os_write : Faults → Call → Bytes → Handle → Dir → Outcome
os_write fl c bytes h d =
    let part = if fl.fails c then take fl.wrote bytes else bytes in
    (
      if fl.fails c then false else true,
      record h { pos = h.pos + length part },
      put h.name (written h.pos part (contents h.name d)) d,
    )

-- After the write of the whole buffer: what was written leaves the buffer.
pub after_flush : Faults → Outcome → Outcome
after_flush fl (true, h, d) = (true, record h { buffer = [] }, d)
after_flush fl (false, h, d) =
    (false, record h { buffer = drop fl.wrote h.buffer; write_err = true }, d)

-- `Writer.Flush`
pub flush_buffer : Faults → Call → Handle → Dir → Outcome
unfolding after_flush
flush_buffer fl c h d =
    if h.write_err
    then (false, h, d)
    else if length h.buffer == 0
    then (true, h, d)
    else after_flush fl (os_write fl c h.buffer h d)

-- `if writer.Buffered() > 0` around a flush.
pub flush_buffered : Faults → Call → Handle → Dir → Outcome
flush_buffered fl c h d = if length h.buffer == 0 then (true, h, d) else flush_buffer fl c h d

-- A large write that goes past an empty buffer.
pub write_through : Faults → Bytes → Handle → Dir → Outcome
write_through fl bytes h d =
    let (ok, h', d') = os_write fl through bytes h d in
    (ok, record h' { write_err = if ok then h'.write_err else true }, d')

-- What is left of a write when the buffer is empty: into it, or past it.
pub write_rest : Faults → ℕ → Bytes → Handle → Dir → Outcome
unfolding write_through
write_rest fl size bytes h d =
    if leb (length bytes) size
    then (true, record h { buffer = bytes }, d)
    else write_through fl bytes h d

pub after_fill : Faults → ℕ → Bytes → Outcome → Outcome
unfolding write_rest
after_fill fl size bytes (true, h, d) = write_rest fl size bytes h d
after_fill fl size bytes (false, h, d) = (false, h, d)

-- `Writer.Write`, with a buffer of `size` bytes: into the buffer, past it, or the buffer is filled
-- and flushed first.
pub write : Faults → ℕ → Bytes → Handle → Dir → Outcome
write fl size bytes h d =
    let room = size - length h.buffer in
    if h.write_err
    then (false, h, d)
    else if leb (length bytes) room
    then (true, record h { buffer = h.buffer ++ bytes }, d)
    else if length h.buffer == 0
    then write_through fl bytes h d
    else after_fill fl size (drop room bytes)
        (flush_buffer fl fill (record h { buffer = h.buffer ++ take room bytes }) d)
