-- ===== src/Storage/Queue.antt =====
-- The file engine, with no faults, keeps the promises of `StorageEngine`.
use mathlib.Core.Path.{subst}
use walspool.Base.{
  ℕ, suc, ◌+◌, ◌-◌, ◌<◌, ◌≤◌, ◌≡◌, ◌⊎◌, refl, sym, ap, ◌∙◌, inl, inr, List, [], ◌∷◌, ◌++◌, Option,
  some, Bytes, map, length, length-append, length-drop, take, drop, drop-drop, drop_front,
  drop_past, arith, max_log, max_batch,
}
use walspool.Errors.{Error, Result, ok, err}
use walspool.Record.{Record, zero_record, unmarshal_binary, body, checksum_ieee, slice}
use walspool.Ports.{StorageEngine, IsQueue}
use walspool.Memory.Queue.{Numbered, Numbered-drop, Numbered-at}
use walspool.Storage.{OffsetPos}
use walspool.Storage.Files.{or_empty}
use walspool.Storage.State.{FileStorage, no_faults, segment_path}
use walspool.Storage.Operations.{append}
use walspool.Storage.Reading.{read_batch, uncommitted_count, last_id}
use walspool.Storage.Commits.{commit, close}
use walspool.Storage.Index.{Kept, AllKept, AllKept-length, Counted}
use walspool.Storage.Invariant.{active_bytes, content, Holds, IsFresh}
use walspool.Storage.Keeps.{InRange, SameStart}
use walspool.Storage.Appending.{read_back}
use walspool.Storage.Appends.{Appends, append-Appends}
use walspool.Storage.Reads.{unmarshal_back, decoded_back, read_batch-kept}
use walspool.Storage.Checkpoint.{Commits, commit-Commits}

abbrev pub file_storage : StorageEngine
file_storage = record {
  State = FileStorage;
  append = append no_faults;
  read_batch = read_batch no_faults;
  commit = commit no_faults;
  uncommitted_count = uncommitted_count;
  close = close no_faults;
  last_id = some last_id;
}

abbrev record_of : ℕ → Result Record → Record
record_of offset (ok r) = record r { offset = offset }
record_of offset (err x) = zero_record

-- The record at an entry.
abbrev record_at : (ℕ → Option Bytes) → OffsetPos → Record
record_at c e =
    record_of e.offset (unmarshal_binary zero_record (slice e.pos e.size (or_empty (c e.seg_base))))

-- The records of the log, in the files and the buffer.
unfoldable pub log : FileStorage → List Record
log f =
    map (record_at (content f.active_seg_base (segment_path f) f.disk (active_bytes f f.handle)))
      f.records

-- Those that are not committed.
abbrev pub pending : FileStorage → List Record
pending f = drop (f.checkpoint - f.base_offset) (log f)

-- The engine holds its log.
abbrev pub IsOpen : FileStorage → Type 0
IsOpen f = (rs : List Record) × Holds f rs × IsFresh f

record_at-Kept :
    (c : ℕ → Option Bytes) (e : OffsetPos) (r : Record) → Kept c e r → record_at c e ≡ r
record_at-Kept c e r k =
    ap (λ b. record_of e.offset (unmarshal_binary zero_record (slice e.pos e.size (or_empty b))))
      k.held
    ∙ ap (λ b. record_of e.offset (unmarshal_binary zero_record b)) k.whole
    ∙ ap (record_of e.offset) (unmarshal_back c e r k)
    ∙ decoded_back c e r k

map-kept :
    (c : ℕ → Option Bytes) (es : List OffsetPos) (rs : List Record)
    → AllKept c es rs
    → map (record_at c) es ≡ rs
unfolding AllKept
map-kept c [] [] k = refl
map-kept c [] (r ∷ rs) k = absurd k
map-kept c (e ∷ es) [] k = absurd k
map-kept c (e ∷ es) (r ∷ rs) (k, ks) = rw (record_at-Kept c e r k, map-kept c es rs ks) refl

log-Holds : (f : FileStorage) (rs : List Record) → Holds f rs → log f ≡ rs
unfolding log
log-Holds f rs H =
    ap (λ b. map (record_at (content f.active_seg_base (segment_path f) f.disk b)) f.records)
      (ap (active_bytes f) H.opened ∙ ap (λ b. or_empty b ++ H.file.buffer) H.ready.there)
    ∙ map-kept _ f.records rs H.kept

pub pending-Holds :
    (f : FileStorage) (rs : List Record)
    → Holds f rs
    → pending f ≡ drop (f.checkpoint - f.base_offset) rs
pending-Holds f rs H = ap (drop (f.checkpoint - f.base_offset)) (log-Holds f rs H)

kept-Numbered :
    (c : ℕ → Option Bytes) (n : ℕ) (es : List OffsetPos) (rs : List Record)
    → AllKept c es rs
    → Counted n es
    → Numbered n rs
unfolding AllKept
kept-Numbered c n [] [] k d = tt
kept-Numbered c n [] (r ∷ rs) k d = absurd k
kept-Numbered c n (e ∷ es) [] k d = absurd k
kept-Numbered c n (e ∷ es) (r ∷ rs) (k, ks) (d, ds) =
    (k.numbered ∙ d, kept-Numbered c (suc n) es rs ks ds)

-- A read gives the first pending records, and leaves the same ones pending.
read_pending :
    (n : ℕ) (f : FileStorage)
    → 0 < n
    → n ≤ max_batch
    → IsOpen f
    → ((k : ℕ) × (0 < k) × (k ≤ n) × ((read_batch no_faults n f).0 ≡ ok (take k (pending f))))
      × (pending (read_batch no_faults n f).1 ≡ pending f)
      × IsOpen (read_batch no_faults n f).1
read_pending n f pos small (rs, H, fresh) =
    let (answer, held, (c, b), stays) = read_batch-kept f rs H n pos small in
    (
      (n, pos, omega arith, answer ∙ ap (λ l. ok (take n l)) (sym (pending-Holds f rs H))),
      pending-Holds _ rs held ∙ rw (c, b) (sym (pending-Holds f rs H)),
      (rs, held, stays fresh),
    )

module _ (f : FileStorage) (xs : List Record) (r : Record) (ys rs : List Record) (H : Holds f rs)
    (e : pending f ≡ xs ++ (r ∷ ys)) where
  abbrev first : ℕ
  first = f.checkpoint - f.base_offset

  abbrev split : drop first rs ≡ xs ++ (r ∷ ys)
  split = sym (pending-Holds f rs H) ∙ e

  -- The offset of a pending record, from the checkpoint on.
  place : r.offset ≡ f.checkpoint + length xs
  place = Numbered-at f.checkpoint xs r ys (subst (Numbered f.checkpoint) split (numbered at_first))
    where
      at_first : f.base_offset + first ≡ f.checkpoint
      at_first = omega (arith, H.checkpoint_low)

      numbered : f.base_offset + first ≡ f.checkpoint → Numbered f.checkpoint (drop first rs)
      numbered q =
          subst (λ n. Numbered n (drop first rs)) q
            (Numbered-drop first f.base_offset rs
              (kept-Numbered _ f.base_offset f.records rs H.kept H.counted))

  enough : first + length xs < length rs
  enough = omega (arith, length-drop first rs, ap length split, length-append xs (r ∷ ys))

  inside : r.offset < f.base_offset + length f.records
  inside = omega (arith, place, enough, AllKept-length _ f.records rs H.kept, H.checkpoint_low)

  done : Commits f rs r.offset (commit no_faults r.offset f)
  done = commit-Commits f rs H r.offset inside

  moved : (commit no_faults r.offset f).1.checkpoint ≡ f.checkpoint + (length xs + 1)
  moved = done.reaches ∙ ground (arith, place)

  left : pending (commit no_faults r.offset f).1 ≡ ys
  left =
      pending-Holds _ _ done.holds
      ∙ drop-drop done.n _ (first + (length xs + 1)) rs
          (omega (arith, done.holds.checkpoint_low, done.base_moves, moved, H.checkpoint_low))
      ∙ sym (drop-drop first (length xs + 1) _ rs refl)
      ∙ ap (drop (length xs + 1)) split
      ∙ drop_past xs r ys

-- A commit of the offset of a pending record leaves those behind it pending.
commit_pending :
    (f : FileStorage) (xs : List Record) (r : Record) (ys : List Record)
    → IsOpen f
    → pending f ≡ xs ++ (r ∷ ys)
    → ((commit no_faults r.offset f).0 ≡ ok tt)
      × (pending (commit no_faults r.offset f).1 ≡ ys)
      × IsOpen (commit no_faults r.offset f).1
commit_pending f xs r ys (rs, H, fresh) e =
    let c = done f xs r ys rs H e in
    (c.answer, left f xs r ys rs H e, (drop c.n rs, c.holds, c.stays_fresh fresh))

-- A record that the engine takes, unless the spool is full or its topic too long.
abbrev pub HasRoom : Record → FileStorage → Type 0
HasRoom r f = InRange r × (f.base_offset + length f.records < max_log)

append_pending :
    (r : Record) (f : FileStorage)
    → IsOpen f
    → HasRoom r f
    → ((n : ℕ) × ((append no_faults r f).0 ≡ ok n)
        × (pending (append no_faults r f).1 ≡ pending f ++ (read_back n r ∷ []))
        × IsOpen (append no_faults r f).1)
      ⊎ ((e : Error) × ((append no_faults r f).0 ≡ err e) × ((append no_faults r f).1 ≡ f))
append_pending r f (rs, H, fresh) (q, room) =
    by_answer (append no_faults r f) (append-Appends f rs H fresh r q room)
  where
    Queued : Result ℕ × FileStorage → Type 0
    Queued p =
        ((n : ℕ) × (p.0 ≡ ok n) × (pending p.1 ≡ pending f ++ (read_back n r ∷ [])) × IsOpen p.1)
        ⊎ ((e : Error) × (p.0 ≡ err e) × (p.1 ≡ f))

    behind :
        (n : ℕ) (g : FileStorage)
        → Holds g (rs ++ (read_back n r ∷ []))
        → SameStart f g
        → pending g ≡ pending f ++ (read_back n r ∷ [])
    behind n g h (c, b) =
        pending-Holds g _ h
        ∙ rw (c, b)
            (drop_front (f.checkpoint - f.base_offset) rs _
                (omega (arith, AllKept-length _ f.records rs H.kept, H.checkpoint_high))
              ∙ ap (λ l. l ++ (read_back n r ∷ [])) (sym (pending-Holds f rs H)))

    by_answer : (p : Result ℕ × FileStorage) → Appends f rs r p → Queued p
    by_answer (ok n, g) (at, h, fr, s, grows) =
        inl (n, refl, behind n g h s, (rs ++ (read_back n r ∷ []), h, fr))
    by_answer (err x, g) same = inr (x, refl, same)

-- An open file engine, with no faults, is a queue of records: a read gives the first pending ones,
-- a commit of the offset of a pending record leaves exactly those behind it pending, and an append
-- puts the record, numbered and with its checksum, behind all pending ones, or fails and changes
-- nothing. Each call leaves the engine open.
pub file_queue : IsQueue file_storage
unfolding body
file_queue = record {
  IsOpen = IsOpen;
  HasRoom = HasRoom;
  read_back = λ r. record r { checksum = checksum_ieee (body r) };
  pending = pending;
  read_pending = read_pending;
  commit_pending = commit_pending;
  append_pending = append_pending;
}
