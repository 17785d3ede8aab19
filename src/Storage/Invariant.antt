-- ===== src/Storage/Invariant.antt =====
-- storage_file.go: what an open engine keeps to between its calls.
use walspool.Base.{
  ℕ, ◌+◌, ◌<◌, ◌≤◌, ◌≡◌, ◌≢◌, ◌⊎◌, refl, sym, ◌∙◌, inl, inr, false, ◌==◌, if◌then◌else◌, List, [],
  ◌++◌, Option, none, some, Bytes, length, length-append, take_append, take_all, All, arith,
  max_log, Bool-cases,
}
use walspool.Record.{Record}
use walspool.Storage.{OffsetPos}
use walspool.Storage.Files.{FileName, segment, Dir, contents, get, name_eq, name_eq_iff}
use walspool.Storage.State.{Handle, FileStorage, segment_path}
use walspool.Storage.Index.{
  Kept, AllKept, Counted, InPlace, Ordered, Agree, Kept-agreeing, Kept-unmoved, AllKept-carry,
}
use walspool.Storage.Writer.Moves.{IsAtEnd}

-- The bytes of the active segment, in its file and its buffer.
abbrev pub active_bytes : FileStorage → Option Handle → Bytes
active_bytes f none = []
active_bytes f (some h) = contents h.name f.disk ++ h.buffer

-- The bytes of each segment: of the active one those of its file and its buffer, `x`.
unfoldable pub content : ℕ → (ℕ → FileName) → Dir → Bytes → ℕ → Option Bytes
content active path d x base = if base == active then some x else get (path base) d

-- The engine holds the records `rs`, one for each entry of its index. The active file is open at
-- its end, and no segment file lies behind it.
pub record Holds (f : FileStorage) (rs : List Record) : Type 0 where
  pub file : Handle
  pub bytes : Bytes
  pub is_open : f.closed ≡ false
  pub file_open : f.file_closed ≡ false
  pub opened : f.handle ≡ some file
  pub named : file.name ≡ segment_path f f.active_seg_base
  pub ready : IsAtEnd bytes file f.disk
  pub position : f.write_pos ≡ length (bytes ++ file.buffer)
  pub kept :
      AllKept
        (content f.active_seg_base (segment_path f) f.disk (bytes ++ file.buffer))
        f.records
        rs
  pub counted : Counted f.base_offset f.records
  pub placed : All (InPlace f.active_seg_base f.write_pos) f.records
  pub ordered : Ordered f.records
  pub active_low : f.active_seg_base ≤ f.base_offset + length f.records
  pub small : f.base_offset + length f.records ≤ max_log
  pub checkpoint_low : f.base_offset ≤ f.checkpoint
  pub checkpoint_high : f.checkpoint ≤ f.base_offset + length f.records
  pub none_behind : (b : ℕ) → f.active_seg_base < b → get (segment b) f.disk ≡ none

-- The active segment has a record, or it is empty.
abbrev pub IsFresh : FileStorage → Type 0
IsFresh f = (f.write_pos ≡ 0) ⊎ (f.active_seg_base < f.base_offset + length f.records)

pub segment_path-injective :
    (f : FileStorage) (a b : ℕ) → segment_path f a ≡ segment_path f b → a ≡ b
unfolding segment_path
segment_path-injective f a b h = ground arith

pub name-other :
    (f : FileStorage) (a b : ℕ) → a ≢ b → name_eq (segment_path f a) (segment_path f b) ≡ false
name-other f a b ne = elim (Bool-cases (name_eq (segment_path f a) (segment_path f b))) [
  | inl e ↦ absurd (ne (segment_path-injective f a b ((name_eq_iff _ _).0 e)))
  | inr e ↦ e
]

module _ (active : ℕ) (path : ℕ → FileName) (d : Dir) (x : Bytes) where
  pub content_active : content active path d x active ≡ some x
  unfolding content
  content_active = ground arith

  pub content_other : (base : ℕ) → base ≢ active → content active path d x base ≡ get (path base) d
  unfolding content
  content_other base ne = ground arith

-- A change of the active file that keeps its first `n` bytes keeps what is in them and in the
-- other files.
pub AllKept-change :
    (active : ℕ) (path : ℕ → FileName) (d d' : Dir) (x x' : Bytes) (n : ℕ) (es : List OffsetPos)
    (rs : List Record)
    → ((base : ℕ) → base ≢ active → get (path base) d' ≡ get (path base) d)
    → Agree n x x'
    → All (InPlace active n) es
    → AllKept (content active path d x) es rs
    → AllKept (content active path d' x') es rs
AllKept-change active path d d' x x' n es rs others agree p k =
    AllKept-carry (InPlace active n) (content active path d x) (content active path d' x') es rs one
      p k
  where
    one :
        (e : OffsetPos) (r : Record)
        → InPlace active n e
        → Kept (content active path d x) e r
        → Kept (content active path d' x') e r
    one e r (inl (here, inside, low)) k =
        Kept-agreeing _ _ e r x x' n k (rw here (content_active active path d x))
          (rw here (content_active active path d' x')) agree inside
    one e r (inr (below, low)) k = Kept-unmoved _ _ e r k (
        content_other active path d' x' e.seg_base ne
        ∙ others e.seg_base ne
        ∙ sym (content_other active path d x e.seg_base ne))
      where
        ne : e.seg_base ≢ active
        ne q = omega arith

pub Agree-front : (x y z : Bytes) → z ≡ x ++ y → Agree (length x) x z
Agree-front x y z h = rw h (
  omega arith,
  omega (arith, length-append x y),
  take_all (length x) x (omega arith) ∙ sym (take_append (length x) x y refl),
)

-- The file of a segment is none of a later one.
pub name-later :
    (f : FileStorage) (a b : ℕ) → a < b → name_eq (segment_path f a) (segment b) ≡ false
unfolding segment_path name_eq
name-later f a b h = ground arith

pub path-later : (f : FileStorage) (a b : ℕ) → a < b → segment_path f b ≡ segment b
unfolding segment_path
path-later f a b h = ground arith
