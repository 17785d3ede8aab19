-- ===== src/Storage/Files.antt =====
-- The files of a log directory, and reads and writes on one of them.
use walspool.Base.{
  ℕ, ◌+◌, ◌-◌, ◌≡◌, ◌↔◌, refl, Bool, true, false, ◌==◌, ==_iff, if◌then◌else◌, List, [], ◌∷◌, ◌++◌,
  Option, none, some, Bytes, length, take, drop, replicate, arith,
}

-- `active.wal` and `segment-%012d.wal`.
pub data FileName : Type 0 where
  active_wal : FileName
  segment : ℕ → FileName

unfoldable pub name_eq : FileName → FileName → Bool
name_eq active_wal active_wal = true
name_eq active_wal (segment b) = false
name_eq (segment a) active_wal = false
name_eq (segment a) (segment b) = a == b

abbrev pub Dir : Type 0
Dir = List (FileName × Bytes)

unfoldable pub get : FileName → Dir → Option Bytes
get n [] = none
get n ((m, b) ∷ d) = if name_eq m n then some b else get n d

-- `os.Remove`
unfoldable pub remove : FileName → Dir → Dir
remove n [] = []
remove n ((m, b) ∷ d) = if name_eq m n then remove n d else (m, b) ∷ remove n d

unfoldable pub put : FileName → Bytes → Dir → Dir
unfolding remove
put n b d = (n, b) ∷ remove n d

abbrev pub or_empty : Option Bytes → Bytes
or_empty none = []
or_empty (some b) = b

-- The bytes of a file; a new one is empty.
abbrev pub contents : FileName → Dir → Bytes
contents n d = or_empty (get n d)

-- `os.OpenFile` with `O_CREATE`: a file that is there keeps its bytes.
unfoldable pub create : FileName → Dir → Dir
create n d = put n (contents n d) d

-- `file.Truncate(n)` cuts, or pads with zeros.
unfoldable pub resized : ℕ → Bytes → Bytes
resized n b = take n b ++ replicate (n - length b) 0

-- A write at a position: what stands there is overwritten.
unfoldable pub written : ℕ → Bytes → Bytes → Bytes
unfolding resized
written pos bytes b = resized pos b ++ (bytes ++ drop (pos + length bytes) b)

pub name_eq_iff : (m n : FileName) → (name_eq m n ≡ true) ↔ (m ≡ n)
unfolding name_eq
name_eq_iff active_wal active_wal = (λ h. refl, λ h. refl)
name_eq_iff active_wal (segment b) = (λ h. cc, λ h. cc)
name_eq_iff (segment a) active_wal = (λ h. cc, λ h. cc)
name_eq_iff (segment a) (segment b) = ground (arith, ==_iff a b)

pub name_eq_refl : (n : FileName) → name_eq n n ≡ true
name_eq_refl n = (name_eq_iff n n).1 refl

pub get-remove :
    (n k : FileName) (d : Dir) → get k (remove n d) ≡ (if name_eq n k then none else get k d)
unfolding get remove
get-remove n k [] = ground arith
get-remove n k ((m, b) ∷ d) =
    ground (arith, get-remove n k d, name_eq_iff m k, name_eq_iff n k, name_eq_iff m n)

pub get-put :
    (n k : FileName) (b : Bytes) (d : Dir)
    → get k (put n b d) ≡ (if name_eq n k then some b else get k d)
unfolding get put
get-put n k b d = ground (arith, get-remove n k d)
