-- ===== src/Hub/Types.antt =====
-- hub.go: entries, queries and filters, and the functions of package strings that the hub calls.
use walspool.Base.{ℕ, Bool, true, false, [], ◌∷◌, Option, Bytes}

-- `strings.ToUpper`, `ToLower`, `TrimSpace` and `EqualFold`, which depend on the tables of Unicode.
pub record Text : Type 0 where
  pub to_upper : Bytes → Bytes
  pub to_lower : Bytes → Bytes
  pub trim_space : Bytes → Bytes
  pub equal_fold : Bytes → Bytes → Bool

-- A timestamp is the pattern of `UnixNano`, or `none` for the zero time.
pub record LogEntry : Type 0 where
  pub id : ℕ
  pub timestamp : Option ℕ
  pub topic : Bytes
  pub service : Bytes
  pub trace_id : Bytes
  pub level : Bytes
  pub payload : Bytes

-- `limit` is the 64-bit pattern of an int.
pub record LogQuery : Type 0 where
  pub trace_id : Bytes
  pub service : Bytes
  pub level : Bytes
  pub limit : ℕ

pub record StreamFilter : Type 0 where
  pub service : Bytes
  pub level : Bytes

-- `s == ""`
abbrev pub is_empty : Bytes → Bool
is_empty [] = true
is_empty (x ∷ xs) = false
