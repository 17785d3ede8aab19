-- ===== src/Hub/Payload.antt =====
-- hub.go: OnIngested and the scanner of a payload's top-level fields. A position `i` of the bytes
-- `b` is the suffix `b[i:]`.
pub mod Progress
pub mod Indexed
use walspool.Base.{
  ℕ, zero, suc, ◌+◌, ◌-◌, Bool, true, false, not, ◌&&◌, ◌||◌, ◌==◌, leb, if◌then◌else◌, List, [],
  ◌∷◌, ◌++◌, Option, none, some, Bytes, length, str_eq, drop, get_or,
}
use mathlib.Core.Option
use walspool.Record.{Record}
use walspool.Hub.Types.{Text, LogEntry, is_empty}
use walspool.Hub.State.{MemoryLogHub}
use walspool.Hub.Ingest.{ingest}

-- `json.Valid`, `json.Marshal` of a string, `strconv.Unquote` and `bytes.TrimSpace`.
pub record Codec : Type 0 where
  pub valid : Bytes → Bool
  pub marshal_string : Bytes → Bytes
  pub unquote : Bytes → Option Bytes
  pub trim_space : Bytes → Bytes

pub is_ws : ℕ → Bool
is_ws c = c == b' ' || (c == 9 || (c == 10 || c == 13))

pub skip_ws : Bytes → Bytes
skip_ws [] = []
skip_ws (c ∷ s) = if is_ws c then skip_ws s else c ∷ s

pub ends_scalar : ℕ → Bool
unfolding is_ws
ends_scalar c = c == b',' || (c == b'}' || (c == b']' || is_ws c))

pub skip_scalar : Bytes → Bytes
skip_scalar [] = []
skip_scalar (c ∷ s) = if ends_scalar c then c ∷ s else skip_scalar s

-- A scanned string: what stands between its quotes, what follows it, whether it holds escapes.
pub record Scanned : Type 0 where
  pub content : Bytes
  pub rest : Bytes
  pub escaped : Bool

-- Behind the opening quote, with the content `seen` so far. An escape takes the next byte along.
pub scan_from : Bytes → Bool → Bytes → Option Scanned
scan_from seen esc [] = none
scan_from seen esc (c ∷ []) =
    if c == b'"' then some (record { content = seen; rest = []; escaped = esc }) else none
scan_from seen esc (c ∷ d ∷ s) =
    let escape = scan_from (seen ++ (c ∷ d ∷ [])) true s in
    let plain = scan_from (seen ++ (c ∷ [])) esc (d ∷ s) in
    if c == 92
    then escape
    else if c == b'"'
    then some (record { content = seen; rest = d ∷ s; escaped = esc })
    else plain

pub scan_string : Bytes → Option Scanned
scan_string [] = none
scan_string (quote ∷ s) = scan_from [] false s

pub opens : ℕ → Bool
opens c = c == b'{' || c == b'['

pub closes : ℕ → Bool
closes c = c == b'}' || c == b']'

-- The end of a container, malformed input, or fuel used up.
pub data Skip : Type 0 where
  at : Bytes → Skip
  malformed : Skip
  exhausted : Skip

-- It begins at an opening bracket, so that the depth is positive at each closing one.
pub skip_container : ℕ → ℕ → Bytes → Skip
skip_container zero depth s = exhausted
skip_container (suc f) depth [] = malformed
skip_container (suc f) depth (c ∷ s) =
    let quoted : Skip = elim (scan_string (c ∷ s)) [
      | none ↦ malformed
      | some v ↦ skip_container f depth v.rest
    ] in
    let deeper = skip_container f (depth + 1) s in
    let higher = skip_container f (depth - 1) s in
    let onward = skip_container f depth s in
    if c == b'"'
    then quoted
    else if opens c
    then deeper
    else if closes c
    then (if depth - 1 == 0 then at s else higher)
    else onward

-- The fields found so far.
pub record Meta : Type 0 where
  pub snake : Bytes
  pub camel : Bytes
  pub service : Bytes
  pub lvl : Bytes
  pub sev : Bytes

pub first_non_empty : Bytes → Bytes → Bytes
first_non_empty a b = if is_empty a then b else a

pub assign : Bytes → Bytes → Meta → Meta
assign key value m =
    if str_eq key (b't' ∷ b'r' ∷ b'a' ∷ b'c' ∷ b'e' ∷ b'_' ∷ b'i' ∷ b'd' ∷ [])
    then record m { snake = value }
    else if str_eq key (b't' ∷ b'r' ∷ b'a' ∷ b'c' ∷ b'e' ∷ b'I' ∷ b'd' ∷ [])
    then record m { camel = value }
    else if str_eq key (b's' ∷ b'e' ∷ b'r' ∷ b'v' ∷ b'i' ∷ b'c' ∷ b'e' ∷ [])
    then record m { service = value }
    else if str_eq key (b'l' ∷ b'e' ∷ b'v' ∷ b'e' ∷ b'l' ∷ [])
    then record m { lvl = value }
    else if str_eq key (b's' ∷ b'e' ∷ b'v' ∷ b'e' ∷ b'r' ∷ b'i' ∷ b't' ∷ b'y' ∷ [])
    then record m { sev = value }
    else m

-- A round of the loop ends it, or goes on.
pub data Next : Type 0 where
  stop : Meta → Next
  more : Bytes → Meta → Next
  starved : Next

-- Blanks and one comma behind a value.
pub skip_comma : Bytes → Bytes
skip_comma [] = []
skip_comma (c ∷ s) = if c == b',' then s else c ∷ s

pub go_on : Bytes → Meta → Next
go_on s m = more (skip_comma (skip_ws s)) m

pub after_container : Skip → Meta → Next
after_container (at s) m = go_on s m
after_container malformed m = stop m
after_container exhausted m = starved

abbrev pub no_meta : Meta
no_meta = record { snake = []; camel = []; service = []; lvl = []; sev = [] }

-- The trace id, the service and the level.
abbrev pub Extracted : Type 0
Extracted = Bytes × Bytes × Bytes

pub named : Meta → Extracted
named m = (first_non_empty m.snake m.camel, m.service, first_non_empty m.lvl m.sev)

pub with_topic : Bytes → Extracted → Extracted
with_topic topic (trace_id, service, level) = (
  trace_id,
  if is_empty service then topic else service,
  if is_empty level then b'I' ∷ b'N' ∷ b'F' ∷ b'O' ∷ [] else level,
)

module _ (codec : Codec) where
  -- An escaped string is decoded with its quotes.
  pub materialize : Scanned → Bytes
  materialize v =
      if v.escaped
      then elim (codec.unquote (b'"' ∷ (v.content ++ (b'"' ∷ [])))) [
        | none ↦ v.content
        | some s ↦ s
      ]
      else v.content

  pub after_string : Bytes → Option Scanned → Meta → Next
  after_string key none m = stop m
  after_string key (some v) m = go_on v.rest (assign key (materialize v) m)

  pub scan_value : Bytes → Bytes → Meta → Next
  scan_value key [] m = stop m
  scan_value key (c ∷ s) m =
      if c == b'"'
      then after_string key (scan_string (c ∷ s)) m
      else if opens c
      then after_container (skip_container (length (c ∷ s) + 1) 0 (c ∷ s)) m
      else go_on (skip_scalar (c ∷ s)) m

  pub after_colon : Bytes → Bytes → Meta → Next
  after_colon key [] m = stop m
  after_colon key (c ∷ s) m = if c == b':' then scan_value key (skip_ws s) m else stop m

  pub after_key : Option Scanned → Meta → Next
  after_key none m = stop m
  after_key (some k) m = after_colon k.content (skip_ws k.rest) m

  pub scan_key : Bytes → Meta → Next
  scan_key [] m = stop m
  scan_key (c ∷ s) m = if c == b'"' then after_key (scan_string (c ∷ s)) m else stop m

  -- The loop; `none` means that the fuel ran out.
  pub scan_loop : ℕ → Bytes → Meta → Option Meta
  scan_loop zero s m = none
  scan_loop (suc f) s m = elim (scan_key (skip_ws s) m) [
    | stop m' ↦ some m'
    | more s' m' ↦ scan_loop f s' m'
    | starved ↦ none
  ]

  -- The scanner, behind the opening brace.
  pub scan_top_level_meta : Bytes → Option Extracted
  scan_top_level_meta b = Option.map named (scan_loop (length b + 1) (drop 1 b) no_meta)

  pub extract_metadata : Bytes → Bytes → Option Extracted
  extract_metadata topic payload =
      let b = codec.trim_space payload in
      Option.map (with_topic topic) (
        if leb 2 (length b) && get_or b 0 0 == b'{'
        then scan_top_level_meta b
        else some ([], [], []))

  -- The entry that `OnIngested` makes of a record; a record's timestamp is never the zero time.
  pub entry_of : Record → Extracted → LogEntry
  entry_of rec (trace_id, service, level) = record {
    id = rec.id;
    timestamp = some rec.timestamp;
    topic = rec.topic;
    service = service;
    trace_id = trace_id;
    level = level;
    payload = if codec.valid rec.payload then rec.payload else codec.marshal_string rec.payload;
  }

  -- The error of `Ingest` is dropped.
  pub on_ingested : Text → ℕ → Record → MemoryLogHub → Option MemoryLogHub
  on_ingested text now rec h =
      Option.map (λ e. (ingest text now (entry_of rec e) h).1)
        (extract_metadata rec.topic rec.payload)
