-- ===== src/Sidecar/Batch.antt =====
-- cmd/sidecar/main.go: handleEnqueueBatch, with enrichPayloadMetadata and RecordIngested. A request
-- comes with its body decoded; a response is told apart by its status and its fields.
pub mod Handles
use walspool.Base.{
  ℕ, suc, ◌+◌, ◌*◌, ◌%◌, word, ◌⊎◌, inl, inr, Bool, true, false, not, ◌&&◌, ◌||◌, ◌==◌, ltb,
  if◌then◌else◌, List, [], ◌∷◌, ◌++◌, Option, none, some, Bytes, length, lookup, insert, str_eq,
}
use mathlib.Core.Option
use walspool.Errors.{Error, is, spool_full}
use walspool.Hub.Types.{is_empty}

-- `Enqueue` of the spooler under the request's context; `none` is `nil`.
pub record Spooler : Type 1 where
  pub State : Type 0
  pub enqueue : Bytes → Bytes → State → Option Error × State

-- `bytes.TrimSpace` and `strings.TrimSpace`, and encoding/json on a `map[string]any`: `decode` of
-- bytes that start with an object, if that works; `holds` where the value of a key is not nil.
pub record Json : Type 1 where
  pub trim_space : Bytes → Bytes
  pub Object : Type 0
  pub decode : Bytes → Option Object
  pub holds : Bytes → Object → Bool
  pub put : Bytes → Bytes → Object → Object
  pub marshal : Object → Option Bytes

pub record EnqueueRequest : Type 0 where
  pub topic : Bytes
  pub payload : Bytes
  pub trace_id : Bytes
  pub service : Bytes
  pub level : Bytes

pub record PreparedBatchItem : Type 0 where
  pub topic : Bytes
  pub payload : Bytes

-- What the JSON decoder says of the body.
pub data Body : Type 0 where
  over_limit bad_json : Body
  decoded : List EnqueueRequest → Body

-- The headers are X-Trace-ID, X-Service and X-Log-Level.
pub record Request : Type 0 where
  pub is_post : Bool
  pub body : Body
  pub x_trace_id : Bytes
  pub x_service : Bytes
  pub x_log_level : Bytes

pub data Problem : Type 0 where
  empty_topic empty_payload payload_over_limit : Problem

pub data Response : Type 0 where
  method_not_allowed shutting_down payload_too_large invalid_json empty_batch batch_too_large :
      Response
  invalid_batch_item : ℕ → Problem → Response
  ok_enqueued : ℕ → ℕ → Response
  spool_full_at : ℕ → ℕ → Response
  internal_error : Error → ℕ → ℕ → Response

-- The spooler, the counters if there are any, and whether the server shuts down.
pub record SidecarServer (S : Spooler) : Type 0 where
  pub spooler : S.State
  pub ingested : Option (List (Bytes × ℕ))
  pub is_shutting_down : Bool

abbrev pub max_batch_size : ℕ
max_batch_size = 1000

abbrev pub max_payload_size : ℕ
max_payload_size = 1024 * 1024

abbrev pub count_of : Option ℕ → ℕ
count_of none = 0
count_of (some n) = n

-- `RecordIngested`
unfoldable pub record_ingested : Bytes → Option (List (Bytes × ℕ)) → Option (List (Bytes × ℕ))
record_ingested topic none = none
record_ingested topic (some m) = some (insert topic ((count_of (lookup topic m) + 1) % word) m)

abbrev pub trace_id_key : Bytes
trace_id_key = b't' ∷ b'r' ∷ b'a' ∷ b'c' ∷ b'e' ∷ b'_' ∷ b'i' ∷ b'd' ∷ []

abbrev pub camel_trace_id_key : Bytes
camel_trace_id_key = b't' ∷ b'r' ∷ b'a' ∷ b'c' ∷ b'e' ∷ b'I' ∷ b'd' ∷ []

abbrev pub service_key : Bytes
service_key = b's' ∷ b'e' ∷ b'r' ∷ b'v' ∷ b'i' ∷ b'c' ∷ b'e' ∷ []

abbrev pub level_key : Bytes
level_key = b'l' ∷ b'e' ∷ b'v' ∷ b'e' ∷ b'l' ∷ []

abbrev pub severity_key : Bytes
severity_key = b's' ∷ b'e' ∷ b'v' ∷ b'e' ∷ b'r' ∷ b'i' ∷ b't' ∷ b'y' ∷ []

abbrev pub null_text : Bytes
null_text = b'n' ∷ b'u' ∷ b'l' ∷ b'l' ∷ []

module _ (J : Json) where
  -- Whether a value was J.put, with the object.
  abbrev pub put_missing : Bool → Bytes → Bytes → Bool × J.Object → Bool × J.Object
  put_missing present key v (modified, obj) =
      if not (is_empty v) && not present then (true, J.put key v obj) else (modified, obj)

  abbrev pub merged : Bytes → Bool × J.Object → Bytes
  merged payload (modified, obj) =
      if modified then elim (J.marshal obj) [ none ↦ payload | some bs ↦ bs ] else payload

  abbrev pub enrich : Bytes → Bytes → Bytes → Bytes → Option J.Object → Bytes
  enrich payload trace_id service level none = payload
  enrich payload trace_id service level (some obj) =
      let with_trace =
        put_missing (J.holds trace_id_key obj || J.holds camel_trace_id_key obj) trace_id_key
          trace_id (false, obj) in
      let with_service =
        put_missing (J.holds service_key with_trace.1) service_key service with_trace in
      merged payload (
        put_missing (J.holds level_key with_service.1 || J.holds severity_key with_service.1)
          level_key level with_service)

  abbrev pub starts_object : Bytes → Bool
  starts_object [] = false
  starts_object (x ∷ bs) = x == b'{'

  unfoldable pub enrich_payload_metadata : Bytes → Bytes → Bytes → Bytes → Bytes
  enrich_payload_metadata payload trace_id service level =
      if is_empty trace_id && (is_empty service && is_empty level)
      then payload
      else if not (starts_object (J.trim_space payload))
      then payload
      else enrich payload trace_id service level (J.decode (J.trim_space payload))

  abbrev pub or_default : Bytes → Bytes → Bytes
  or_default x d = let t = J.trim_space x in if is_empty t then d else t

  module _ (q : Request) where
    abbrev pub service_of : EnqueueRequest → Bytes
    service_of item = or_default item.service (J.trim_space q.x_service)

    abbrev pub topic_of : EnqueueRequest → Bytes
    topic_of item = or_default item.topic (service_of item)

    abbrev pub is_blank : Bytes → Bool
    is_blank payload =
        is_empty payload || (str_eq payload null_text || str_eq payload (34 ∷ 34 ∷ []))

    -- The checks of an item, in order.
    unfoldable pub item_problem : EnqueueRequest → Option Problem
    item_problem item =
        if is_empty (topic_of item)
        then some empty_topic
        else if is_blank (J.trim_space item.payload)
        then some empty_payload
        else if ltb max_payload_size (length item.payload)
        then some payload_over_limit
        else none

    unfoldable pub prepared_item : EnqueueRequest → PreparedBatchItem
    prepared_item item = record {
      topic = topic_of item;
      payload =
          enrich_payload_metadata item.payload
            (or_default item.trace_id (J.trim_space q.x_trace_id)) (service_of item)
            (or_default item.level (J.trim_space q.x_log_level));
    }

    -- Phase 1: the first bad item, by its index, or all items prepared.
    abbrev pub after_item :
        ℕ
        → PreparedBatchItem
        → Option Problem
        → Response ⊎ List PreparedBatchItem
        → Response ⊎ List PreparedBatchItem
    after_item i x (some p) rest = inl (invalid_batch_item i p)
    after_item i x none (inl r) = inl r
    after_item i x none (inr xs) = inr (x ∷ xs)

    unfoldable pub prepare : ℕ → List EnqueueRequest → Response ⊎ List PreparedBatchItem
    prepare i [] = inr []
    prepare i (item ∷ batch) =
        after_item i (prepared_item item) (item_problem item) (prepare (i + 1) batch)

    -- Phase 2
    module _ (S : Spooler) where
      abbrev pub with_item : PreparedBatchItem → S.State → SidecarServer S → SidecarServer S
      with_item x spooler s = record s {
        spooler = spooler;
        ingested = record_ingested x.topic s.ingested;
      }

      abbrev pub failure : Error → ℕ → ℕ → Response
      failure e enqueued total =
          if is spool_full e then spool_full_at enqueued total else internal_error e enqueued total

      abbrev pub after_enqueue :
          (SidecarServer S → Response × SidecarServer S)
          → ℕ
          → ℕ
          → PreparedBatchItem
          → SidecarServer S
          → Option Error × S.State
          → Response × SidecarServer S
      after_enqueue rest enqueued total x s (some e, spooler) =
          (failure e enqueued total, record s { spooler = spooler })
      after_enqueue rest enqueued total x s (none, spooler) = rest (with_item x spooler s)

      unfoldable pub ingest_items :
          ℕ → ℕ → ℕ → List PreparedBatchItem → SidecarServer S → Response × SidecarServer S
      ingest_items enqueued total size [] s = (ok_enqueued enqueued size, s)
      ingest_items enqueued total size (x ∷ xs) s =
          after_enqueue (λ t. ingest_items (enqueued + 1) total size xs t) enqueued total x s
            (S.enqueue x.topic x.payload s.spooler)

      abbrev pub total_bytes : List PreparedBatchItem → ℕ
      total_bytes [] = 0
      total_bytes (x ∷ xs) = length x.payload + total_bytes xs

      abbrev pub ingest_prepared :
          SidecarServer S → Response ⊎ List PreparedBatchItem → Response × SidecarServer S
      ingest_prepared s (inl r) = (r, s)
      ingest_prepared s (inr xs) = ingest_items 0 (length xs) (total_bytes xs) xs s

      abbrev pub handle_body : SidecarServer S → Body → Response × SidecarServer S
      handle_body s over_limit = (payload_too_large, s)
      handle_body s bad_json = (invalid_json, s)
      handle_body s (decoded batch) =
          if length batch == 0
          then (empty_batch, s)
          else if ltb max_batch_size (length batch)
          then (batch_too_large, s)
          else ingest_prepared s (prepare 0 batch)

      unfoldable pub handle_enqueue_batch : SidecarServer S → Response × SidecarServer S
      handle_enqueue_batch s =
          if not q.is_post
          then (method_not_allowed, s)
          else if s.is_shutting_down
          then (shutting_down, s)
          else handle_body s q.body
