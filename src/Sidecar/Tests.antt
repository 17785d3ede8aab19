-- ===== src/Sidecar/Tests.antt =====
-- A batch of two items, to a spooler that has room for one.
use walspool.Base.{
  ℕ, ◌+◌, ◌≡◌, Bool, true, false, refl, ltb, if◌then◌else◌, List, [], ◌∷◌, Option, none, some,
  Bytes, length,
}
use walspool.Errors.{Error, sentinel, spool_full}
use walspool.Sidecar.Batch.{
  Spooler, Json, EnqueueRequest, decoded, Request, spool_full_at, SidecarServer, item_problem,
  prepared_item, prepare, ingest_items, enrich_payload_metadata, record_ingested,
  handle_enqueue_batch,
}
use walspool.Sidecar.Batch.Handles.{Handles, handle_enqueue_batch-Handles}

-- A codec that finds no object, and trims nothing.
abbrev no_json : Json
no_json = record {
  trim_space = λ bs. bs;
  Object = Bytes;
  decode = λ bs. none;
  holds = λ k o. false;
  put = λ k v o. o;
  marshal = λ o. none;
}

-- Its state is the payloads that it holds.
abbrev small_spooler : Spooler
small_spooler = record {
  State = List Bytes;
  enqueue = λ t p s. if ltb (length s) 1 then (none, p ∷ s) else (some (sentinel spool_full), s);
}

abbrev item : EnqueueRequest
item = record { topic = 97 ∷ []; payload = 49 ∷ []; trace_id = []; service = []; level = [] }

abbrev two_items : Request
two_items = record {
  is_post = true;
  body = decoded (item ∷ item ∷ []);
  x_trace_id = [];
  x_service = [];
  x_log_level = [];
}

abbrev server : SidecarServer small_spooler
server = record { spooler = []; ingested = some []; is_shutting_down = false }

one_taken : (handle_enqueue_batch no_json two_items small_spooler server).0 ≡ spool_full_at 1 2
unfolding handle_enqueue_batch prepare item_problem prepared_item ingest_items
    enrich_payload_metadata record_ingested walspool.Errors.is walspool.Base.str_eq
one_taken = refl

handle_enqueue_batch-Handles_example :
    Handles no_json two_items small_spooler server
      (handle_enqueue_batch no_json two_items small_spooler server)
handle_enqueue_batch-Handles_example =
    handle_enqueue_batch-Handles no_json two_items small_spooler server
