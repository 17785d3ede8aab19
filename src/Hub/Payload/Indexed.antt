-- ===== src/Hub/Payload/Indexed.antt =====
-- OnIngested: every record that the spooler stores reaches an open hub.
use mathlib.Core.Option
use walspool.Base.{
  ℕ, ◌+◌, ◌≡◌, refl, ap, ◌∙◌, inl, inr, Bool, true, false, ◌&&◌, ◌==◌, leb, [], ◌∷◌, ◌++◌, some,
  Bytes, length, arith, Bool-cases, drop, length-drop, get_or,
}
use walspool.Record.{Record}
use walspool.Hub.Types.{Text, LogEntry, is_empty}
use walspool.Hub.State.{MemoryLogHub}
use walspool.Hub.Ingest.{ingest, assigned}
use walspool.Hub.Ingest.Log.{log, IsHub, newest}
use walspool.Hub.Ingest.Outcome.{Holds, Ingests, ingest-Ingests}
use walspool.Hub.Payload.{
  Codec, no_meta, Extracted, named, scan_top_level_meta, with_topic, extract_metadata, entry_of,
  on_ingested,
}
use walspool.Hub.Payload.Progress.{scan_loop_ends}

module _ (codec : Codec) where
  scan_ends : (b : Bytes) → (x : Extracted) × (scan_top_level_meta codec b ≡ some x)
  unfolding scan_top_level_meta
  scan_ends b =
      let (m, e) =
        scan_loop_ends codec (length b + 1) (drop 1 b) no_meta (omega (arith, length-drop 1 b)) in
      (named m, ap (Option.map named) e)

  -- The metadata of a payload is found in as many rounds as it has bytes.
  extract_ends :
      (topic payload : Bytes) → (x : Extracted) × (extract_metadata codec topic payload ≡ some x)
  unfolding extract_metadata
  extract_ends topic payload = elim (Bool-cases object) [
    | inl o ↦ (
      with_topic topic (scan_ends b).0,
      rw o (ap (Option.map (with_topic topic)) (scan_ends b).1),
    )
    | inr o ↦ (with_topic topic ([], [], []), rw o refl)
  ]
    where
      b : Bytes
      b = codec.trim_space payload

      object : Bool
      object = leb 2 (length b) && get_or b 0 0 == b'{'

  module _ (text : Text) (now : ℕ) (rec : Record) (h : MemoryLogHub) where
    topic-entry_of : (x : Extracted) → (entry_of codec rec x).topic ≡ rec.topic
    unfolding entry_of
    topic-entry_of x = refl

    -- What an open hub holds after an entry with a topic.
    taken :
        (e : LogEntry)
        → is_empty e.topic ≡ false
        → h.closed ≡ false
        → Ingests text now e h (ingest text now e h)
        → Holds h.capacity
            (newest h.capacity (log h ++ ((assigned text now e h).0 ∷ [])))
            (ingest text now e h).1
    taken e t c (inl (_, _, _, k)) = k
    taken e t c (inr (inl (_, x, _))) = absurd (unnamed (is_empty e.topic) (is_empty e.service) t x)
      where
        unnamed : (a b : Bool) → a ≡ false → (a && b) ≡ true → ⊥
        unnamed true b f g = cc
        unnamed false b f g = cc
    taken e t c (inr (inr (_, x, _))) = cc

    -- A record with a topic, shown to an open hub that keeps its invariant, becomes its newest
    -- entry: the scanner of the payload ends with some metadata, and the hub then keeps the
    -- invariant and its capacity and holds the newest entries, up to its capacity, of what it held
    -- followed by the entry made of the record and that metadata, in its assigned form.
    pub on_ingested-Holds :
        IsHub h
        → h.closed ≡ false
        → is_empty rec.topic ≡ false
        → (x : Extracted) × (h' : MemoryLogHub) × (extract_metadata codec rec.topic rec.payload
            ≡ some x)
          × (on_ingested codec text now rec h ≡ some h')
          × Holds h.capacity
              (newest h.capacity (log h ++ ((assigned text now (entry_of codec rec x) h).0 ∷ [])))
              h'
    unfolding on_ingested
    on_ingested-Holds v open_hub topic =
        let (x, e) = extract_ends rec.topic rec.payload in
        let entry = entry_of codec rec x in
        (
          x,
          (ingest text now entry h).1,
          e,
          ap (Option.map (λ y. (ingest text now (entry_of codec rec y) h).1)) e,
          taken entry (ap is_empty (topic-entry_of x) ∙ topic) open_hub
              (ingest-Ingests text now entry h v),
        )
