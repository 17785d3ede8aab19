-- ===== src/Storage/Appending.antt =====
-- storage_file.go: the index after a write of Append that went well, and after a rollback.
use mathlib.Core.List.{append_assoc}
use walspool.Base.{
  ℕ, ◌+◌, ◌<◌, ◌≡◌, ◌≢◌, refl, sym, ap, ◌∙◌, inl, inr, true, List, [], ◌∷◌, ◌++◌, none, some, Bytes,
  length, take, length-append, drop_append, take_all, arith, max_log,
}
use walspool.Record.{Record, body, checksum_ieee, slice}
use walspool.Record.Layout.{IsWire, frame}
use walspool.Storage.{OffsetPos}
use walspool.Storage.Files.{get, or_empty, segment}
use walspool.Storage.State.{FileStorage, segment_path}
use walspool.Storage.Operations.{with_file, index_append}
use walspool.Storage.Index.{
  Kept, AllKept-append, Counted-append, InPlace, Before, Ordered-append, All-append, All-map,
}
use walspool.Storage.Invariant.{
  active_bytes, content, content_active, Holds, IsFresh, AllKept-change, Agree-front, name-other,
  name-later,
}
use walspool.Storage.Writer.{Outcome}
use walspool.Storage.Writer.Moves.{IsAtEnd, Moves}

-- A record as a read gives it back: with its offset and the checksum of its encoding.
abbrev pub read_back : ℕ → Record → Record
read_back offset r = record r { offset = offset; checksum = checksum_ieee (body r) }

abbrev pub entry_at : ℕ → ℕ → FileStorage → OffsetPos
entry_at offset size f = record {
  offset = offset;
  seg_base = f.active_seg_base;
  pos = f.write_pos;
  size = size;
}

-- After a call on the active file.
module _ (f : FileStorage) (rs : List Record) (H : Holds f rs) (given : Bytes) (o : Outcome)
    (m : Moves H.bytes given H.file f.disk o) where
  abbrev x : Bytes
  x = H.bytes ++ H.file.buffer

  pub others_kept :
      (base : ℕ)
      → base ≢ f.active_seg_base
      → get (segment_path f base) o.2 ≡ get (segment_path f base) f.disk
  others_kept base ne =
      m.others (segment_path f base)
        (rw (H.named) (name-other f f.active_seg_base base (λ e. ne (sym e))))

  pub none_later : (b : ℕ) → f.active_seg_base < b → get (segment b) o.2 ≡ none
  none_later b h =
      m.others (segment b) (rw (H.named) (name-later f f.active_seg_base b h)) ∙ H.none_behind b h

  -- The bytes of the file and its buffer, when the call went well.
  pub grown : o.0 ≡ true → (H.bytes ++ m.gone) ++ o.1.buffer ≡ x ++ given
  grown good = rw ((m.whole good).0) (
      append_assoc H.bytes m.gone m.left
      ∙ ap (λ b. H.bytes ++ b) m.split
      ∙ sym (append_assoc H.bytes H.file.buffer given))

  pub ready' : o.0 ≡ true → IsAtEnd (H.bytes ++ m.gone) o.1 o.2
  ready' good = record {
    there = rw (m.name_kept) (m.here);
    at_end = m.at_end;
    sound = (m.whole good).1;
  }

  -- The record is in the index.
  module _ (r : Record) (w : IsWire r) (enc : given ≡ frame r) (good : o.0 ≡ true)
      (room : f.base_offset + length f.records < max_log) where
    abbrev at : ℕ
    at = f.base_offset + length f.records

    abbrev e : OffsetPos
    e = entry_at at (length given) f

    abbrev x' : Bytes
    x' = (H.bytes ++ m.gone) ++ o.1.buffer

    entry_whole : slice (length x) (length given) x' ≡ frame r
    entry_whole =
        rw (grown good) (
          ap (take (length given)) (drop_append (length x) x given refl)
          ∙ take_all (length given) given (omega arith))
        ∙ enc

    new_length : length x' ≡ length x + length given
    new_length = rw (grown good) (length-append x given)

    last-Kept : Kept (content f.active_seg_base (segment_path f) o.2 x') e (read_back at r)
    unfolding body
    last-Kept = record {
      file = x';
      held = content_active f.active_seg_base (segment_path f) o.2 x';
      inside = omega (arith, H.position, new_length);
      whole = rw (H.position) entry_whole;
      sized = ap length enc;
      wire = record {
        id_word = w.id_word;
        time_word = w.time_word;
        topic_fits = w.topic_fits;
        payload_fits = w.payload_fits;
      };
      sum = refl;
      numbered = refl;
    }

    widened :
        (x : OffsetPos)
        → InPlace f.active_seg_base f.write_pos x
        → InPlace f.active_seg_base (f.write_pos + length given) x
    widened x (inl (here, inside, low)) = inl (here, omega arith, low)
    widened x (inr p) = inr p

    is_last : (x : OffsetPos) → InPlace f.active_seg_base f.write_pos x → Before x e
    is_last x (inl (here, inside, low)) = inr (here, inside)
    is_last x (inr (before, low)) = inl before

    one_more : length (f.records ++ (e ∷ [])) ≡ length f.records + 1
    one_more = length-append f.records (e ∷ [])

    pub indexed-Holds :
        (rec : Record)
        → Holds
            (index_append rec at (length given) (with_file o.1 o.2 f)).1
            (rs ++ (read_back at r ∷ []))
    unfolding index_append segment_path
    indexed-Holds rec = record {
      file = o.1;
      bytes = H.bytes ++ m.gone;
      is_open = H.is_open;
      file_open = H.file_open;
      opened = refl;
      named = m.name_kept ∙ H.named;
      ready = ready' good;
      position = omega (arith, H.position, new_length);
      kept =
          AllKept-append _ f.records rs e (read_back at r)
            (AllKept-change f.active_seg_base (segment_path f) f.disk o.2 x x' (length x) f.records
              rs others_kept (Agree-front x given x' (grown good)) (rw (H.position) at H.placed)
              H.kept)
            last-Kept;
      counted = Counted-append f.base_offset f.records e H.counted refl;
      placed =
          All-append _ f.records e (All-map _ _ f.records widened H.placed)
            (inl (refl, omega arith, H.active_low));
      ordered = Ordered-append f.records e (All-map _ _ f.records is_last H.placed) H.ordered;
      active_low = omega (arith, H.active_low, one_more);
      small = omega (arith, one_more, room);
      checkpoint_low = H.checkpoint_low;
      checkpoint_high = omega (arith, H.checkpoint_high, one_more);
      none_behind = none_later;
    }

    pub indexed-IsFresh :
        (rec : Record) → IsFresh (index_append rec at (length given) (with_file o.1 o.2 f)).1
    unfolding index_append
    indexed-IsFresh rec = inr (omega (arith, H.active_low, one_more))

    -- The bytes of the record stand behind those of the segment.
    pub indexed-bytes :
        (rec : Record)
        → active_bytes (index_append rec at (length given) (with_file o.1 o.2 f)).1 (some o.1)
          ≡ active_bytes f (some H.file) ++ given
    unfolding index_append
    indexed-bytes rec = rw (m.name_kept, ap or_empty m.here, ap or_empty H.ready.there) (grown good)
