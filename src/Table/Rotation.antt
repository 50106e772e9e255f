-- ===== src/Table/Rotation.antt =====
-- Sealing the active segment (`flush_active_segment` of src/core/storage/table.rs). The merge of the
-- sealed segment into the exact indexes (ExactIndex) and the files of the manifest are left out; the next
-- id has no directory yet.
pub mod Sealed
use bittice.Prelude.{
  ℕ, ◌+◌, ◌%◌, ◌^◌, Bool, true, false, ◌==◌, leb, if◌then◌else◌, Option, none, some, List, [], ◌∷◌,
  ◌++◌,
}
use bittice.Bitmaps.{Roaring}
use bittice.Wal.{truncate, flush_writes}
use bittice.Segment.{
  Segment, SegmentWriter, new, new_writer, flush, persist_bitmaps, persist_deleted_bitmap,
}
use bittice.Table.{Table}

module _ {r : Roaring} where
  -- `persist_all_deleted_bitmaps`, on the sealed segments; the new active one has no deletions.
  unfoldable pub persist_all : List (Segment r) → List (Segment r)
  unfolding persist_deleted_bitmap
  persist_all [] = []
  persist_all (s ∷ ss) =
      (if r.is_empty s.deleted_bitmap then s else persist_deleted_bitmap r s) ∷ persist_all ss

  -- `persist_bitmaps`, and the segment as it is sealed.
  unfoldable pub seal : SegmentWriter r → Segment r
  unfolding persist_bitmaps
  seal w = record (persist_bitmaps r w).segment { is_immutable = true }

  -- The log is flushed, and truncated once the index has been saved.
  unfoldable pub count_flush : ℕ → Table r → Table r
  unfolding truncate flush_writes
  count_flush save_interval t =
      let count = (t.flush_count_since_index_save + 1) % 2 ^ 32 in
      if leb save_interval count
      then record t { wal = truncate (flush_writes t.wal); flush_count_since_index_save = 0 }
      else record t { wal = flush_writes t.wal; flush_count_since_index_save = count }

  unfoldable pub rotate : ℕ → SegmentWriter r → Table r → Table r
  unfolding persist_all seal count_flush new_writer new
  rotate save_interval w t =
      let counted = count_flush save_interval t in
      record counted {
        active_segment = new_writer r (new r (t.active_segment_id + 1));
        active_segment_id = t.active_segment_id + 1;
        immutable_segments = persist_all (t.immutable_segments ++ seal w ∷ []);
      }

  abbrev rotate_flushed : ℕ → Table r → Option (SegmentWriter r) → Option (Table r)
  rotate_flushed save_interval t none = none
  rotate_flushed save_interval t (some w) = some (rotate save_interval w t)

  -- The intervals are those of the environment, or 5 and 10. `none` is the panic of a zero interval.
  unfoldable pub flush_active_segment : ℕ → ℕ → Table r → Option (Table r)
  unfolding rotate flush
  flush_active_segment bitmap_interval save_interval t =
      if t.active_segment.segment.record_count == 0
      then some t
      else rotate_flushed save_interval t (flush r bitmap_interval t.active_segment)
