-- ===== src/Table/Flush.antt =====
-- Reading a row flushes the writer's buffers, with the tombstones (src/core/storage/table.rs).
use mathlib.Core.Path.{subst}
use bittice.Prelude.{
  is_nil, Str, ℕ, ◌≡◌, refl, sym, ◌↔◌, ◌==◌, ◌&&◌, Bool, true, false, Option, none, some, lookup,
  if◌then◌else◌, inl, inr, Bool-cases,
}
use bittice.Bitmaps.{Roaring, IsRoaring}
use bittice.Canonical.{Text}
use bittice.PrimaryIndex.{Location, get}
use bittice.Segment.{persist_deleted_bitmap}
use bittice.Table.{
  Table, pk_columns, read_value, segment_of, flush_buffers, found_row, get_row_as_map,
}
use bittice.Table.Live.{live_in-same, live_hash, IsTable}

module _ (text : Text) (uuid : Str) {r : Roaring} (laws : IsRoaring r) (fields : Str → Bool)
    (t : Table r) (v : IsTable text uuid fields t) where
  -- A table that has the index and the keys of `t`, and the rows too.
  pub record IsSame (t' : Table r) : Type 0 where
    pub valid : IsTable text uuid fields t'
    pub index : t'.primary_index ≡ t.primary_index
    pub keys : pk_columns t' ≡ pk_columns t
    pub count : t'.active_segment.segment.record_count ≡ t.active_segment.segment.record_count

  pub t-IsSame : IsSame t
  t-IsSame = record { valid = v; index = refl; keys = refl; count = refl }

  abbrev with_file : Option r.Bitmap → Table r
  with_file d = record t {
    active_segment = record t.active_segment {
      segment = record t.active_segment.segment { deleted_file = d };
    };
  }

  live_hash-with_file :
      (d : Option r.Bitmap) (loc : Location)
      → live_hash text uuid (with_file d) loc ≡ live_hash text uuid t loc
  unfolding segment_of pk_columns read_value
  live_hash-with_file d (seg_id, i) = elim (Bool-cases (t.active_segment.segment.id == seg_id)) [
    | inl here ↦ rw here (
        live_in-same text uuid laws (pk_columns t)
          (record t.active_segment.segment { deleted_file = d }) t.active_segment.segment i refl
          refl (λ c. refl))
    | inr other ↦ rw other refl
  ]

  with_file-IsSame : (d : Option r.Bitmap) → IsSame (with_file d)
  unfolding pk_columns
  with_file-IsSame d = record {
    valid = record {
      indexed = record { count = v.indexed.count; columns = v.indexed.columns };
      keyed = v.keyed;
      marked = v.marked;
      synced = λ h loc.
          subst (λ live. (lookup h t.primary_index.inner ≡ some loc) ↔ (live ≡ some h))
            (sym (live_hash-with_file d loc)) (v.synced h loc);
    };
    index = refl;
    keys = refl;
    count = refl;
  }

  flush_buffers-IsSame : (seg_id : ℕ) → IsSame (flush_buffers seg_id t)
  unfolding flush_buffers persist_deleted_bitmap
  flush_buffers-IsSame seg_id =
      flushed ((t.active_segment.segment.id == seg_id) && t.active_segment.dirty)
        (r.is_empty t.active_segment.segment.deleted_bitmap)
    where
      flushed :
          (b e : Bool)
          → IsSame (
              if b
              then record t {
                active_segment = record t.active_segment {
                  segment =
                      if e then t.active_segment.segment else record t.active_segment.segment {
                        deleted_file = some t.active_segment.segment.deleted_bitmap;
                      };
                };
              }
              else t)
      flushed true true = t-IsSame
      flushed true false = with_file-IsSame (some t.active_segment.segment.deleted_bitmap)
      flushed false e = t-IsSame

  -- reading a row changes no row, and neither the index
  pub get_row_as_map-IsSame : (uuid_read pk : Str) → IsSame (get_row_as_map text uuid_read pk t).1
  unfolding get_row_as_map
  get_row_as_map-IsSame uuid_read pk = found (get text t.primary_index pk)
    where
      found : (loc : Option Location) → IsSame (found_row text uuid_read t pk loc).1
      found none = t-IsSame
      found (some (seg_id, i)) = elim (Bool-cases (is_nil t.original_fields)) [
        | inl no_fields ↦ rw no_fields t-IsSame
        | inr some_fields ↦ rw some_fields (flush_buffers-IsSame seg_id)
      ]
