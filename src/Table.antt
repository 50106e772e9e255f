-- ===== src/Table.antt =====
-- Tables (src/core/storage/table.rs): rows in an active segment and in sealed ones, a log, and the index
-- from primary keys to rows. Rows are read from the files after the writer's buffers have been flushed.
pub mod Keys
pub mod Rows
pub mod Live
pub mod Tombstone
pub mod Insert
pub mod Flush
pub mod Changes
pub mod Updates
pub mod Removal
pub mod Deletes
pub mod Recovery
pub mod Rotation
use bittice.Prelude.{
  is_nil, Str, codes, bytes_eq, find, set, ℕ, zero, suc, ◌+◌, Bool, true, false, not, ◌&&◌, ◌||◌,
  ◌==◌, ltb, if◌then◌else◌, Option, none, some, List, [], ◌∷◌, ◌++◌, length, get_elem?, Result, ok,
  ◌>>=◌,
}
use bittice.Bitmaps.{Roaring}
use bittice.Canonical.{Text, canonical_bytes}
use bittice.Snapshot.Codec.{Bincode}
use bittice.Wal.{WalOperation, WalError, Wal, append}
use bittice.PrimaryIndex.{PrimaryIndex, Location, insert_key, get, remove_key}
use bittice.Segment.{
  Row, Segment, SegmentWriter, or_nil, as_u32, mark_deleted, persist_deleted_bitmap, append_record,
}
use bittice.Filter.{is_empty_str}

-- `active_segment` is `Some` between the calls of the program. The other fields of the struct are not
-- read by the operations here.
pub record Table (r : Roaring) : Type 0 where
  pub active_segment : SegmentWriter r
  pub immutable_segments : List (Segment r)
  pub wal : Wal
  pub primary_index : PrimaryIndex
  pub primary_key_columns : List Str
  pub primary_key : Str
  pub original_fields : List Str
  pub active_segment_id : ℕ
  pub flush_count_since_index_save : ℕ

-- `serde_json` on rows, and the text of a fresh UUID.
pub record Json : Type 0 where
  pub to_vec : Row → List ℕ
  pub from_slice : List ℕ → Row

abbrev pub or_empty : Option Str → Str
or_empty none = []
or_empty (some s) = s

-- `cols.len() == 1 && cols[0] == "PK"`
abbrev pub is_pk : List Str → Bool
is_pk [] = false
is_pk (c ∷ []) = bytes_eq c (codes "PK")
is_pk (c ∷ d ∷ cs) = false

-- `.join("\u{1f}")`
unfoldable pub join : List Str → Str
join [] = []
join (s ∷ []) = s
join (s ∷ s' ∷ ss) = s ++ (31 ∷ join (s' ∷ ss))

-- Equality of hash maps: as many entries, and every entry of one is in the other.
abbrev pub same_value : Str → Option Str → Bool
same_value v none = false
same_value v (some w) = bytes_eq w v

abbrev pub all_in : Row → Row → Bool
all_in [] other = true
all_in ((k, v) ∷ row) other = same_value v (find k other) && all_in row other

unfoldable pub row_eq : Row → Row → Bool
row_eq a b = (length a == length b) && all_in a b

-- `matches!(&existing, Some(map) if *map == row_data)`
abbrev pub is_same_row : Option Row → Row → Bool
is_same_row none row = false
is_same_row (some map) row = row_eq map row

module _ {r : Roaring} where
  unfoldable pub pk_columns : Table r → List Str
  pk_columns t =
      if not (is_nil t.primary_key_columns)
      then t.primary_key_columns
      else if is_empty_str t.primary_key || bytes_eq t.primary_key (codes "PK")
      then codes "PK" ∷ []
      else t.primary_key ∷ []

  -- The value of the row in the files of the column, or the empty text where they are missing or hold
  -- fewer values. On the bytes of the files this is `read_value_from_mmap`, of which Column.Cells speaks.
  unfoldable pub read_value : Segment r → ℕ → Str → Str
  read_value s local_id col = or_empty (get_elem? (or_nil (find col s.columns)) local_id)

module _ (text : Text) where
  -- `cols.iter().map(|c| row.get(c).map(nfc).unwrap_or_default())`
  unfoldable pub pk_parts : Row → List Str → List Str
  pk_parts row [] = []
  pk_parts row (c ∷ cols) =
      elim (find c row) [ none ↦ [] | some v ↦ text.nfc v ] ∷ pk_parts row cols

  -- `Table::row_pk_value`, for the columns of the table. `uuid` is what `Uuid::new_v4` gives.
  unfoldable pub row_pk_value : Str → List Str → Row → Str
  unfolding pk_parts join
  row_pk_value uuid cols row =
      if is_pk cols
      then elim (find (codes "PK") row) [ none ↦ uuid | some v ↦ v ]
      else join (pk_parts row cols)

  -- The first loop of `insert`.
  unfoldable pub normalize_keys : List Str → Row → Row
  normalize_keys [] row = row
  normalize_keys (c ∷ cols) row = normalize_keys cols (elim (find c row) [
    | none ↦ row
    | some v ↦ if bytes_eq (text.nfc v) v then row else set c (text.nfc v) row
  ])

module _ {r : Roaring} where
  -- `pk_cols.iter().zip(vals)` collected into a map.
  unfoldable pub key_row : Segment r → ℕ → List Str → Row → Row
  unfolding read_value
  key_row s local_id [] row = row
  key_row s local_id (c ∷ cols) row = key_row s local_id cols (set c (read_value s local_id c) row)

  -- `vals.into_iter().next()`, or the key of the row.
  unfoldable pub resolve_row_pk : Text → Str → List Str → Segment r → ℕ → Option Str
  unfolding key_row row_pk_value read_value
  resolve_row_pk text uuid [] s local_id = none
  resolve_row_pk text uuid (c ∷ cols) s local_id =
      if is_pk (c ∷ cols)
      then some (read_value s local_id c)
      else some (row_pk_value text uuid (c ∷ cols) (key_row s local_id (c ∷ cols) []))

  unfoldable pub mark_and_persist : ℕ → Segment r → Segment r
  unfolding mark_deleted persist_deleted_bitmap
  mark_and_persist local_id s = persist_deleted_bitmap r (mark_deleted r local_id s)

  -- `immutable_segments.iter_mut().find(|s| s.id == seg_id)`, and the row of it marked.
  unfoldable pub mark_sealed : ℕ → ℕ → List (Segment r) → List (Segment r)
  unfolding mark_and_persist
  mark_sealed seg_id local_id [] = []
  mark_sealed seg_id local_id (s ∷ ss) =
      if s.id == seg_id
      then mark_and_persist local_id s ∷ ss
      else s ∷ mark_sealed seg_id local_id ss

  -- The tombstone that `insert`, `delete` and `replay_wal` write at a location.
  unfoldable pub tombstone : Location → Table r → Table r
  unfolding mark_sealed mark_and_persist
  tombstone (seg_id, local_id) t =
      if t.active_segment.segment.id == seg_id
      then record t {
        active_segment = record t.active_segment {
          segment = mark_and_persist local_id t.active_segment.segment;
        };
      }
      else record t { immutable_segments = mark_sealed seg_id local_id t.immutable_segments }

  -- The segment of an id: the active one, or a sealed one.
  unfoldable pub find_sealed : ℕ → List (Segment r) → Option (Segment r)
  find_sealed seg_id [] = none
  find_sealed seg_id (s ∷ ss) = if s.id == seg_id then some s else find_sealed seg_id ss

  unfoldable pub segment_of : ℕ → Table r → Option (Segment r)
  unfolding find_sealed
  segment_of seg_id t =
      if t.active_segment.segment.id == seg_id
      then some t.active_segment.segment
      else find_sealed seg_id t.immutable_segments

  -- `flush_buffers`, on the tombstones.
  unfoldable pub flush_buffers : ℕ → Table r → Table r
  unfolding persist_deleted_bitmap
  flush_buffers seg_id t =
      let w = t.active_segment in
      if (w.segment.id == seg_id) && w.dirty
      then record t { active_segment = record w { segment = persist_deleted_bitmap r w.segment } }
      else t

  -- `get_rows_batch` for one row, with the names of the fields: `map.insert(f, value)` for each.
  abbrev pub read_found : Option (Segment r) → ℕ → Str → Str
  read_found none local_id f = []
  read_found (some s) local_id f = read_value s local_id f

  unfoldable pub read_row : Option (Segment r) → ℕ → List Str → Row → Row
  unfolding read_value
  read_row s local_id [] row = row
  read_row s local_id (f ∷ fs) row = read_row s local_id fs (set f (read_found s local_id f) row)

  -- `canonical_bytes(&actual_pk) != canonical_bytes(pk_val)`
  unfoldable pub verified : Text → Str → Table r → Str → Row → Option Row
  unfolding row_pk_value
  verified text uuid t pk map =
      if bytes_eq (canonical_bytes text (row_pk_value text uuid (pk_columns t) map))
        (canonical_bytes text pk)
      then some map
      else none

  abbrev pub found_row : Text → Str → Table r → Str → Option Location → Option Row × Table r
  found_row text uuid t pk none = (none, t)
  found_row text uuid t pk (some (seg_id, local_id)) =
      let flushed = flush_buffers seg_id t in
      let map = read_row (segment_of seg_id flushed) local_id t.original_fields [] in
      if is_nil t.original_fields then (none, t) else (verified text uuid t pk map, flushed)

  unfoldable pub get_row_as_map : Text → Str → Str → Table r → Option Row × Table r
  unfolding flush_buffers segment_of read_row verified
  get_row_as_map text uuid pk t = found_row text uuid t pk (get text t.primary_index pk)

module _ {r : Roaring} (text : Text) (codec : Bincode WalOperation) where
  abbrev pub with_wal : Table r → Wal → Table r
  with_wal t w = record t { wal = w }

  -- `delete`, after `primary_index.remove`.
  unfoldable pub delete_at : Str → Table r → Option Location → Result WalError (Table r)
  unfolding tombstone
  delete_at id t none = ok t
  delete_at id t (some (seg_id, local_id)) = do
    w ← append codec t.wal (WalOperation.delete id seg_id local_id)
    ok (tombstone (seg_id, local_id) (with_wal t w))

  unfoldable pub delete : Str → Table r → Result WalError (Table r)
  unfolding delete_at
  delete id t =
      let (index, loc) = remove_key text t.primary_index id in
      delete_at id (record t { primary_index = index }) loc

module _ {r : Roaring} (text : Text) (codec : Bincode WalOperation) (json : Json) where
  -- The end of `insert`: the log, the row, and the index.
  unfoldable pub append_row : Str → Row → Table r → Result WalError (Table r)
  unfolding append_record
  append_row id row t = do
    w ← append codec t.wal (WalOperation.insert id (json.to_vec row))
    let local_id = as_u32 t.active_segment.segment.record_count
    let written = append_record r row t.active_segment
    ok (record t {
      wal = w;
      active_segment = written;
      primary_index = (insert_key text t.primary_index id (written.segment.id, local_id)).0;
    })

  -- The idempotency guard: `existing` is what `get_row_as_map` has read.
  unfoldable pub replace_row :
      Str → Row → Location → Option Row × Table r → Result WalError (Table r)
  unfolding append_row tombstone
  replace_row id row loc (existing, t) =
      if is_same_row existing row then ok t else append_row id row (tombstone loc t)

  unfoldable pub insert_at : Str → Str → Row → Table r → Option Location → Result WalError (Table r)
  unfolding append_row replace_row get_row_as_map
  insert_at uuid id row t none = append_row id row t
  insert_at uuid id row t (some loc) = replace_row id row loc (get_row_as_map text uuid id t)

  -- `uuid` and `uuid_read` are what the calls of `Uuid::new_v4` in `row_pk_value` give.
  unfoldable pub insert : Str → Str → Row → Table r → Result WalError (Table r)
  unfolding insert_at normalize_keys row_pk_value pk_columns
  insert uuid uuid_read row_data t =
      let row = normalize_keys text (pk_columns t) row_data in
      let id = row_pk_value text uuid (pk_columns t) row in
      insert_at uuid_read id row t (get text t.primary_index id)
