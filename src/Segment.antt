-- ===== src/Segment.antt =====
-- Segments (src/core/storage/segment.rs): the values of the rows by column, and for each column the
-- bitmap of the rows of each value. A value is kept as the text that the files of its column hold
-- (Column); the system calls that write and read the files succeed.
pub mod Order
pub mod Rows
pub mod Search
pub mod Skip
pub mod Cache
pub mod Cached
pub mod Files
use Prim.Native.Nat.{Ordering}
use bittice.Prelude.{
  Str, codes, bytes_eq, find, set, ℕ, ◌+◌, ◌%◌, ◌^◌, Bool, true, false, not, ◌&&◌, ◌||◌, ◌==◌,
  if◌then◌else◌, Option, none, some, List, [], ◌∷◌, ◌++◌,
}
use bittice.Bitmaps.{Roaring}
use bittice.Filter.{
  ComparisonOp, LogicalOp, and_op, or_op, Filter, StdText, str_cmp, is_less, is_greater,
  compare_values, compare_filter_value,
}

-- A row, and what a hash map of bitmaps has for a key.
abbrev pub Row : Type 0
Row = List (Str × Str)

abbrev pub ValueBitmaps : Roaring → Type 0
ValueBitmaps r = List (Str × r.Bitmap)

-- The files of the directory are `columns`, `bitmap_files` and `deleted_file`.
pub record Segment (r : Roaring) : Type 0 where
  pub id : ℕ
  pub is_immutable : Bool
  pub min_max : List (Str × (Str × Str))
  pub deleted_bitmap : r.Bitmap
  pub record_count : ℕ
  pub columns : List (Str × List Str)
  pub bitmap_files : List (Str × ValueBitmaps r)
  pub deleted_file : Option r.Bitmap

pub record SegmentWriter (r : Roaring) : Type 0 where
  pub segment : Segment r
  pub bitmaps : List (Str × ValueBitmaps r)
  pub dirty : Bool
  pub flush_count : ℕ

-- `unwrap_or_default`
abbrev pub or_nil : {A : Type 0} → Option (List A) → List A
or_nil none = []
or_nil (some xs) = xs

-- `as u32`
abbrev pub as_u32 : ℕ → ℕ
as_u32 n = n % 2 ^ 32

-- `left < right` on texts.
abbrev pub str_lt : Str → Str → Bool
str_lt left right = is_less (some (str_cmp left right))

-- `update_metadata` on the entry of the column.
unfoldable pub widen : Str → Option (Str × Str) → Str × Str
widen value none = (value, value)
widen value (some (lo, hi)) =
    (if str_lt value lo then value else lo, if str_lt hi value then value else hi)

module _ (r : Roaring) where
  unfoldable pub new : ℕ → Segment r
  new id = record {
    id = id;
    is_immutable = false;
    min_max = [];
    deleted_bitmap = r.empty;
    record_count = 0;
    columns = [];
    bitmap_files = [];
    deleted_file = none;
  }

  unfoldable pub mark_deleted : ℕ → Segment r → Segment r
  mark_deleted local_id s = record s { deleted_bitmap = r.insert local_id s.deleted_bitmap }

  unfoldable pub persist_deleted_bitmap : Segment r → Segment r
  persist_deleted_bitmap s =
      if r.is_empty s.deleted_bitmap then s else record s { deleted_file = some s.deleted_bitmap }

  unfoldable pub update_metadata : Str → Str → Segment r → Segment r
  unfolding widen
  update_metadata column value s = record s {
    min_max = set column (widen value (find column s.min_max)) s.min_max;
  }

  -- `entry(value).or_default().insert(local_id)`
  unfoldable pub add_row : ℕ → Str → ValueBitmaps r → ValueBitmaps r
  add_row local_id value m =
      set value
        (elim (find value m) [ none ↦ r.insert local_id r.empty | some b ↦ r.insert local_id b ]) m

  -- One round of the loop of `append_record`.
  unfoldable pub append_cell : ℕ → Str → Str → SegmentWriter r → SegmentWriter r
  unfolding add_row update_metadata
  append_cell local_id col val w =
      let segment = update_metadata col val w.segment in
      record w {
        segment = record segment {
          columns = set col (or_nil (find col segment.columns) ++ val ∷ []) segment.columns;
        };
        bitmaps = set col (add_row local_id val (or_nil (find col w.bitmaps))) w.bitmaps;
      }

  unfoldable pub append_cells : ℕ → Row → SegmentWriter r → SegmentWriter r
  unfolding append_cell
  append_cells local_id [] w = w
  append_cells local_id ((col, val) ∷ row) w =
      append_cells local_id row (append_cell local_id col val w)

  unfoldable pub append_record : Row → SegmentWriter r → SegmentWriter r
  unfolding append_cells
  append_record row w =
      let after = append_cells (as_u32 w.segment.record_count) row w in
      record after {
        segment = record after.segment { record_count = after.segment.record_count + 1 };
        dirty = true;
      }

  -- The file of each column's bitmaps is written anew.
  unfoldable pub write_bitmaps :
      List (Str × ValueBitmaps r) → List (Str × ValueBitmaps r) → List (Str × ValueBitmaps r)
  write_bitmaps [] files = files
  write_bitmaps ((col, m) ∷ ms) files = write_bitmaps ms (set col m files)

  -- The bitmaps that the rows of a column make, without the deleted rows: `rebuild_bitmap_from_data`,
  -- from the row `local_id` on.
  unfoldable pub rebuild_bitmap : r.Bitmap → ℕ → List Str → ValueBitmaps r → ValueBitmaps r
  unfolding add_row
  rebuild_bitmap deleted local_id [] m = m
  rebuild_bitmap deleted local_id (val ∷ vals) m =
      let kept = rebuild_bitmap deleted (local_id + 1) vals m in
      let added = rebuild_bitmap deleted (local_id + 1) vals (add_row (as_u32 local_id) val m) in
      if r.contains deleted (as_u32 local_id) then kept else added

  -- The bitmaps of a column: those of its file, if there is one.
  abbrev pub column_bitmaps : Segment r → List Str → Option (ValueBitmaps r) → ValueBitmaps r
  column_bitmaps s vals (some m) = m
  column_bitmaps s vals none = rebuild_bitmap s.deleted_bitmap 0 vals []

  abbrev pub put_bitmaps :
      Str → ValueBitmaps r → List (Str × ValueBitmaps r) → List (Str × ValueBitmaps r)
  put_bitmaps col [] ms = ms
  put_bitmaps col (x ∷ m) ms = set col (x ∷ m) ms

  -- `rehydrate_bitmaps_from_disk`, over the columns of the directory.
  unfoldable pub rehydrate :
      Segment r → List (Str × List Str) → List (Str × ValueBitmaps r) → List (Str × ValueBitmaps r)
  unfolding rebuild_bitmap
  rehydrate s [] ms = ms
  rehydrate s ((col, vals) ∷ cols) ms =
      rehydrate s cols (put_bitmaps col (column_bitmaps s vals (find col s.bitmap_files)) ms)

  -- `SegmentWriter::new`.
  unfoldable pub new_writer : Segment r → SegmentWriter r
  unfolding rehydrate
  new_writer segment = record {
    segment = segment;
    bitmaps = if segment.record_count == 0 then [] else rehydrate segment segment.columns [];
    dirty = false;
    flush_count = 0;
  }

  unfoldable pub persist_bitmaps : SegmentWriter r → SegmentWriter r
  unfolding write_bitmaps
  persist_bitmaps w = record w {
    segment = record w.segment { bitmap_files = write_bitmaps w.bitmaps w.segment.bitmap_files };
  }

  -- The body of `flush`, after its test of `dirty`.
  unfoldable pub flush_dirty : ℕ → SegmentWriter r → SegmentWriter r
  unfolding persist_bitmaps persist_deleted_bitmap
  flush_dirty interval w =
      let count = (w.flush_count + 1) % 2 ^ 32 in
      let counted = record w { segment = persist_deleted_bitmap w.segment; flush_count = count } in
      let written = if count % interval == 0 then persist_bitmaps counted else counted in
      record written { dirty = false }

  -- `flush`, where `interval` is what the environment variable says. A zero interval panics: `none`.
  unfoldable pub flush : ℕ → SegmentWriter r → Option (SegmentWriter r)
  unfolding flush_dirty
  flush interval w =
      if not w.dirty then some w else if interval == 0 then none else some (flush_dirty interval w)

-- `filters.iter().filter(|f| f.field != "?" && f.value != "?")`
unfoldable pub valid_filters : List Filter → List Filter
valid_filters [] = []
valid_filters (f ∷ fs) =
    let rest = valid_filters fs in
    if not (bytes_eq f.field (codes "?")) && not (bytes_eq f.value (codes "?"))
    then f ∷ rest
    else rest

module _ (std : StdText) where
  -- The two tests of `Between`.
  abbrev pub skip_between : Str → Str → Filter → Option Str → Bool
  skip_between min max f none = false
  skip_between min max f (some upper) =
      is_less (compare_values std max f.value f.field_type)
      || is_greater (compare_values std min upper f.field_type)

  abbrev pub skip_op : ComparisonOp → Str → Str → Filter → Bool
  skip_op ComparisonOp.eq min max f = str_lt f.value min || str_lt max f.value
  skip_op ComparisonOp.gt min max f = not (str_lt f.value max)
  skip_op ComparisonOp.gte min max f = str_lt max f.value
  skip_op ComparisonOp.lt min max f = not (str_lt min f.value)
  skip_op ComparisonOp.lte min max f = str_lt f.value min
  skip_op ComparisonOp.between min max f = skip_between min max f f.value_to
  skip_op _ min max f = false

  -- `skip`, for the entry of the field in `min_max`.
  unfoldable pub skips : Option (Str × Str) → Filter → Bool
  skips none f = false
  skips (some (min, max)) f = skip_op f.op min max f

  unfoldable pub any_skips : List (Str × (Str × Str)) → List Filter → Bool
  unfolding skips
  any_skips min_max [] = false
  any_skips min_max (f ∷ fs) = skips (find f.field min_max) f || any_skips min_max fs

  unfoldable pub filter_accepts : Filter → Str → Bool
  filter_accepts f key =
      compare_filter_value std key f.op f.value f.value_to f.value_options f.field_type

  -- `filter.op == ComparisonOp::Eq`
  abbrev pub is_eq_op : ComparisonOp → Bool
  is_eq_op ComparisonOp.eq = true
  is_eq_op _ = false

  module _ (r : Roaring) where
    -- The loop over the bitmaps of a column.
    unfoldable pub union_matches : Filter → ValueBitmaps r → r.Bitmap → r.Bitmap
    unfolding filter_accepts
    union_matches f [] acc = acc
    union_matches f ((key, bitmap) ∷ m) acc =
        let taken = union_matches f m (r.union acc bitmap) in
        let passed = union_matches f m acc in if filter_accepts f key then taken else passed

    unfoldable pub bitmap_matches_for_filter : ValueBitmaps r → Filter → r.Bitmap
    unfolding union_matches
    bitmap_matches_for_filter m f =
        let all = union_matches f m r.empty in
        if is_eq_op f.op then elim (find f.value m) [ none ↦ all | some bitmap ↦ bitmap ] else all

    abbrev pub combine : LogicalOp → r.Bitmap → r.Bitmap → r.Bitmap
    combine and_op a b = r.intersection a b
    combine or_op a b = r.union a b

    -- The filters after the first, on the result so far.
    unfoldable pub search_rest :
        LogicalOp → List (Str × ValueBitmaps r) → List Filter → r.Bitmap → r.Bitmap
    unfolding bitmap_matches_for_filter
    search_rest op bitmaps [] result = result
    search_rest op bitmaps (f ∷ fs) result =
        search_rest op bitmaps fs
          (combine op result (bitmap_matches_for_filter (or_nil (find f.field bitmaps)) f))

    -- `if !deleted_bitmap.is_empty() { result -= deleted_bitmap }`
    unfoldable pub less_deleted : Segment r → r.Bitmap → r.Bitmap
    less_deleted s result =
        if r.is_empty s.deleted_bitmap then result else r.difference result s.deleted_bitmap

    unfoldable pub search_valid :
        LogicalOp → Segment r → List (Str × ValueBitmaps r) → List Filter → r.Bitmap
    unfolding search_rest less_deleted any_skips bitmap_matches_for_filter
    search_valid op s bitmaps [] = less_deleted s (r.range (as_u32 s.record_count))
    search_valid op s bitmaps (f ∷ fs) =
        if any_skips s.min_max (f ∷ fs)
        then r.empty
        else less_deleted s (
            search_rest op bitmaps fs (bitmap_matches_for_filter (or_nil (find f.field bitmaps)) f))

    -- `SegmentWriter::search`, on the bitmaps in memory.
    unfoldable pub search : List Filter → LogicalOp → SegmentWriter r → r.Bitmap
    unfolding search_valid valid_filters
    search filters op w = search_valid op w.segment w.bitmaps (valid_filters filters)
