-- ===== src/Segment/Rows/Appended.antt =====
-- The columns and the counters of a segment after a row (src/core/storage/segment.rs).
use bittice.Prelude.{
  Str, bytes_eq, bytes_eq→eq, bytes_eq_refl, find, find-set, HasDistinctKeys, ℕ, ◌+◌, ◌^◌, ◌<◌, ◌≡◌,
  refl, sym, ap, ◌∙◌, false, if◌then◌else◌, Option, none, some, [], ◌∷◌, ◌++◌, inl, inr, Bool-cases,
}
use bittice.Bitmaps.{Roaring}
use bittice.Segment.{
  Row, SegmentWriter, or_nil, as_u32, widen, add_row, append_cell, append_cells, append_record,
  update_metadata,
}
use bittice.Segment.Rows.Indexed.{ColumnState, column_of, as_u32_small}

module _ {r : Roaring} where
  -- A cell, added to its column.
  abbrev pub add_cell : ℕ → Str → ColumnState r → ColumnState r
  add_cell n value c = record {
    values = c.values ++ value ∷ [];
    bitmaps = add_row r n value c.bitmaps;
    range = some (widen value c.range);
  }

  column_of-same :
      (n : ℕ) (col value : Str) (w : SegmentWriter r)
      → column_of (append_cell r n col value w) col ≡ add_cell n value (column_of w col)
  unfolding append_cell update_metadata
  column_of-same n col value w =
      rw
        (
          find-set col col (or_nil (find col w.segment.columns) ++ value ∷ []) w.segment.columns,
          find-set col col (add_row r n value (or_nil (find col w.bitmaps))) w.bitmaps,
          find-set col col (widen value (find col w.segment.min_max)) w.segment.min_max,
          bytes_eq_refl col,
        )
        refl

  column_of-other :
      (n : ℕ) (c col value : Str) (w : SegmentWriter r)
      → bytes_eq c col ≡ false
      → column_of (append_cell r n c value w) col ≡ column_of w col
  unfolding append_cell update_metadata
  column_of-other n c col value w other =
      rw
        (
          find-set c col (or_nil (find c w.segment.columns) ++ value ∷ []) w.segment.columns,
          find-set c col (add_row r n value (or_nil (find c w.bitmaps))) w.bitmaps,
          find-set c col (widen value (find c w.segment.min_max)) w.segment.min_max,
          other,
        )
        refl

  -- a row adds its value of a column to the column
  abbrev pub add_found : ℕ → Option Str → ColumnState r → ColumnState r
  add_found n none c = c
  add_found n (some value) c = add_cell n value c

  column_of-append_cells :
      (n : ℕ) (col : Str) (row : Row) (w : SegmentWriter r)
      → HasDistinctKeys row
      → column_of (append_cells r n row w) col ≡ add_found n (find col row) (column_of w col)
  unfolding append_cells find
  column_of-append_cells n col [] w d = refl
  column_of-append_cells n col ((c, value) ∷ row) w (HasDistinctKeys.one_more fresh d) =
      elim (Bool-cases (bytes_eq c col)) [
        | inl same ↦
            column_of-append_cells n col row (append_cell r n c value w) d
            ∙ ap (λ k. add_found n (find k row) (column_of (append_cell r n c value w) k))
                (sym (bytes_eq→eq c col same))
            ∙ ap (λ o. add_found n o (column_of (append_cell r n c value w) c)) fresh
            ∙ column_of-same n c value w
            ∙ ap (λ k. add_cell n value (column_of w k)) (bytes_eq→eq c col same)
            ∙ ap (λ b. add_found n (if b then some value else find col row) (column_of w col))
                (sym same)
        | inr other ↦
            column_of-append_cells n col row (append_cell r n c value w) d
            ∙ ap (add_found n (find col row)) (column_of-other n c col value w other)
            ∙ ap (λ b. add_found n (if b then some value else find col row) (column_of w col))
                (sym other)
      ]

  count-append_cells :
      (n : ℕ) (row : Row) (w : SegmentWriter r)
      → (append_cells r n row w).segment.record_count ≡ w.segment.record_count
  unfolding append_cells append_cell update_metadata
  count-append_cells n [] w = refl
  count-append_cells n ((c, value) ∷ row) w = count-append_cells n row (append_cell r n c value w)

  deleted-append_cells :
      (n : ℕ) (row : Row) (w : SegmentWriter r)
      → (append_cells r n row w).segment.deleted_bitmap ≡ w.segment.deleted_bitmap
  unfolding append_cells append_cell update_metadata
  deleted-append_cells n [] w = refl
  deleted-append_cells n ((c, value) ∷ row) w =
      deleted-append_cells n row (append_cell r n c value w)

  id-append_cells :
      (n : ℕ) (row : Row) (w : SegmentWriter r) → (append_cells r n row w).segment.id ≡ w.segment.id
  unfolding append_cells append_cell update_metadata
  id-append_cells n [] w = refl
  id-append_cells n ((c, value) ∷ row) w = id-append_cells n row (append_cell r n c value w)

  module _ (row : Row) (w : SegmentWriter r) where
    pub count-append_record :
        (append_record r row w).segment.record_count ≡ w.segment.record_count + 1
    unfolding append_record
    count-append_record = ap (λ n. n + 1) (count-append_cells (as_u32 w.segment.record_count) row w)

    pub deleted-append_record :
        (append_record r row w).segment.deleted_bitmap ≡ w.segment.deleted_bitmap
    unfolding append_record
    deleted-append_record = deleted-append_cells (as_u32 w.segment.record_count) row w

    pub id-append_record : (append_record r row w).segment.id ≡ w.segment.id
    unfolding append_record
    id-append_record = id-append_cells (as_u32 w.segment.record_count) row w

  pub column_of-append_record :
      (col : Str) (row : Row) (w : SegmentWriter r)
      → HasDistinctKeys row
      → w.segment.record_count < 2 ^ 32
      → column_of (append_record r row w) col
        ≡ add_found w.segment.record_count (find col row) (column_of w col)
  unfolding append_record
  column_of-append_record col row w distinct room =
      column_of-append_cells (as_u32 w.segment.record_count) col row w distinct
      ∙ ap (λ n. add_found n (find col row) (column_of w col))
          (as_u32_small w.segment.record_count room)
