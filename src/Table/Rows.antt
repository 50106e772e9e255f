-- ===== src/Table/Rows.antt =====
-- What appending a row to the active segment changes of what is read (src/core/storage/table.rs).
use bittice.Prelude.{
  Str, find, ℕ, ◌^◌, ◌<◌, ◌≡◌, refl, sym, ap, ◌∙◌, ==_refl, Bool, true, if◌then◌else◌, some, [],
  ◌∷◌, ◌++◌, get_elem?, length, arith, inl, inr, Bool-cases,
}
use bittice.Bitmaps.{Roaring}
use bittice.Segment.{Row, SegmentWriter, append_record}
use bittice.Segment.Rows.{
  IsIndexed, HasFields, ColumnState, column_of, column_of-append_record, add_found, get_elem?-snoc,
}
use bittice.Table.{read_value, or_empty}

module _ {r : Roaring} (fields : Str → Bool) (row : Row) (w : SegmentWriter r)
    (v : IsIndexed r fields w) (has : HasFields fields row)
    (room : w.segment.record_count < 2 ^ 32) where
  -- the values of a column after the row
  values-append :
      (col : Str)
      → (column_of (append_record r row w) col).values
        ≡ (add_found w.segment.record_count (find col row) (column_of w col)).values
  values-append col =
      ap (λ (c : ColumnState r). c.values) (column_of-append_record col row w has.distinct room)

  size : (col : Str) → fields col ≡ true → length (column_of w col).values ≡ w.segment.record_count
  size col known = (v.columns col).size ∙ ap (λ b. if b then w.segment.record_count else 0) known

  grown :
      (col value : Str)
      → find col row ≡ some value
      → (column_of (append_record r row w) col).values ≡ (column_of w col).values ++ value ∷ []
  grown col value at =
      values-append col ∙ ap (λ o. (add_found w.segment.record_count o (column_of w col)).values) at

  -- the new row has the values of `row`
  pub read_value-append_new :
      (col : Str)
      → fields col ≡ true
      → find col row ≡ some (read_value (append_record r row w).segment w.segment.record_count col)
  unfolding read_value
  read_value-append_new col known =
      let (value, at) = has.present col known in
      let vs = (column_of w col).values in
      let last : get_elem? (vs ++ value ∷ []) w.segment.record_count ≡ some value =
        get_elem?-snoc vs value w.segment.record_count
        ∙ rw (size col known, ==_refl w.segment.record_count) refl in
      at
      ∙ ap some (
          sym (
            ap (λ xs. or_empty (get_elem? xs w.segment.record_count)) (grown col value at)
            ∙ ap or_empty last))

  -- the other rows have the values that they had
  pub read_value-append_old :
      (i : ℕ) (col : Str)
      → i < w.segment.record_count
      → read_value (append_record r row w).segment i col ≡ read_value w.segment i col
  unfolding read_value
  read_value-append_old i col below = elim (Bool-cases (fields col)) [
    | inl known ↦
        let (value, at) = has.present col known in
        let vs = (column_of w col).values in
        let kept : get_elem? (vs ++ value ∷ []) i ≡ get_elem? vs i =
          get_elem?-snoc vs value i ∙ ground (arith, size col known, below) in
        ap (λ xs. or_empty (get_elem? xs i)) (grown col value at) ∙ ap or_empty kept
    | inr unknown ↦
        ap (λ vs. or_empty (get_elem? vs i))
          (values-append col
            ∙ ap (λ o. (add_found w.segment.record_count o (column_of w col)).values)
                (has.absent col unknown))
  ]
