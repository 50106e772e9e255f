-- ===== src/Segment/Rows.antt =====
-- What `append_record` does to each column of a segment (src/core/storage/segment.rs).
mod Indexed
mod Appended
use mathlib.Core.Path.{subst}
use bittice.Prelude.{
  Str, bytes_eq, bytes_eq_iff, bytes_eq→eq, bytes_eq_refl, find, find-set, HasDistinctKeys,
  set-HasDistinctKeys, ℕ, zero, suc, ◌+◌, ◌^◌, ◌≤◌, ◌<◌, ◌≡◌, refl, sym, ap, ◌∙◌, ◌↔◌, Bool, true,
  false, ◌&&◌, ◌||◌, ◌==◌, ==_iff, if◌then◌else◌, Option, none, some, List, [], ◌∷◌, ◌++◌, length,
  length-append, get_elem?, arith, inl, inr, Bool-cases,
}
use bittice.Bitmaps.{Roaring, IsRoaring}
use bittice.Segment.{
  Row, ValueBitmaps, SegmentWriter, or_nil, as_u32, widen, add_row, append_cell, append_cells,
  append_record, update_metadata, new_writer, new,
}
use bittice.Segment.Order.{Within, widen-Within, widen-Within_old}
pub use Indexed.{
  ColumnState, column_of, as_u32_small, in_found, has_row, IsColumn, IsIndexed, HasFields,
  get_elem?-snoc, get_elem?-out,
}
pub use Appended.{
  add_cell, add_found, column_of-append_record, count-append_record, deleted-append_record,
  id-append_record,
}

module _ {r : Roaring} where
  module _ (laws : IsRoaring r) where
    contains-insert_found :
        (n i : ℕ) (found : Option r.Bitmap)
        → r.contains (elim found [ none ↦ r.insert n r.empty | some b ↦ r.insert n b ]) i
          ≡ ((n == i) || in_found r found i)
    contains-insert_found n i none =
        rw (laws.contains-insert n i r.empty, laws.contains-empty i) refl
    contains-insert_found n i (some b) = laws.contains-insert n i b

    pub has_row-add_row :
        (n : ℕ) (value other : Str) (m : ValueBitmaps r) (i : ℕ)
        → has_row r (add_row r n value m) other i
          ≡ ((bytes_eq value other && (n == i)) || has_row r m other i)
    unfolding add_row
    has_row-add_row n value other m i =
        let added : r.Bitmap = elim (find value m) [
          | none ↦ r.insert n r.empty
          | some b ↦ r.insert n b
        ] in
        ap (λ o. in_found r o i) (find-set value other added m)
        ∙ elim (Bool-cases (bytes_eq value other)) [
          | inl same ↦ rw same (
              contains-insert_found n i (find value m)
              ∙ ap (λ k. (n == i) || has_row r m k i) (bytes_eq→eq value other same))
          | inr different ↦ rw different refl
        ]

    -- the entry of the last row, and of the others
    mark-snoc :
        (value other : Str) (last mark : Bool) (cell : Option Str)
        → (last ≡ true → cell ≡ none)
        → (mark ≡ true) ↔ (cell ≡ some other)
        → (((bytes_eq value other && last) || mark) ≡ true)
          ↔ ((if last then some value else cell) ≡ some other)
    mark-snoc value other true mark cell fresh h = ground (arith, bytes_eq_iff value other)
    mark-snoc value other false mark cell fresh h = ground (arith, bytes_eq_iff value other)

    Within-snoc :
        (value old : Str) (last : Bool) (cell : Option Str) (range : Option (Str × Str))
        → (cell ≡ some old → Within range old)
        → (if last then some value else cell) ≡ some old
        → Within (some (widen value range)) old
    Within-snoc value old true cell range h at =
        let same : value ≡ old = cc in rw (sym same) (widen-Within value range)
    Within-snoc value old false cell range h at = widen-Within_old value old range (h at)

    add_cell-IsColumn :
        (n : ℕ) (value : Str) (c : ColumnState r)
        → IsColumn r n c
        → IsColumn r (n + 1) (add_cell n value c)
    add_cell-IsColumn n value c v =
        let snoc : (i : ℕ)
            → get_elem? (c.values ++ value ∷ []) i
              ≡ (if n == i then some value else get_elem? c.values i) =
          λ i.
            get_elem?-snoc c.values value i
            ∙ ap (λ l. if l == i then some value else get_elem? c.values i) v.size in
        record {
          size = length-append c.values (value ∷ []) ∙ ap (λ l. l + 1) v.size;
          indexed = λ other i.
              rw (has_row-add_row n value other c.bitmaps i, snoc i)
                (mark-snoc value other (n == i) (has_row r c.bitmaps other i) (get_elem? c.values i)
                  (λ last. get_elem?-out c.values i (omega (arith, v.size, (==_iff n i).0 last)))
                  (v.indexed other i));
          distinct = unfold add_row in set-HasDistinctKeys value _ c.bitmaps v.distinct;
          within = λ old i at.
              Within-snoc value old (n == i) (get_elem? c.values i) c.range (v.within old i)
                (sym (snoc i) ∙ at);
        }

    -- A row with the segment's fields, appended to a segment of fewer than 2^32 rows, keeps it indexed:
    -- each column of the fields gets one value more, and its bitmaps that value at the new row.
    pub append_record-IsIndexed :
        (fields : Str → Bool) (row : Row) (w : SegmentWriter r)
        → IsIndexed r fields w
        → HasFields fields row
        → w.segment.record_count < 2 ^ 32
        → IsIndexed r fields (append_record r row w)
    append_record-IsIndexed fields row w v has room = record {
      count = rw (count-append_record row w) (omega (arith, room));
      columns = λ col. elim (Bool-cases (fields col)) [
        | inl present ↦
            rw
              (
                present,
                count-append_record row w,
                column_of-append_record col row w has.distinct room,
                (has.present col present).1,
              )
              (add_cell-IsColumn w.segment.record_count (has.present col present).0
                (column_of w col) (old col true present))
        | inr absent ↦
            rw (absent, column_of-append_record col row w has.distinct room, has.absent col absent)
              (old col false absent)
      ];
    }
      where
        old :
            (col : Str) (b : Bool)
            → fields col ≡ b
            → IsColumn r (if b then w.segment.record_count else 0) (column_of w col)
        old col b e =
            subst (λ x. IsColumn r (if x then w.segment.record_count else 0) (column_of w col)) e
              (v.columns col)

    -- a new segment has no rows
    pub new-IsIndexed :
        (fields : Str → Bool) (id : ℕ) → IsIndexed r fields (new_writer r (new r id))
    unfolding new_writer new find
    new-IsIndexed fields id = record {
      count = omega arith;
      columns = λ col. record {
        size = ground arith;
        indexed = λ value i. ((λ h. cc), (λ h. cc));
        distinct = HasDistinctKeys.none_yet;
        within = λ value i h. absurd cc;
      };
    }
