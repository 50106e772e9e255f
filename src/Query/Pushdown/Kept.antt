-- ===== src/Query/Pushdown/Kept.antt =====
-- The rows that the pushed filters leave out are not missed (src/core/join_query.rs).
use bittice.Prelude.{
  ℕ, Str, Bool, true, false, none, List, [], ◌∷◌, ok, retain, all_of, concat_map, retain-concat_map,
  length, length-append, ltb, le→ltb, ◌≤◌, All, arith, ◌≡◌, refl, sym, ap, ◌∙◌, inl, inr,
  Bool-cases,
}
use bittice.Filter.{StdText, and_op}
use bittice.Query.{ResolvedFilter, ResolvedJoin, FlatRow, StdFormat, passes, apply_filters}
use bittice.Query.Join.{build_join_index, apply_join, aggregate_join}
use bittice.Query.NestedLoop.{nested_row, apply_join-build_join_index}
use bittice.Query.Window.{ok_within}
use bittice.Query.Pushdown.{
  collect_pushdown_filters, accepts_field, rows_matching, IsQualified, IsApart,
}
use bittice.Query.Pushdown.Rejected.{retain-nested_row}

module _ (std : StdText) (base : Str) where
  module _ (fmt : StdFormat std) where
    apply_filters-retain :
        (filters : List ResolvedFilter) (rows : List FlatRow)
        → apply_filters std rows filters and_op ≡ retain (passes std and_op filters) rows
    unfolding apply_filters
    apply_filters-retain [] rows = sym (retain_all rows)
      where
        retain_all : (rows : List FlatRow) → retain (λ row. true) rows ≡ rows
        retain_all [] = refl
        retain_all (row ∷ rows) = ap (λ t. row ∷ t) (retain_all rows)
    apply_filters-retain (f ∷ filters) rows = refl

  length-concat_map-retain :
      (keep : FlatRow → Bool) (f : FlatRow → List FlatRow) (rows : List FlatRow)
      → length (concat_map f (retain keep rows)) ≤ length (concat_map f rows)
  unfolding concat_map retain
  length-concat_map-retain keep f [] = omega arith
  length-concat_map-retain keep f (row ∷ rows) = elim (Bool-cases (keep row)) [
    | inl kept ↦ rw kept (
        omega (
          arith,
          length-append (f row) (concat_map f (retain keep rows)),
          length-append (f row) (concat_map f rows),
          length-concat_map-retain keep f rows,
        ))
    | inr gone ↦ rw gone (
        omega
          (arith, length-append (f row) (concat_map f rows), length-concat_map-retain keep f rows))
  ]

  -- For filters that are joined by And and are qualified by their aliases, a join that counts or sums
  -- nothing, and fetched rows that have no field of the alias `base`: if the join of all current rows
  -- stays within the limit, then so does the join of the current rows that the filters pushed down to
  -- `base` accept, and the filters leave the same rows of both.
  pub apply_join-collect_pushdown_filters :
      (fmt : StdFormat std) (filters : List ResolvedFilter) (join : ResolvedJoin)
      (right current out : List FlatRow)
      → aggregate_join join ≡ false
      → All IsQualified filters
      → All (IsApart base) right
      → apply_join std fmt current join (build_join_index std fmt right join.conditions) ≡ ok out
      → (pushed : List FlatRow) × (apply_join std fmt
            (rows_matching std base (collect_pushdown_filters filters none base) current)
            join
            (build_join_index std fmt right join.conditions)
          ≡ ok pushed)
        × (apply_filters std pushed filters and_op ≡ apply_filters std out filters and_op)
  unfolding rows_matching
  apply_join-collect_pushdown_filters fmt filters join right current out plain qualified apart
        joined =
      (
        concat_map joins (retain keep current),
        apply_join-build_join_index std fmt join right (retain keep current)
            ∙ rw (le→ltb 200000 (length (concat_map joins (retain keep current))) fits_pushed) refl,
        apply_filters-retain fmt filters (concat_map joins (retain keep current))
            ∙ retain-concat_map (passes std and_op filters) keep joins current (λ row out.
              retain-nested_row std base fmt filters join right row plain qualified apart out)
            ∙ sym (apply_filters-retain fmt filters (concat_map joins current))
            ∙ ap (λ rows. apply_filters std rows filters and_op) fits.1,
      )
    where
      joins : FlatRow → List FlatRow
      joins = nested_row std fmt join right

      keep : FlatRow → Bool
      keep row = all_of (accepts_field std base row) (collect_pushdown_filters filters none base)

      fits :
          (ltb 200000 (length (concat_map joins current)) ≡ false)
          × (concat_map joins current ≡ out)
      fits =
          ok_within (ltb 200000 (length (concat_map joins current))) (concat_map joins current) out
            (sym (apply_join-build_join_index std fmt join right current) ∙ joined)

      below : (n : ℕ) → ltb 200000 n ≡ false → n ≤ 200000
      below n h = ground (arith, h)

      fits_pushed : length (concat_map joins (retain keep current)) ≤ 200000
      fits_pushed = omega (
        arith,
        length-concat_map-retain keep joins current,
        below (length (concat_map joins current)) fits.0,
      )
