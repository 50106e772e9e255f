-- ===== src/Query/NestedLoop.antt =====
-- The hash join is the nested loop over all pairs of rows (src/core/join_query.rs).
use bittice.Prelude.{
  ◌≤◌, Str, Bool, true, false, Option, none, some, List, [], ◌∷◌, ◌++◌, if◌then◌else◌, Result, ok,
  err, length, length-append, bytes_eq, bytes_eq_iff, find, set, find-set, retain, concat_map, ltb,
  ltb→lt, arith, ◌≡◌, refl, sym, ap, ap₂, ◌∙◌, inl, inr, Bool-cases, append_assoc, append-nil,
}
use bittice.Filter.{StdText}
use bittice.Query.{ResolvedJoin, ResolvedJoinCondition, FlatRow, StdFormat, compose_key}
use bittice.Query.Join.{
  JoinError, result_limit, join_result_limit, JoinIndex, joining_fields, existing_fields, rows_of,
  index_row, build_index, build_join_index, aggregate_join, aggregate_row, expand_row, and_then,
  joined_row, apply_rows, apply_join,
}

-- The result within the limit, or the error.
abbrev pub within_limit : List FlatRow → Result JoinError (List FlatRow)
within_limit rows = if ltb join_result_limit (length rows) then err result_limit else ok rows

abbrev pub has_key : Str → Option Str → Bool
has_key key none = false
has_key key (some other) = bytes_eq other key

abbrev pub nonempty : List FlatRow → Option (List FlatRow)
nonempty [] = none
nonempty (row ∷ rows) = some (row ∷ rows)

-- An entry of the index with further rows behind it.
abbrev extended : Option (List FlatRow) → List FlatRow → Option (List FlatRow)
extended entry [] = entry
extended entry (row ∷ rows) = some (rows_of entry ++ row ∷ rows)

extended_step :
    (entry : Option (List FlatRow)) (row : FlatRow) (rows : List FlatRow)
    → extended (some (rows_of entry ++ row ∷ [])) rows ≡ some (rows_of entry ++ row ∷ rows)
extended_step entry row [] = refl
extended_step entry row (r ∷ rows) = ap some (append_assoc (rows_of entry) (row ∷ []) (r ∷ rows))

module _ (std : StdText) (fmt : StdFormat std) where
  apply_rows_lem :
      (joins : FlatRow → List FlatRow) (joined rows : List FlatRow)
      → length joined ≤ join_result_limit
      → apply_rows std fmt joins joined rows ≡ within_limit (joined ++ concat_map joins rows)
  unfolding apply_rows concat_map
  apply_rows_lem joins joined [] le = rw (append-nil joined) (ground (arith, le))
  apply_rows_lem joins joined (row ∷ rows) le =
      elim (Bool-cases (ltb join_result_limit (length (joined ++ joins row)))) [
        | inl over ↦ rw over (sym (exceeded over))
        | inr under ↦ rw under (
            apply_rows_lem joins (joined ++ joins row) rows (ground (arith, under))
            ∙ ap within_limit (append_assoc joined (joins row) (concat_map joins rows)))
      ]
    where
      exceeded :
          ltb join_result_limit (length (joined ++ joins row)) ≡ true
          → within_limit (joined ++ (joins row ++ concat_map joins rows)) ≡ err result_limit
      exceeded over = ground (
        arith,
        ltb→lt join_result_limit (length (joined ++ joins row)) over,
        length-append joined (joins row),
        length-append joined (joins row ++ concat_map joins rows),
        length-append (joins row) (concat_map joins rows),
      )

  -- The rows whose fields of the conditions compose the key.
  unfoldable pub rows_with_key : Str → List ResolvedJoinCondition → List FlatRow → List FlatRow
  unfolding retain compose_key
  rows_with_key key conditions rows =
      retain (λ r. has_key key (compose_key std fmt r (joining_fields conditions))) rows

  find-build_index :
      (key : Str) (conditions : List ResolvedJoinCondition) (rows : List FlatRow)
      (index : JoinIndex)
      → find key (build_index std fmt conditions rows index)
        ≡ extended (find key index) (rows_with_key key conditions rows)
  unfolding build_index rows_with_key retain index_row
  find-build_index key conditions [] index = refl
  find-build_index key conditions (row ∷ rows) index =
      find-build_index key conditions rows
        (index_row (compose_key std fmt row (joining_fields conditions)) row index)
      ∙ indexed (compose_key std fmt row (joining_fields conditions))
    where
      kept : List FlatRow
      kept = rows_with_key key conditions rows

      found :
          (other : Str)
          → bytes_eq other key ≡ true
          → find key (set other (rows_of (find other index) ++ row ∷ []) index)
            ≡ some (rows_of (find other index) ++ row ∷ [])
      found other same =
          find-set other key (rows_of (find other index) ++ row ∷ []) index ∙ rw same refl

      missed :
          (other : Str)
          → bytes_eq other key ≡ false
          → find key (set other (rows_of (find other index) ++ row ∷ []) index) ≡ find key index
      missed other differs =
          find-set other key (rows_of (find other index) ++ row ∷ []) index ∙ rw differs refl

      hit :
          (other : Str)
          → bytes_eq other key ≡ true
          → extended (some (rows_of (find other index) ++ row ∷ [])) kept
            ≡ extended (find key index) (row ∷ kept)
      hit other same =
          rw ((bytes_eq_iff other key).0 same) (extended_step (find key index) row kept)

      indexed :
          (composed : Option Str)
          → extended (find key (index_row composed row index)) kept
            ≡ extended (find key index) (if has_key key composed then row ∷ kept else kept)
      indexed none = refl
      indexed (some other) = elim (Bool-cases (bytes_eq other key)) [
        | inl same ↦ rw same (ap (λ e. extended e kept) (found other same) ∙ hit other same)
        | inr differs ↦ rw differs (ap (λ e. extended e kept) (missed other differs))
      ]

  find-build_join_index :
      (key : Str) (rows : List FlatRow) (conditions : List ResolvedJoinCondition)
      → find key (build_join_index std fmt rows conditions)
        ≡ nonempty (rows_with_key key conditions rows)
  unfolding build_join_index find
  find-build_join_index key rows conditions =
      find-build_index key conditions rows [] ∙ empty_first (rows_with_key key conditions rows)
    where
      empty_first : (rows : List FlatRow) → extended none rows ≡ nonempty rows
      empty_first [] = refl
      empty_first (r ∷ rows) = refl

  -- One row against every fetched row: the rows with its key, in their order, or none.
  unfoldable pub nested_row : ResolvedJoin → List FlatRow → FlatRow → List FlatRow
  unfolding compose_key aggregate_join rows_with_key
  nested_row join rows row =
      let found =
        and_then (compose_key std fmt row (existing_fields join.conditions))
          (λ key. nonempty (rows_with_key key join.conditions rows)) in
      if aggregate_join join
      then aggregate_row std fmt join row found
      else expand_row std fmt join row found

  nested_row-build_join_index :
      (join : ResolvedJoin) (rows : List FlatRow) (row : FlatRow)
      → joined_row std fmt join (build_join_index std fmt rows join.conditions) row
        ≡ nested_row join rows row
  unfolding joined_row nested_row
  nested_row-build_join_index join rows row =
      ap
        (λ (f : Option (List FlatRow)).
          if aggregate_join join
          then aggregate_row std fmt join row f
          else expand_row std fmt join row f)
        (looked_up (compose_key std fmt row (existing_fields join.conditions)))
    where
      looked_up :
          (key : Option Str)
          → and_then key (λ k. find k (build_join_index std fmt rows join.conditions))
            ≡ and_then key (λ k. nonempty (rows_with_key k join.conditions rows))
      looked_up none = refl
      looked_up (some k) = find-build_join_index k rows join.conditions

  concat_map-nested_row :
      (join : ResolvedJoin) (rows current : List FlatRow)
      → concat_map (joined_row std fmt join (build_join_index std fmt rows join.conditions)) current
        ≡ concat_map (nested_row join rows) current
  unfolding concat_map
  concat_map-nested_row join rows [] = refl
  concat_map-nested_row join rows (row ∷ current) =
      ap₂ (λ xs ys. xs ++ ys) (nested_row-build_join_index join rows row)
        (concat_map-nested_row join rows current)

  -- For every join, the rows fetched for it and the current rows: the hash join returns the rows of the
  -- nested loop, in its order, or the limit error exactly if these are more than 200,000.
  pub apply_join-build_join_index :
      (join : ResolvedJoin) (rows current : List FlatRow)
      → apply_join std fmt current join (build_join_index std fmt rows join.conditions) ≡ (
          if ltb 200000 (length (concat_map (nested_row join rows) current))
          then err result_limit
          else ok (concat_map (nested_row join rows) current))
  unfolding apply_join
  apply_join-build_join_index join rows current =
      apply_rows_lem (joined_row std fmt join (build_join_index std fmt rows join.conditions)) []
        current (omega arith)
      ∙ ap within_limit (concat_map-nested_row join rows current)
