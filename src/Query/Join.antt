-- ===== src/Query/Join.antt =====
-- The hash join (src/core/join_query.rs): the index of the fetched rows by their key, and the rows that
-- it is joined to, one by one, with the limit on the result.
use bittice.Prelude.{
  is_some, ℕ, Str, Bool, true, ◌&&◌, ◌==◌, ltb, Option, none, some, List, [], ◌∷◌, ◌++◌,
  if◌then◌else◌, Result, ok, err, length, map, find, set,
}
use bittice.Filter.{StdText}
use bittice.Query.{
  QualifiedField, ResolvedJoin, ResolvedJoinCondition, JoinKind, inner, left, FlatRow, StdFormat,
  qualify, compose_key,
}

pub data JoinError : Type 0 where
  result_limit : JoinError

abbrev pub join_result_limit : ℕ
join_result_limit = 200000

abbrev pub JoinIndex : Type 0
JoinIndex = List (Str × List FlatRow)

abbrev pub joining_fields : List ResolvedJoinCondition → List QualifiedField
joining_fields conditions = map (λ c. c.joining_side) conditions

abbrev pub existing_fields : List ResolvedJoinCondition → List QualifiedField
existing_fields conditions = map (λ c. c.existing_side) conditions

-- `entry(key).or_default()`.
abbrev pub rows_of : Option (List FlatRow) → List FlatRow
rows_of none = []
rows_of (some rows) = rows

unfoldable pub index_row : Option Str → FlatRow → JoinIndex → JoinIndex
unfolding find set
index_row none row index = index
index_row (some key) row index = set key (rows_of (find key index) ++ row ∷ []) index

-- `for (field, value) in matched_row.iter() { merged.insert(field, value) }`
unfoldable pub merge_fields : FlatRow → FlatRow → FlatRow
unfolding set
merge_fields row [] = row
merge_fields row ((field, value) ∷ matched) = merge_fields (set field value row) matched

-- `merged.insert` of a value under a name, where there is one.
unfoldable pub put_if : Option Str → Str → FlatRow → FlatRow
unfolding set
put_if none value row = row
put_if (some name) value row = set name value row

unfoldable pub qualified_name : Str → Option Str → Option Str
unfolding qualify
qualified_name alias none = none
qualified_name alias (some name) = some (qualify alias name)

unfoldable pub aggregate_join : ResolvedJoin → Bool
aggregate_join join =
    if is_some join.count_matches_as
    then true
    else is_some join.sum_matches_field && is_some join.sum_matches_as

-- `str::trim_end_matches` for one byte.
abbrev pub trim_end_matches : ℕ → Str → Str
trim_end_matches c [] = []
trim_end_matches c (b ∷ s) = cut (trim_end_matches c s)
  where
    cut : Str → Str
    cut [] = if b == c then [] else b ∷ []
    cut (d ∷ rest) = b ∷ d ∷ rest

abbrev pub and_then : {A B : Type 0} → Option A → (A → Option B) → Option B
and_then none f = none
and_then (some a) f = f a

module _ (std : StdText) (fmt : StdFormat std) where
  unfoldable pub build_index : List ResolvedJoinCondition → List FlatRow → JoinIndex → JoinIndex
  unfolding compose_key index_row
  build_index conditions [] index = index
  build_index conditions (row ∷ rows) index =
      build_index conditions rows
        (index_row (compose_key std fmt row (joining_fields conditions)) row index)

  unfoldable pub build_join_index : List FlatRow → List ResolvedJoinCondition → JoinIndex
  unfolding build_index
  build_join_index rows conditions = build_index conditions rows []

  unfoldable pub format_computed_value : std.Float → Str
  format_computed_value value =
      if fmt.is_fractionless value
      then fmt.show_i64 value
      else trim_end_matches b'.' (trim_end_matches b'0' (fmt.show_6 value))

  abbrev pub push_number : Option std.Float → List std.Float → List std.Float
  push_number none numbers = numbers
  push_number (some n) numbers = n ∷ numbers

  -- `filter_map(|m| m.get(qin).and_then(|s| s.parse().ok()))`
  unfoldable pub numbers_of : Str → List FlatRow → List std.Float
  unfolding find
  numbers_of qin [] = []
  numbers_of qin (m ∷ matches) =
      push_number (and_then (find qin m) std.parse_float) (numbers_of qin matches)

  unfoldable pub no_match_row : ResolvedJoin → FlatRow → List FlatRow
  unfolding format_computed_value put_if qualified_name
  no_match_row join row = keep join.kind
    where
      keep : JoinKind → List FlatRow
      keep inner = []
      keep left =
          put_if (qualified_name join.alias join.sum_matches_as)
            (format_computed_value fmt.float_zero)
            (put_if (qualified_name join.alias join.count_matches_as) (b'0' ∷ []) row)
          ∷ []

  unfoldable pub put_sum : ResolvedJoin → Option Str → List FlatRow → FlatRow → FlatRow
  unfolding format_computed_value numbers_of put_if qualified_name
  put_sum join none matches row = row
  put_sum join (some qin) matches row =
      put_if (qualified_name join.alias join.sum_matches_as)
        (format_computed_value (fmt.sum (numbers_of qin matches))) row

  unfoldable pub match_row : ResolvedJoin → FlatRow → List FlatRow → FlatRow
  unfolding put_sum put_if qualified_name
  match_row join row matches =
      put_sum join (qualified_name join.alias join.sum_matches_field) matches (
        put_if (qualified_name join.alias join.count_matches_as) (fmt.show_usize (length matches))
          row)

  unfoldable pub aggregate_row : ResolvedJoin → FlatRow → Option (List FlatRow) → List FlatRow
  unfolding no_match_row match_row
  aggregate_row join row none = no_match_row join row
  aggregate_row join row (some []) = no_match_row join row
  aggregate_row join row (some (m ∷ matches)) = match_row join row (m ∷ matches) ∷ []

  abbrev pub unmatched : JoinKind → FlatRow → List FlatRow
  unmatched inner row = []
  unmatched left row = row ∷ []

  unfoldable pub expand_row : ResolvedJoin → FlatRow → Option (List FlatRow) → List FlatRow
  unfolding merge_fields
  expand_row join row none = unmatched join.kind row
  expand_row join row (some matches) = map (merge_fields row) matches

  -- What one row of the current rows adds to the joined rows.
  unfoldable pub joined_row : ResolvedJoin → JoinIndex → FlatRow → List FlatRow
  unfolding compose_key find aggregate_join aggregate_row expand_row
  joined_row join join_index row =
      let found =
        and_then (compose_key std fmt row (existing_fields join.conditions))
          (λ key. find key join_index) in
      if aggregate_join join then aggregate_row join row found else expand_row join row found

  unfoldable pub apply_rows :
      (FlatRow → List FlatRow) → List FlatRow → List FlatRow → Result JoinError (List FlatRow)
  apply_rows joins joined [] = ok joined
  apply_rows joins joined (row ∷ rows) =
      let next = joined ++ joins row in
      let rest = apply_rows joins next rows in
      if ltb join_result_limit (length next) then err result_limit else rest

  unfoldable pub apply_join :
      List FlatRow → ResolvedJoin → JoinIndex → Result JoinError (List FlatRow)
  unfolding apply_rows joined_row
  apply_join current_rows join join_index = apply_rows (joined_row join join_index) [] current_rows
