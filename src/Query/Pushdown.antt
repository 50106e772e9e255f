-- ===== src/Query/Pushdown.antt =====
-- The filters that a query over several tables hands to the fetch of one table
-- (src/core/join_query.rs).
pub mod Rejected
pub mod Kept
use bittice.Prelude.{
  ℕ, Str, Bool, true, false, ◌&&◌, Option, none, some, List, [], ◌∷◌, if◌then◌else◌, ok, map,
  bytes_eq, bytes_eq→eq, find, set, find-set, retain, all_of, concat_map, retain-concat_map,
  retain-nil, retain-All, length, length-append, ltb, le→ltb, ◌≤◌, All, arith, ◌≡◌, refl, sym, ap,
  ◌∙◌, inl, inr, Bool-cases,
}
use bittice.Filter.{Filter, StdText, and_op, compare_filter_value}
use bittice.Query.{
  ResolvedFilter, ResolvedFilterTreeNode, ResolvedJoin, JoinKind, inner, left, FlatRow, StdFormat,
  qualify, accepts_value, evaluate_filter, passes, apply_filters, compose_key,
}
use bittice.Query.Join.{
  merge_fields, build_join_index, apply_join, aggregate_join, expand_row, and_then, existing_fields,
  unmatched, joining_fields,
}
use bittice.Query.NestedLoop.{
  nested_row, nonempty, has_key, rows_with_key, apply_join-build_join_index,
}
use bittice.Query.Window.{ok_within}

abbrev pub pushdown_filter : ResolvedFilter → Filter
pushdown_filter f = record {
  field = f.field.field;
  op = f.op;
  value = f.value;
  value_to = f.value_to;
  field_type = f.field_type;
  value_options = f.value_options;
}

unfoldable pub collect_pushdown_filters :
    List ResolvedFilter → Option ResolvedFilterTreeNode → Str → List Filter
unfolding retain
collect_pushdown_filters filters (some tree) alias = []
collect_pushdown_filters filters none alias =
    map pushdown_filter (retain (λ f. bytes_eq f.field.alias alias) filters)

module _ (std : StdText) where
  abbrev pub accepts_cell : Filter → Option Str → Bool
  accepts_cell f none = false
  accepts_cell f (some actual) =
      compare_filter_value std actual f.op f.value f.value_to f.value_options f.field_type

  unfoldable pub accepts_field : Str → FlatRow → Filter → Bool
  unfolding find qualify
  accepts_field alias row f = accepts_cell f (find (qualify alias f.field) row)

  -- What a search with these filters is to return of the rows of a table: the rows whose fields all
  -- its filters accept.
  unfoldable pub rows_matching : Str → List Filter → List FlatRow → List FlatRow
  unfolding retain all_of accepts_field
  rows_matching alias filters rows = retain (λ row. all_of (accepts_field alias row) filters) rows

-- A filter's field is qualified by its own alias, as `parse_qualified_field` does it.
abbrev pub IsQualified : ResolvedFilter → Type 0
IsQualified f = f.field.qualified ≡ qualify f.field.alias f.field.field

-- A row has no field of an alias.
abbrev pub IsApart : Str → FlatRow → Type 0
IsApart alias row = (field : Str) → find (qualify alias field) row ≡ none
