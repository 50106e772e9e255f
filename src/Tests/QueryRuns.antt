-- ===== src/Tests/QueryRuns.antt =====
-- Queries over two small tables.
use bittice.Prelude.{
  Bool, true, false, bytes_eq, bytes_eq→eq, sym, set, ◌||◌, Str, codes, ◌≡◌, refl, true, false,
  ◌==◌, none, some, List, [], ◌∷◌, if◌then◌else◌, ok, err, length, ltb, concat_map, find, any_of,
}
use bittice.Filter.{ComparisonOp, and_op, or_op, or_op}
use bittice.Query.{
  ResolvedFilterTreeNode, condition, group, child, no_more, evaluate_filter_tree, ResolvedFilter,
  ResolvedJoin, left, FlatRow, StdFormat, qualify, apply_filters,
}
use bittice.Query.Join.{result_limit, apply_join, build_join_index, aggregate_join}
use bittice.Query.NestedLoop.{nested_row, apply_join-build_join_index}
use bittice.Query.Window.{truncate_early, paged_rows, paged_rows-apply_join}
use bittice.Query.Pushdown.{IsQualified, IsApart, collect_pushdown_filters, rows_matching}
use bittice.Query.Pushdown.Kept.{apply_join-collect_pushdown_filters}
use bittice.Query.Needed.{
  Agree, needs, fields_of, IsQualifiedTree, collect_filter_tree_fields,
  evaluate_filter_tree-collect_filter_tree_fields,
}
use bittice.Query.Lookup.{contains_text}
use bittice.Query.Fields.{parse_qualified_field}
use bittice.Query.Resolve.{SavedJoin, resolve_joins}
use bittice.Query.Connected.{IsConnected, resolve_joins-IsConnected}
use bittice.Query.Qualified.{parse_qualified_field-qualify}
use bittice.Tests.SegmentRuns.{plain}

abbrev plain_format : StdFormat plain
plain_format = record {
  is_fractionless = λ n. true;
  is_finite = λ n. true;
  show_i64 = λ n. n ∷ [];
  show_6 = λ n. n ∷ [];
  float_zero = 0;
  sum = λ numbers. 0;
  show_usize = λ n. n ∷ [];
}

abbrev visits : ResolvedJoin
visits = record {
  entity = codes "db";
  table = codes "visits";
  alias = codes "v";
  kind = left;
  conditions =
      record {
        existing_side = record { alias = codes "u"; field = codes "id"; qualified = codes "u.id" };
        joining_side = record { alias = codes "v"; field = codes "uid"; qualified = codes "v.uid" };
      }
      ∷ [];
  count_matches_as = none;
  sum_matches_field = none;
  sum_matches_as = none;
}

abbrev user : Str → FlatRow
user id = (codes "u.id", id) ∷ []

abbrev visit : Str → Str → FlatRow
visit uid day = (codes "v.uid", uid) ∷ (codes "v.day", day) ∷ []

abbrev users : List FlatRow
users = user (codes "a") ∷ user (codes "b") ∷ []

abbrev all_visits : List FlatRow
all_visits = visit (codes "a") (codes "mon") ∷ visit (codes "a") (codes "tue") ∷ []

-- User a with its two visits, and user b without one.
abbrev users_with_visits : List FlatRow
users_with_visits =
    ((codes "u.id", codes "a") ∷ visit (codes "a") (codes "mon"))
    ∷ ((codes "u.id", codes "a") ∷ visit (codes "a") (codes "tue"))
    ∷ user (codes "b")
    ∷ []

joins_users :
    apply_join plain plain_format users visits
      (build_join_index plain plain_format all_visits visits.conditions)
    ≡ ok users_with_visits
unfolding apply_join build_join_index
joins_users = refl

apply_join-build_join_index_example :
    apply_join plain plain_format users visits
      (build_join_index plain plain_format all_visits visits.conditions)
    ≡ (if ltb 200000 (length (concat_map (nested_row plain plain_format visits all_visits) users))
        then err result_limit
        else ok (concat_map (nested_row plain plain_format visits all_visits) users))
apply_join-build_join_index_example =
    apply_join-build_join_index plain plain_format visits all_visits users

paged_rows-apply_join_example :
    (early : List FlatRow) × (apply_join plain plain_format
        (truncate_early 0 1 users)
        visits
        (build_join_index plain plain_format all_visits visits.conditions)
      ≡ ok early)
    × (paged_rows 0 1 early ≡ paged_rows 0 1 users_with_visits)
paged_rows-apply_join_example =
    paged_rows-apply_join plain plain_format visits all_visits users users_with_visits 0 1 refl
      joins_users

abbrev only_a : ResolvedFilter
only_a = record {
  field = record { alias = codes "u"; field = codes "id"; qualified = codes "u.id" };
  op = ComparisonOp.eq;
  value = codes "a";
  value_to = none;
  value_options = [];
  field_type = none;
}

only_a-IsQualified : IsQualified only_a
unfolding qualify
only_a-IsQualified = refl

visit-IsApart : (uid day : Str) → IsApart (codes "u") (visit uid day)
unfolding find qualify
visit-IsApart uid day field = refl

visits-counts_nothing : aggregate_join visits ≡ false
unfolding aggregate_join
visits-counts_nothing = refl

apply_join-collect_pushdown_filters_example :
    (pushed : List FlatRow) × (apply_join plain plain_format
        (rows_matching plain
          (codes "u")
          (collect_pushdown_filters (only_a ∷ []) none (codes "u"))
          users)
        visits
        (build_join_index plain plain_format all_visits visits.conditions)
      ≡ ok pushed)
    × (apply_filters plain pushed (only_a ∷ []) and_op
        ≡ apply_filters plain users_with_visits (only_a ∷ []) and_op)
apply_join-collect_pushdown_filters_example =
    apply_join-collect_pushdown_filters plain (codes "u") plain_format (only_a ∷ []) visits
      all_visits users users_with_visits visits-counts_nothing (only_a-IsQualified, tt)
      (visit-IsApart (codes "a") (codes "mon"), (visit-IsApart (codes "a") (codes "tue"), tt))
      joins_users

abbrev saved_visits : SavedJoin
saved_visits = record {
  join_type = codes "left";
  entity = none;
  table = codes "visits";
  alias = some (codes "v");
  on = record { left = codes "v.uid"; op = codes "Eq"; right = codes "u.id" } ∷ [];
  count_matches_as = none;
  sum_matches_field = none;
  sum_matches_as = none;
}

resolves_visits :
    resolve_joins plain (codes "u") (saved_visits ∷ []) (codes "db") ≡ ok (visits ∷ [])
unfolding resolve_joins
resolves_visits = refl

resolve_joins-IsConnected_example : IsConnected (codes "u" ∷ []) (visits ∷ [])
resolve_joins-IsConnected_example =
    resolve_joins-IsConnected plain (codes "u") (saved_visits ∷ []) (codes "db") (visits ∷ [])
      resolves_visits

no_dot : any_of (λ b. b == b'.') (codes "v") ≡ false
unfolding any_of
no_dot = refl

parse_qualified_field-qualify_example :
    parse_qualified_field plain (qualify (codes "v") (codes "uid")) (codes "u")
    ≡ ok (record {
      alias = codes "v";
      field = codes "uid";
      qualified = qualify (codes "v") (codes "uid");
    })
parse_qualified_field-qualify_example =
    parse_qualified_field-qualify plain (codes "v") (codes "uid") (codes "u") no_dot refl refl refl
      refl

-- A tree of one filter on u.id, and two rows of the same user on other days.
abbrev a_only : ResolvedFilterTreeNode
a_only = group or_op (child (condition only_a) no_more)

abbrev monday : FlatRow
monday = (codes "u.id", codes "a") ∷ visit (codes "a") (codes "mon")

abbrev tuesday : FlatRow
tuesday = (codes "u.id", codes "a") ∷ visit (codes "a") (codes "tue")

a_only-IsQualifiedTree : IsQualifiedTree a_only
unfolding IsQualifiedTree
a_only-IsQualifiedTree = (only_a-IsQualified, tt)

days-Agree : Agree plain monday tuesday (collect_filter_tree_fields [] a_only)
unfolding collect_filter_tree_fields needs find set contains_text any_of qualify
days-Agree a f needed = go (bytes_eq (codes "u") a) refl needed
  where
    named : (b : Bool) → (b || false) ≡ true → b ≡ true
    named true h = refl
    named false h = h

    go :
        (own : Bool)
        → bytes_eq (codes "u") a ≡ own
        → any_of (λ s. bytes_eq s f) (fields_of (if own then some (codes "id" ∷ []) else none))
          ≡ true
        → find (qualify a f) monday ≡ find (qualify a f) tuesday
    go true own h =
        rw
          (
            sym (bytes_eq→eq (codes "u") a own),
            sym (bytes_eq→eq (codes "id") f (named (bytes_eq (codes "id") f) h)),
          )
          refl
    go false own h = cc

evaluate_filter_tree-collect_filter_tree_fields_example :
    evaluate_filter_tree plain monday a_only ≡ evaluate_filter_tree plain tuesday a_only
evaluate_filter_tree-collect_filter_tree_fields_example =
    evaluate_filter_tree-collect_filter_tree_fields plain monday tuesday [] a_only
      a_only-IsQualifiedTree days-Agree
