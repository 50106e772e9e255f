-- ===== src/Query.antt =====
-- Queries over several tables (src/core/join_query.rs): the types, the fields of a row, the keys of a
-- join, and the filters on joined rows. The modules below it hold the join, what is pushed down to
-- the fetch, the early window, and how a saved query is read.
pub mod Join
pub mod NestedLoop
pub mod Window
pub mod Pushdown
pub mod Lookup
pub mod Coalesced
pub mod Needed
pub mod Fields
pub mod Resolve
pub mod Connected
pub mod Qualified
use Prim.Native.Nat.{Ordering}
use bittice.Prelude.{
  ℕ, ◌+◌, Str, codes, Bool, true, false, ◌&&◌, ◌||◌, Option, none, some, List, [], ◌∷◌, ◌++◌,
  if◌then◌else◌, find, set, retain, all_of, any_of,
}
use bittice.Filter.{
  ComparisonOp, LogicalOp, and_op, or_op, FieldType, StdText, compare_filter_value, compare_values,
  is_empty_str, str_cmp,
}

pub record QualifiedField : Type 0 where
  pub alias : Str
  pub field : Str
  pub qualified : Str

pub record ResolvedFilter : Type 0 where
  pub field : QualifiedField
  pub op : ComparisonOp
  pub value : Str
  pub value_to : Option Str
  pub value_options : List Str
  pub field_type : Option FieldType

mutual
  pub data ResolvedFilterTreeNode : Type 0 where
    condition : ResolvedFilter → ResolvedFilterTreeNode
    group : LogicalOp → Filters → ResolvedFilterTreeNode

  -- The `Vec` of children.
  pub data Filters : Type 0 where
    no_more : Filters
    child : ResolvedFilterTreeNode → Filters → Filters

pub data SortDirection : Type 0 where
  asc desc : SortDirection

pub record ResolvedOrderBy : Type 0 where
  pub field : QualifiedField
  pub direction : SortDirection

pub record ResolvedJoinCondition : Type 0 where
  pub existing_side : QualifiedField
  pub joining_side : QualifiedField

pub data JoinKind : Type 0 where
  inner left : JoinKind

pub record ResolvedJoin : Type 0 where
  pub entity : Str
  pub table : Str
  pub alias : Str
  pub kind : JoinKind
  pub conditions : List ResolvedJoinCondition
  pub count_matches_as : Option Str
  pub sum_matches_field : Option Str
  pub sum_matches_as : Option Str

-- A `HashMap<String, String>`.
abbrev pub FlatRow : Type 0
FlatRow = List (Str × Str)

unfoldable pub qualify : Str → Str → Str
qualify alias field = alias ++ (codes "." ++ field)

-- `batch_row.get(index).cloned().unwrap_or_default()` for the fields in their order.
unfoldable pub flat_row : Str → List Str → List Str → FlatRow → FlatRow
unfolding qualify set
flat_row alias [] cells mapped = mapped
flat_row alias (field ∷ fields) [] mapped =
    flat_row alias fields [] (set (qualify alias field) [] mapped)
flat_row alias (field ∷ fields) (cell ∷ cells) mapped =
    flat_row alias fields cells (set (qualify alias field) cell mapped)

unfoldable pub flat_row_from_batch : Str → List Str → List Str → FlatRow
unfolding flat_row
flat_row_from_batch alias fields batch_row = flat_row alias fields batch_row []

-- How the standard library writes and adds numbers: `n.fract().abs() < f64::EPSILON`, `is_finite`,
-- `format!("{}", n as i64)`, `format!("{:.6}", n)`, `0.0`, `Iterator::sum` and `usize::to_string`.
pub record StdFormat (std : StdText) : Type 1 where
  pub is_fractionless : std.Float → Bool
  pub is_finite : std.Float → Bool
  pub show_i64 : std.Float → Str
  pub show_6 : std.Float → Str
  pub float_zero : std.Float
  pub sum : List std.Float → std.Float
  pub show_usize : ℕ → Str

module _ (std : StdText) (fmt : StdFormat std) where
  -- The `if let Ok(n) = t.parse::<f64>()`.
  abbrev pub normalize_parsed : Str → Option std.Float → Str
  normalize_parsed t none = t
  normalize_parsed t (some n) =
      if fmt.is_fractionless n && fmt.is_finite n then fmt.show_i64 n else t

  unfoldable pub normalize_join_key_fragment : Str → Str
  normalize_join_key_fragment value =
      let t = std.trim value in
      if is_empty_str t then [] else normalize_parsed t (std.parse_float t)

  -- `values.join(JOIN_SEPARATOR)`.
  unfoldable pub join_fragments : List Str → Str
  join_fragments [] = []
  join_fragments (v ∷ []) = v
  join_fragments (v ∷ w ∷ vs) = v ++ (31 ∷ join_fragments (w ∷ vs))

  abbrev pub push_fragment : Option Str → Option (List Str) → Option (List Str)
  push_fragment none rest = none
  push_fragment (some raw) none = none
  push_fragment (some raw) (some values) = some (normalize_join_key_fragment raw ∷ values)

  unfoldable pub key_fragments : FlatRow → List QualifiedField → Option (List Str)
  unfolding find normalize_join_key_fragment
  key_fragments row [] = some []
  key_fragments row (field ∷ fields) =
      push_fragment (find field.qualified row) (key_fragments row fields)

  abbrev pub joined_fragments : Option (List Str) → Option Str
  joined_fragments none = none
  joined_fragments (some values) = some (join_fragments values)

  unfoldable pub compose_key : FlatRow → List QualifiedField → Option Str
  unfolding key_fragments join_fragments
  compose_key row fields = joined_fragments (key_fragments row fields)

module _ (std : StdText) where
  abbrev pub accepts_value : ResolvedFilter → Option Str → Bool
  accepts_value filter none = false
  accepts_value filter (some actual) =
      compare_filter_value std actual filter.op filter.value filter.value_to filter.value_options
        filter.field_type

  unfoldable pub evaluate_filter : FlatRow → ResolvedFilter → Bool
  unfolding find
  evaluate_filter row filter = accepts_value filter (find filter.field.qualified row)

  abbrev pub passes : LogicalOp → List ResolvedFilter → FlatRow → Bool
  passes and_op filters row = all_of (evaluate_filter row) filters
  passes or_op filters row = any_of (evaluate_filter row) filters

  unfoldable pub apply_filters : List FlatRow → List ResolvedFilter → LogicalOp → List FlatRow
  unfolding retain all_of any_of evaluate_filter
  apply_filters rows [] op = rows
  apply_filters rows (f ∷ fs) op = retain (passes op (f ∷ fs)) rows

  unfoldable mutual
    unfolding evaluate_filter

    pub evaluate_filter_tree : FlatRow → ResolvedFilterTreeNode → Bool
    evaluate_filter_tree row (condition filter) = evaluate_filter row filter
    evaluate_filter_tree row (group and_op filters) = all_children row filters
    evaluate_filter_tree row (group or_op filters) = any_child row filters

    pub all_children : FlatRow → Filters → Bool
    all_children row no_more = true
    all_children row (child node rest) = evaluate_filter_tree row node && all_children row rest

    pub any_child : FlatRow → Filters → Bool
    any_child row no_more = false
    any_child row (child node rest) = evaluate_filter_tree row node || any_child row rest

  unfoldable pub apply_filter_tree : List FlatRow → ResolvedFilterTreeNode → List FlatRow
  unfolding retain evaluate_filter_tree
  apply_filter_tree rows node = retain (λ row. evaluate_filter_tree row node) rows

  abbrev pub or_empty : Option Str → Str
  or_empty none = []
  or_empty (some s) = s

  abbrev pub reverse_ordering : Ordering → Ordering
  reverse_ordering Ordering.lt = Ordering.gt
  reverse_ordering Ordering.eq = Ordering.eq
  reverse_ordering Ordering.gt = Ordering.lt

  abbrev pub directed : SortDirection → Ordering → Ordering
  directed asc o = o
  directed desc o = reverse_ordering o

  abbrev pub compare_cells : Str → Str → Option Ordering → Ordering
  compare_cells l r none = str_cmp l r
  compare_cells l r (some o) = o

  -- An ordering that is not `Equal` is returned, else the next field is compared.
  abbrev pub decide_order : SortDirection → Ordering → Ordering → Ordering
  decide_order direction Ordering.eq rest = rest
  decide_order direction Ordering.lt rest = directed direction Ordering.lt
  decide_order direction Ordering.gt rest = directed direction Ordering.gt

  unfoldable pub compare_rows : FlatRow → FlatRow → List ResolvedOrderBy → Ordering
  unfolding find
  compare_rows l r [] = Ordering.eq
  compare_rows l r (order ∷ order_by) =
      let lv = or_empty (find order.field.qualified l) in
      let rv = or_empty (find order.field.qualified r) in
      decide_order order.direction (compare_cells lv rv (compare_values std lv rv none))
        (compare_rows l r order_by)
