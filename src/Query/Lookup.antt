-- ===== src/Query/Lookup.antt =====
-- The lookups of a join (src/core/join_query.rs): one set of Eq filters for every key of the current
-- rows, and how these sets are merged into one In filter.
use bittice.Prelude.{
  ℕ, zero, suc, Str, codes, Bool, true, false, ◌&&◌, Option, none, some, List, [], ◌∷◌, ◌++◌,
  if◌then◌else◌, bytes_eq, find, any_of,
}
use bittice.Filter.{ComparisonOp, as_str, Filter, StdText}
use bittice.Query.{
  ResolvedJoin, ResolvedJoinCondition, FlatRow, StdFormat, normalize_join_key_fragment,
  join_fragments,
}

abbrev pub eq_filter : Str → Str → Filter
eq_filter field value = record {
  field = field;
  op = ComparisonOp.eq;
  value = value;
  value_to = none;
  field_type = none;
  value_options = [];
}

-- A filter of the lookup with its part of the key that tells lookups apart.
abbrev pub KeyPart : Type 0
KeyPart = Filter × Str

abbrev pub filters_of : List KeyPart → List Filter
filters_of [] = []
filters_of ((f, part) ∷ parts) = f ∷ filters_of parts

abbrev pub parts_of : List KeyPart → List Str
parts_of [] = []
parts_of ((f, part) ∷ parts) = part ∷ parts_of parts

unfoldable pub contains_text : Str → List Str → Bool
unfolding any_of
contains_text key seen = any_of (λ s. bytes_eq s key) seen

module _ (std : StdText) (fmt : StdFormat std) where
  abbrev pub key_part : Str → Str → KeyPart
  key_part field value = (eq_filter field value, field ++ (codes "=" ++ value))

  abbrev pub add_part : Str → Option Str → Option (List KeyPart) → Option (List KeyPart)
  add_part field none rest = none
  add_part field (some raw) none = none
  add_part field (some raw) (some parts) =
      some (key_part field (normalize_join_key_fragment std fmt raw) ∷ parts)

  -- The filters of one row, or nothing where a field of the row is missing.
  unfoldable pub lookup_parts : FlatRow → List ResolvedJoinCondition → Option (List KeyPart)
  unfolding find normalize_join_key_fragment
  lookup_parts row [] = some []
  lookup_parts row (c ∷ conditions) =
      add_part c.joining_side.field (find c.existing_side.qualified row)
        (lookup_parts row conditions)

  -- A row's set of filters is added unless its key has been seen.
  unfoldable pub add_set :
      List Filter
      → List Str
      → (List Str → List (List Filter))
      → Option (List KeyPart)
      → List (List Filter)
  unfolding contains_text join_fragments
  add_set pushdown seen rest none = rest seen
  add_set pushdown seen rest (some parts) =
      let key = join_fragments std fmt (parts_of parts) in
      let skipped = rest seen in
      let added = (filters_of parts ++ pushdown) ∷ rest (key ∷ seen) in
      if contains_text key seen then skipped else added

  unfoldable pub lookup_sets :
      List FlatRow → List ResolvedJoinCondition → List Filter → List Str → List (List Filter)
  unfolding lookup_parts add_set
  lookup_sets [] conditions pushdown seen = []
  lookup_sets (row ∷ rows) conditions pushdown seen =
      add_set pushdown seen (λ s. lookup_sets rows conditions pushdown s)
        (lookup_parts row conditions)

  unfoldable pub lookup_sets_unless_empty :
      List FlatRow → List ResolvedJoinCondition → List Filter → Option (List (List Filter))
  unfolding lookup_sets
  lookup_sets_unless_empty rows [] pushdown = none
  lookup_sets_unless_empty rows (c ∷ conditions) pushdown =
      some (lookup_sets rows (c ∷ conditions) pushdown [])

  unfoldable pub build_join_lookup_filters :
      List FlatRow → ResolvedJoin → List Filter → Option (List (List Filter))
  unfolding lookup_sets_unless_empty
  build_join_lookup_filters current_rows join pushdown =
      lookup_sets_unless_empty current_rows join.conditions pushdown

abbrev pub same_op : ComparisonOp → ComparisonOp → Bool
same_op a b = bytes_eq (as_str a) (as_str b)

abbrev pub same_option : Option Str → Option Str → Bool
same_option none none = true
same_option (some a) (some b) = bytes_eq a b
same_option _ _ = false

abbrev pub same_filter : Filter → Filter → Bool
same_filter f t =
    bytes_eq f.field t.field
    && (same_op f.op t.op && (bytes_eq f.value t.value && same_option f.value_to t.value_to))

abbrev pub all_same : List Filter → List Filter → Bool
all_same [] [] = true
all_same [] (f ∷ fs) = false
all_same (t ∷ ts) [] = false
all_same (t ∷ ts) (f ∷ fs) = same_filter f t && all_same ts fs

-- The value of a set at the varying position, if the set agrees with the template elsewhere.
unfoldable pub varying_value : ℕ → List Filter → List Filter → Option Str
varying_value k [] fs = none
varying_value k (t ∷ ts) [] = none
varying_value zero (t ∷ ts) (f ∷ fs) =
    if bytes_eq f.field t.field && (same_op f.op ComparisonOp.eq && all_same ts fs)
    then some f.value
    else none
varying_value (suc k) (t ∷ ts) (f ∷ fs) =
    let rest = varying_value k ts fs in if same_filter f t then rest else none

abbrev pub push_value : Option Str → Option (List Str) → Option (List Str)
push_value none rest = none
push_value (some v) none = none
push_value (some v) (some vs) = some (v ∷ vs)

unfoldable pub collect_values : ℕ → List Filter → List (List Filter) → Option (List Str)
unfolding varying_value
collect_values k template [] = some []
collect_values k template (fs ∷ sets) =
    push_value (varying_value k template fs) (collect_values k template sets)

-- The first occurrence of every value.
unfoldable pub distinct_values : List Str → List Str → List Str
unfolding contains_text
distinct_values seen [] = []
distinct_values seen (v ∷ vs) =
    let skipped = distinct_values seen vs in
    let added = v ∷ distinct_values (v ∷ seen) vs in if contains_text v seen then skipped else added

-- The template with an In filter at the varying position.
unfoldable pub merged_at : ℕ → Str → List Str → List Filter → List Filter
merged_at k v values [] = []
merged_at zero v values (t ∷ ts) =
    record {
      field = t.field;
      op = ComparisonOp.in_list;
      value = v;
      value_to = none;
      field_type = t.field_type;
      value_options = values;
    }
    ∷ ts
merged_at (suc k) v values (t ∷ ts) = t ∷ merged_at k v values ts

unfoldable pub merged_if : ℕ → List Filter → Option (List Str) → Option (List Filter)
unfolding merged_at
merged_if k template none = none
merged_if k template (some []) = none
merged_if k template (some (v ∷ vs)) = some (merged_at k v (v ∷ vs) template)

unfoldable pub distinct_if : Option (List Str) → Option (List Str)
unfolding distinct_values
distinct_if none = none
distinct_if (some vs) = some (distinct_values [] vs)

abbrev pub first_some : {A : Type 0} → Option A → Option A → Option A
first_some (some a) rest = some a
first_some none rest = rest

-- `'candidate: for vary_idx in 0..template.len()`, from position `k` on.
unfoldable pub first_candidate :
    ℕ → List Filter → List Filter → List (List Filter) → Option (List Filter)
unfolding collect_values distinct_if merged_if
first_candidate k [] template sets = none
first_candidate k (vary ∷ rest) template sets =
    let here =
      if same_op vary.op ComparisonOp.eq
      then merged_if k template (distinct_if (collect_values k template sets))
      else none in
    first_some here (first_candidate (suc k) rest template sets)

abbrev pub merged_or : List (List Filter) → Option (List Filter) → List (List Filter)
merged_or sets none = sets
merged_or sets (some merged) = merged ∷ []

unfoldable pub coalesce_join_lookup_filters : List (List Filter) → List (List Filter)
unfolding first_candidate
coalesce_join_lookup_filters [] = []
coalesce_join_lookup_filters (fs ∷ []) = fs ∷ []
coalesce_join_lookup_filters (template ∷ fs ∷ sets) =
    merged_or (template ∷ fs ∷ sets) (first_candidate 0 template template (template ∷ fs ∷ sets))
