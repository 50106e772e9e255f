-- ===== src/Query/Coalesced/Varying.antt =====
-- The sets of filters that differ at one position (src/core/join_query.rs).
use bittice.Prelude.{
  ℕ, zero, suc, ◌<◌, length, Str, Bool, true, false, ◌&&◌, ◌||◌, Option, none, some, List, [], ◌∷◌,
  if◌then◌else◌, bytes_eq, bytes_eq→eq, any_of, all_of, arith, ◌≡◌, refl, sym, ap, ap₂, ◌∙◌,
  and_left, and_right,
}
use mathlib.Core.Option.{some-injective}
use bittice.Filter.{
  ComparisonOp, Filter, StdText, compare_filter_value, compare_values, any_equal, list_values,
  is_equal,
}
use bittice.Query.Pushdown.{accepts_cell, accepts_field}
use bittice.Query.Lookup.{same_op, same_filter, all_same, varying_value, merged_at}
use bittice.Query.Coalesced.Same.{
  IsUniform, accepts, found_by, same_op-eq, accepts-same_filter, found_by-all_same,
}

-- The template with the value in place of the one at the varying position.
unfoldable pub with_value : ℕ → Str → List Filter → List Filter
with_value k v [] = []
with_value zero v (t ∷ ts) =
    record {
      field = t.field;
      op = ComparisonOp.eq;
      value = v;
      value_to = none;
      field_type = t.field_type;
      value_options = [];
    }
    ∷ ts
with_value (suc k) v (t ∷ ts) = t ∷ with_value k v ts

pub if_some :
    (b : Bool) (o : Option Str) (v : Str)
    → (if b then o else none) ≡ some v
    → (b ≡ true) × (o ≡ some v)
if_some true o v e = (refl, e)
if_some false o v e = cc

module _ (std : StdText) (cell : Str → Option Str) where
  -- An Eq filter asks nothing of its upper bound and its options.
  accepts-eq :
      (f t : Filter) (v : Str)
      → f.op ≡ ComparisonOp.eq
      → f.field ≡ t.field
      → f.value ≡ v
      → f.field_type ≡ t.field_type
      → accepts std cell f
        ≡ accepts std cell (record {
          field = t.field;
          op = ComparisonOp.eq;
          value = v;
          value_to = none;
          field_type = t.field_type;
          value_options = [];
        })
  unfolding accepts_field compare_filter_value
  accepts-eq f t v is_eq field value types = rw (is_eq, field, value, types) (either (cell t.field))
    where
      either :
          (o : Option Str)
          → accepts_cell std
              (record {
                field = t.field;
                op = ComparisonOp.eq;
                value = v;
                value_to = f.value_to;
                field_type = t.field_type;
                value_options = f.value_options;
              })
              o
            ≡ accepts_cell std
                (record {
                  field = t.field;
                  op = ComparisonOp.eq;
                  value = v;
                  value_to = none;
                  field_type = t.field_type;
                  value_options = [];
                })
                o
      either none = refl
      either (some actual) = refl

  pub found_by-varying_value :
      (k : ℕ) (ts fs : List Filter) (v : Str)
      → varying_value k ts fs ≡ some v
      → IsUniform ts fs
      → found_by std cell fs ≡ found_by std cell (with_value k v ts)
  unfolding varying_value found_by all_of with_value
  found_by-varying_value k [] fs v e uniform = cc
  found_by-varying_value k (t ∷ ts) [] v e uniform = cc
  found_by-varying_value zero (t ∷ ts) (f ∷ fs) v e (types, options, uniform) =
      ap₂ (λ a b. a && b)
        (accepts-eq f t v
          (same_op-eq f.op ComparisonOp.eq (and_left (same_op f.op ComparisonOp.eq) _ rest))
          (bytes_eq→eq f.field t.field (and_left (bytes_eq f.field t.field) _ agrees.0))
          (some-injective f.value v agrees.1) types)
        (found_by-all_same std cell ts fs (and_right (same_op f.op ComparisonOp.eq) _ rest) uniform)
    where
      agrees :
          ((bytes_eq f.field t.field && (same_op f.op ComparisonOp.eq && all_same ts fs)) ≡ true)
          × (some f.value ≡ some v)
      agrees = if_some _ (some f.value) v e

      rest : (same_op f.op ComparisonOp.eq && all_same ts fs) ≡ true
      rest = and_right (bytes_eq f.field t.field) _ agrees.0
  found_by-varying_value (suc k) (t ∷ ts) (f ∷ fs) v e (types, options, uniform) =
      let agrees : (same_filter f t ≡ true) × (varying_value k ts fs ≡ some v) =
        if_some (same_filter f t) (varying_value k ts fs) v e in
      ap₂ (λ a b. a && b) (accepts-same_filter std cell f t agrees.0 types options)
        (found_by-varying_value k ts fs v agrees.1 uniform)

  -- The merged filter accepts what one of its values' Eq filters accepts.
  accepts-in_list :
      (t : Filter) (v : Str) (vs : List Str) (o : Option Str)
      → accepts_cell std
          (record {
            field = t.field;
            op = ComparisonOp.in_list;
            value = v;
            value_to = none;
            field_type = t.field_type;
            value_options = v ∷ vs;
          })
          o
        ≡ any_of
            (λ w.
              accepts_cell std
                (record {
                  field = t.field;
                  op = ComparisonOp.eq;
                  value = w;
                  value_to = none;
                  field_type = t.field_type;
                  value_options = [];
                })
                o)
            (v ∷ vs)
  unfolding compare_filter_value list_values any_of
  accepts-in_list t v vs none = never vs
    where
      never : (vs : List Str) → false ≡ any_of (λ w. false) vs
      never [] = refl
      never (v ∷ vs) = never vs
  accepts-in_list t v vs (some actual) = each (v ∷ vs)
    where
      each :
          (vs : List Str)
          → any_equal std actual t.field_type vs
            ≡ any_of (λ w. is_equal (compare_values std actual w t.field_type)) vs
      each [] = refl
      each (v ∷ vs) = ap (λ b. is_equal (compare_values std actual v t.field_type) || b) (each vs)

  -- Conjunction distributes over the alternatives.
  any_of-and_right :
      (p : Str → Bool) (b : Bool) (vs : List Str) → any_of (λ w. p w && b) vs ≡ (any_of p vs && b)
  unfolding any_of
  any_of-and_right p b [] = refl
  any_of-and_right p b (v ∷ vs) = ground (arith, any_of-and_right p b vs)

  any_of-and_left :
      (p : Str → Bool) (b : Bool) (vs : List Str) → any_of (λ w. b && p w) vs ≡ (b && any_of p vs)
  unfolding any_of
  any_of-and_left p b [] = ground arith
  any_of-and_left p b (v ∷ vs) = ground (arith, any_of-and_left p b vs)

  pub found_by-merged_at :
      (k : ℕ) (ts : List Filter) (v : Str) (vs : List Str)
      → k < length ts
      → found_by std cell (merged_at k v (v ∷ vs) ts)
        ≡ any_of (λ w. found_by std cell (with_value k w ts)) (v ∷ vs)
  unfolding found_by merged_at with_value all_of accepts_field
  found_by-merged_at k [] v vs inside = absurd (omega arith)
  found_by-merged_at zero (t ∷ ts) v vs inside =
      ap (λ b. b && found_by std cell ts) (accepts-in_list t v vs (cell t.field))
      ∙ sym (any_of-and_right _ (found_by std cell ts) (v ∷ vs))
  found_by-merged_at (suc k) (t ∷ ts) v vs inside =
      ap (λ b. accepts std cell t && b) (found_by-merged_at k ts v vs (omega arith))
      ∙ sym (any_of-and_left _ (accepts std cell t) (v ∷ vs))
