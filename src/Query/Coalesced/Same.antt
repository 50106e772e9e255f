-- ===== src/Query/Coalesced/Same.antt =====
-- Filters that agree, and the rows that a set of filters finds (src/core/join_query.rs).
use bittice.Prelude.{
  Str, Bool, true, ◌&&◌, Option, none, some, List, [], ◌∷◌, bytes_eq, bytes_eq→eq, all_of, ◌≡◌,
  refl, sym, ap, ◌∙◌, and_left, and_right,
}
use bittice.Filter.{ComparisonOp, as_str, from_str, Filter, StdText}
use bittice.Filter.Laws.{from_str-as_str}
use bittice.Query.Pushdown.{accepts_cell}
use bittice.Query.Lookup.{same_op, same_option, same_filter, all_same}

-- Two sets of filters have the same types and options at every position, as the lookups of one join do.
abbrev pub IsUniform : List Filter → List Filter → Type 0
IsUniform [] fs = Unit
IsUniform (t ∷ ts) [] = Unit
IsUniform (t ∷ ts) (f ∷ fs) =
    (f.field_type ≡ t.field_type) × (f.value_options ≡ t.value_options) × IsUniform ts fs

pub same_op-eq : (a b : ComparisonOp) → same_op a b ≡ true → a ≡ b
same_op-eq a b h =
    sym (from_str-as_str a) ∙ ap from_str (bytes_eq→eq (as_str a) (as_str b) h) ∙ from_str-as_str b

same_option-eq : (a b : Option Str) → same_option a b ≡ true → a ≡ b
same_option-eq none none h = refl
same_option-eq none (some b) h = cc
same_option-eq (some a) none h = cc
same_option-eq (some a) (some b) h = ap some (bytes_eq→eq a b h)

same_filter-eq :
    (f t : Filter)
    → same_filter f t ≡ true
    → f.field_type ≡ t.field_type
    → f.value_options ≡ t.value_options
    → f ≡ t
same_filter-eq f t same types options = λ i. record {
  field = fields i;
  op = ops i;
  value = values i;
  value_to = uppers i;
  field_type = types i;
  value_options = options i;
}
  where
    after_field :
        (same_op f.op t.op && (bytes_eq f.value t.value && same_option f.value_to t.value_to))
        ≡ true
    after_field = and_right (bytes_eq f.field t.field) _ same

    after_op : (bytes_eq f.value t.value && same_option f.value_to t.value_to) ≡ true
    after_op = and_right (same_op f.op t.op) _ after_field

    fields : f.field ≡ t.field
    fields = bytes_eq→eq f.field t.field (and_left (bytes_eq f.field t.field) _ same)

    ops : f.op ≡ t.op
    ops = same_op-eq f.op t.op (and_left (same_op f.op t.op) _ after_field)

    values : f.value ≡ t.value
    values = bytes_eq→eq f.value t.value (and_left (bytes_eq f.value t.value) _ after_op)

    uppers : f.value_to ≡ t.value_to
    uppers = same_option-eq f.value_to t.value_to (and_right (bytes_eq f.value t.value) _ after_op)

-- The row has the values `cell` in its fields.
module _ (std : StdText) (cell : Str → Option Str) where
  abbrev pub accepts : Filter → Bool
  accepts f = accepts_cell std f (cell f.field)

  -- A row is found by a set of filters if all of them accept it.
  unfoldable pub found_by : List Filter → Bool
  unfolding all_of
  found_by filters = all_of accepts filters

  pub accepts-same_filter :
      (f t : Filter)
      → same_filter f t ≡ true
      → f.field_type ≡ t.field_type
      → f.value_options ≡ t.value_options
      → accepts f ≡ accepts t
  accepts-same_filter f t same types options = ap accepts (same_filter-eq f t same types options)

  pub found_by-all_same :
      (ts fs : List Filter) → all_same ts fs ≡ true → IsUniform ts fs → found_by fs ≡ found_by ts
  unfolding found_by all_of
  found_by-all_same [] [] same uniform = refl
  found_by-all_same [] (f ∷ fs) same uniform = cc
  found_by-all_same (t ∷ ts) [] same uniform = cc
  found_by-all_same (t ∷ ts) (f ∷ fs) same (types, options, uniform) =
      let here : accepts f ≡ accepts t =
        accepts-same_filter f t (and_left (same_filter f t) (all_same ts fs) same) types options in
      let rest : found_by fs ≡ found_by ts =
        found_by-all_same ts fs (and_right (same_filter f t) (all_same ts fs) same) uniform in
      rw (here, rest) refl
