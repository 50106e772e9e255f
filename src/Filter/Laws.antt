-- ===== src/Filter/Laws.antt =====
-- What the operators of a filter say of each other (src/core/types.rs).
use bittice.Prelude.{Str, ◌≡◌, refl, not, Option, List, [], ◌∷◌, inl, inr, Bool-cases}
use bittice.Filter.{
  ComparisonOp, as_str, from_str, FieldType, StdText, compare_filter_value, any_equal, none_equal,
  list_values, is_equal, compare_values,
}

-- The name that `as_str` gives an operator is read back by `from_str` as that operator, for each of the
-- fourteen operators.
pub from_str-as_str : (op : ComparisonOp) → from_str (as_str op) ≡ op
unfolding from_str as_str
from_str-as_str ComparisonOp.eq = refl
from_str-as_str ComparisonOp.ne = refl
from_str-as_str ComparisonOp.gt = refl
from_str-as_str ComparisonOp.gte = refl
from_str-as_str ComparisonOp.lt = refl
from_str-as_str ComparisonOp.lte = refl
from_str-as_str ComparisonOp.in_list = refl
from_str-as_str ComparisonOp.between = refl
from_str-as_str ComparisonOp.not_in = refl
from_str-as_str ComparisonOp.is_null = refl
from_str-as_str ComparisonOp.is_not_null = refl
from_str-as_str ComparisonOp.contains = refl
from_str-as_str ComparisonOp.starts_with = refl
from_str-as_str ComparisonOp.ends_with = refl

-- Operators that a user reads as opposites.
pub data IsOpposite : ComparisonOp → ComparisonOp → Type 0 where
  eq_ne : IsOpposite ComparisonOp.eq ComparisonOp.ne
  in_not_in : IsOpposite ComparisonOp.in_list ComparisonOp.not_in
  null_not_null : IsOpposite ComparisonOp.is_null ComparisonOp.is_not_null

module _ (std : StdText) (actual : Str) (ft : Option FieldType) where
  none_equal-any_equal :
      (cs : List Str) → none_equal std actual ft cs ≡ not (any_equal std actual ft cs)
  none_equal-any_equal [] = refl
  none_equal-any_equal (c ∷ cs) = elim (Bool-cases (is_equal (compare_values std actual c ft))) [
    | inl same ↦ rw same refl
    | inr other ↦ rw other (none_equal-any_equal cs)
  ]

-- An operator and its opposite (Eq and Ne, In and NotIn, IsNull and IsNotNull) with the same operands
-- never both accept a value and never both reject it, also where the comparison of the field's type
-- does not compare the operands.
pub compare_filter_value-opposite :
    (std : StdText) (op other : ComparisonOp) (actual value : Str) (to : Option Str)
    (options : List Str) (ft : Option FieldType)
    → IsOpposite op other
    → compare_filter_value std actual other value to options ft
      ≡ not (compare_filter_value std actual op value to options ft)
unfolding compare_filter_value
compare_filter_value-opposite std op other actual value to options ft eq_ne = refl
compare_filter_value-opposite std op other actual value to options ft in_not_in =
    none_equal-any_equal std actual ft (list_values std value options)
compare_filter_value-opposite std op other actual value to options ft null_not_null = refl
