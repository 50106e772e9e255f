-- ===== src/Filter.antt =====
-- Filters on the values of a field (src/core/types.rs).
pub mod Laws
use Prim.Native.Nat.{compare, Ordering}
use bittice.Prelude.{
  Str, codes, bytes_eq, ℕ, Bool, true, false, not, ◌&&◌, ◌||◌, ◌==◌, if◌then◌else◌, Option, none,
  some, List, [], ◌∷◌, ◌++◌, length,
}
use bittice.Dates.{is_date_format}

pub data ComparisonOp : Type 0 where
  eq ne gt gte lt lte in_list between not_in is_null is_not_null contains starts_with ends_with :
      ComparisonOp

unfoldable pub as_str : ComparisonOp → Str
as_str ComparisonOp.eq = codes "Eq"
as_str ComparisonOp.ne = codes "Ne"
as_str ComparisonOp.gt = codes "Gt"
as_str ComparisonOp.gte = codes "Gte"
as_str ComparisonOp.lt = codes "Lt"
as_str ComparisonOp.lte = codes "Lte"
as_str ComparisonOp.in_list = codes "In"
as_str ComparisonOp.between = codes "Between"
as_str ComparisonOp.not_in = codes "NotIn"
as_str ComparisonOp.is_null = codes "IsNull"
as_str ComparisonOp.is_not_null = codes "IsNotNull"
as_str ComparisonOp.contains = codes "Contains"
as_str ComparisonOp.starts_with = codes "StartsWith"
as_str ComparisonOp.ends_with = codes "EndsWith"

unfoldable pub from_str : Str → ComparisonOp
from_str s =
    if bytes_eq s (codes "Eq")
    then ComparisonOp.eq
    else if bytes_eq s (codes "Ne")
    then ComparisonOp.ne
    else if bytes_eq s (codes "Gt")
    then ComparisonOp.gt
    else if bytes_eq s (codes "Gte")
    then ComparisonOp.gte
    else if bytes_eq s (codes "Lt")
    then ComparisonOp.lt
    else if bytes_eq s (codes "Lte")
    then ComparisonOp.lte
    else if bytes_eq s (codes "In")
    then ComparisonOp.in_list
    else if bytes_eq s (codes "Between")
    then ComparisonOp.between
    else if bytes_eq s (codes "NotIn")
    then ComparisonOp.not_in
    else if bytes_eq s (codes "IsNull")
    then ComparisonOp.is_null
    else if bytes_eq s (codes "IsNotNull")
    then ComparisonOp.is_not_null
    else if bytes_eq s (codes "Contains")
    then ComparisonOp.contains
    else if bytes_eq s (codes "StartsWith")
    then ComparisonOp.starts_with
    else if bytes_eq s (codes "EndsWith")
    then ComparisonOp.ends_with
    else ComparisonOp.eq

pub data LogicalOp : Type 0 where
  and_op or_op : LogicalOp

pub data FieldType : Type 0 where
  string int float date : FieldType

pub record Filter : Type 0 where
  pub field : Str
  pub op : ComparisonOp
  pub value : Str
  pub value_to : Option Str
  pub field_type : Option FieldType
  pub value_options : List Str

-- What the standard library knows of Unicode and of floating point: `str::trim`, `str::to_lowercase`,
-- `str::parse::<f64>` and `f64::partial_cmp`.
pub record StdText : Type 1 where
  pub Float : Type 0
  pub trim : Str → Str
  pub to_lowercase : Str → Str
  pub parse_float : Str → Option Float
  pub partial_cmp : Float → Float → Option Ordering

-- `str::cmp`: texts in the order of their bytes.
abbrev pub str_cmp : Str → Str → Ordering
str_cmp [] [] = Ordering.eq
str_cmp [] (b ∷ t) = Ordering.lt
str_cmp (a ∷ s) [] = Ordering.gt
str_cmp (a ∷ s) (b ∷ t) =
    let rest = str_cmp s t in
    elim (compare a b) [
      | Ordering.lt ↦ Ordering.lt
      | Ordering.gt ↦ Ordering.gt
      | Ordering.eq ↦ rest
    ]

-- `str::starts_with`, `str::ends_with` and `str::contains`, on bytes.
abbrev pub str_starts_with : Str → Str → Bool
str_starts_with s [] = true
str_starts_with [] (b ∷ t) = false
str_starts_with (a ∷ s) (b ∷ t) = (a == b) && str_starts_with s t

abbrev pub str_contains : Str → Str → Bool
str_contains [] t = str_starts_with [] t
str_contains (a ∷ s) t = str_starts_with (a ∷ s) t || str_contains s t

abbrev pub str_ends_with : Str → Str → Bool
str_ends_with [] t = bytes_eq [] t
str_ends_with (a ∷ s) t = bytes_eq (a ∷ s) t || str_ends_with s t

-- `value.split([',', ';'])`, with the text since the last separator.
abbrev pub split_list : Str → Str → List Str
split_list current [] = current ∷ []
split_list current (b ∷ s) =
    let cut = current ∷ split_list [] s in
    let kept = split_list (current ++ b ∷ []) s in if (b == b',') || (b == b';') then cut else kept

abbrev pub is_empty_str : Str → Bool
is_empty_str [] = true
is_empty_str (b ∷ s) = false

-- `Option::or_else`.
abbrev pub or_else : {A : Type 0} → Option A → Option A → Option A
or_else none later = later
or_else (some a) later = some a

-- `o == Some(Ordering::Less)`, and the same for the others.
abbrev pub is_less : Option Ordering → Bool
is_less (some Ordering.lt) = true
is_less _ = false

abbrev pub is_equal : Option Ordering → Bool
is_equal (some Ordering.eq) = true
is_equal _ = false

abbrev pub is_greater : Option Ordering → Bool
is_greater (some Ordering.gt) = true
is_greater _ = false

module _ (std : StdText) where
  -- The `match` of `compare_numeric`, after both sides have been parsed.
  abbrev pub compare_parsed : Option std.Float → Option std.Float → Option Ordering
  compare_parsed (some l) (some r) = std.partial_cmp l r
  compare_parsed (some l) none = none
  compare_parsed none r = none

  unfoldable pub compare_numeric : Str → Str → Option Ordering
  compare_numeric left right =
      compare_parsed (std.parse_float (std.trim left)) (std.parse_float (std.trim right))

  unfoldable pub compare_dates : Str → Str → Option Ordering
  compare_dates left right =
      if is_date_format (std.trim left) && is_date_format (std.trim right)
      then some (str_cmp (std.trim left) (std.trim right))
      else none

  unfoldable pub compare_values : Str → Str → Option FieldType → Option Ordering
  unfolding compare_numeric compare_dates
  compare_values left right (some FieldType.int) = compare_numeric left right
  compare_values left right (some FieldType.float) = compare_numeric left right
  compare_values left right (some FieldType.date) = compare_dates left right
  compare_values left right (some FieldType.string) =
      or_else (or_else (compare_numeric left right) (compare_dates left right))
        (some (str_cmp left right))
  compare_values left right none =
      or_else (or_else (compare_numeric left right) (compare_dates left right))
        (some (str_cmp left right))

  -- `.map(|item| item.trim()).filter(|item| !item.is_empty())`
  abbrev pub trimmed_items : List Str → List Str
  trimmed_items [] = []
  trimmed_items (item ∷ items) =
      let rest = trimmed_items items in
      if not (is_empty_str (std.trim item)) then std.trim item ∷ rest else rest

  unfoldable pub list_values : Str → List Str → List Str
  list_values value (option ∷ options) = option ∷ options
  list_values value [] = trimmed_items (split_list [] value)

  unfoldable pub is_nullish : Str → Bool
  is_nullish value = is_empty_str (std.trim value)

  -- `.iter().any(|candidate| compare_values(actual, candidate, field_type) == Some(Equal))`
  abbrev pub any_equal : Str → Option FieldType → List Str → Bool
  any_equal actual ft [] = false
  any_equal actual ft (c ∷ cs) = is_equal (compare_values actual c ft) || any_equal actual ft cs

  -- `.iter().all(|candidate| compare_values(actual, candidate, field_type) != Some(Equal))`
  abbrev pub none_equal : Str → Option FieldType → List Str → Bool
  none_equal actual ft [] = true
  none_equal actual ft (c ∷ cs) =
      not (is_equal (compare_values actual c ft)) && none_equal actual ft cs

  abbrev pub at_least : Str → Str → Option FieldType → Bool
  at_least actual value ft =
      is_greater (compare_values actual value ft) || is_equal (compare_values actual value ft)

  abbrev pub at_most : Str → Str → Option FieldType → Bool
  at_most actual value ft =
      is_less (compare_values actual value ft) || is_equal (compare_values actual value ft)

  -- The branch of `Between`.
  abbrev pub is_between : Str → Str → Option Str → Option FieldType → Bool
  is_between actual value none ft = false
  is_between actual value (some upper) ft = at_least actual value ft && at_most actual upper ft

  unfoldable pub compare_filter_value :
      Str → ComparisonOp → Str → Option Str → List Str → Option FieldType → Bool
  unfolding list_values is_nullish
  compare_filter_value actual ComparisonOp.eq value to options ft =
      is_equal (compare_values actual value ft)
  compare_filter_value actual ComparisonOp.ne value to options ft =
      not (is_equal (compare_values actual value ft))
  compare_filter_value actual ComparisonOp.gt value to options ft =
      is_greater (compare_values actual value ft)
  compare_filter_value actual ComparisonOp.gte value to options ft = at_least actual value ft
  compare_filter_value actual ComparisonOp.lt value to options ft =
      is_less (compare_values actual value ft)
  compare_filter_value actual ComparisonOp.lte value to options ft = at_most actual value ft
  compare_filter_value actual ComparisonOp.in_list value to options ft =
      any_equal actual ft (list_values value options)
  compare_filter_value actual ComparisonOp.not_in value to options ft =
      none_equal actual ft (list_values value options)
  compare_filter_value actual ComparisonOp.between value to options ft =
      is_between actual value to ft
  compare_filter_value actual ComparisonOp.is_null value to options ft = is_nullish actual
  compare_filter_value actual ComparisonOp.is_not_null value to options ft = not (is_nullish actual)
  compare_filter_value actual ComparisonOp.contains value to options ft =
      str_contains (std.to_lowercase actual) (std.to_lowercase value)
  compare_filter_value actual ComparisonOp.starts_with value to options ft =
      str_starts_with (std.to_lowercase actual) (std.to_lowercase value)
  compare_filter_value actual ComparisonOp.ends_with value to options ft =
      str_ends_with (std.to_lowercase actual) (std.to_lowercase value)
