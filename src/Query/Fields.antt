-- ===== src/Query/Fields.antt =====
-- References of a saved query (src/core/join_query.rs): fields qualified by an alias, and parameters
-- with their transforms.
use bittice.Prelude.{
  Str, codes, not, ◌==◌, Option, none, some, List, [], ◌∷◌, if◌then◌else◌, Result, ok, err, ◌>>=◌,
  ok_or, get_elem?, drop, bytes_eq, find, map,
}
use bittice.Prelude.Texts.{split_first, split, parse_usize, eq_ignore_ascii_case}
use bittice.Filter.{StdText, LogicalOp, and_op, or_op, is_empty_str, str_starts_with}
use bittice.Query.{QualifiedField, qualify}

pub data QueryError : Type 0 where
  empty_field wildcard_field missing_param empty_delimiter missing_index bad_index out_of_bounds :
      QueryError
  unsupported_transform duplicate_alias no_condition unsupported_join unsupported_op : QueryError
  unconnected not_unqualified sum_fields_differ same_sum_fields : QueryError

-- The alias and the field, which falls back to the base alias.
abbrev pub alias_and_field : (Str → Str) → Str → Str → Option Str → Str × Str
alias_and_field trim base first none = (base, first)
alias_and_field trim base first (some second) =
    if not (is_empty_str (trim second)) then (first, trim second) else (base, first)

unfoldable pub qualified_field : Str × Str → QualifiedField
unfolding qualify
qualified_field (alias, field) = record {
  alias = alias;
  field = field;
  qualified = qualify alias field;
}

unfoldable pub parse_qualified_field : StdText → Str → Str → Result QueryError QualifiedField
unfolding split_first qualified_field
parse_qualified_field std value base_alias =
    let trimmed = std.trim value in
    let parts = split_first b'.' trimmed in
    if is_empty_str trimmed
    then err empty_field
    else if bytes_eq trimmed (codes "*")
    then err wildcard_field
    else ok (qualified_field (alias_and_field std.trim base_alias (std.trim parts.0) parts.1))

unfoldable pub parse_logical_op : Str → LogicalOp
parse_logical_op value = if eq_ignore_ascii_case value (codes "Or") then or_op else and_op

-- `splitn(2, ':')` of the text after `split:`, and the segment it asks for.
unfoldable pub segment_at : Str → Option Str → Str → Result QueryError Str
unfolding parse_usize split
segment_at delimiter none value = err missing_index
segment_at delimiter (some index_raw) value = ok_or bad_index (parse_usize index_raw) >>= λ index.
    ok_or out_of_bounds (get_elem? (split delimiter value) index)

unfoldable pub split_transform : Str → Str → Result QueryError Str
unfolding split_first segment_at
split_transform split_spec value =
    let parts = split_first b':' split_spec in
    if is_empty_str parts.0 then err empty_delimiter else segment_at parts.0 parts.1 value

module _ (std : StdText) (to_uppercase : Str → Str) where
  unfoldable pub apply_transform : Str → Str → Result QueryError Str
  unfolding split_transform
  apply_transform transform value =
      if eq_ignore_ascii_case transform (codes "trim")
      then ok (std.trim value)
      else if eq_ignore_ascii_case transform (codes "lowercase")
      then ok (std.to_lowercase value)
      else if eq_ignore_ascii_case transform (codes "uppercase")
      then ok (to_uppercase value)
      else if str_starts_with transform (codes "split:")
      then split_transform (drop 6 transform) value
      else err unsupported_transform

  unfoldable pub apply_transforms : List Str → Str → Result QueryError Str
  unfolding apply_transform
  apply_transforms [] value = ok value
  apply_transforms (t ∷ ts) value = apply_transform t value >>= λ v. apply_transforms ts v

  unfoldable pub resolve_spec : List Str → List (Str × Str) → Result QueryError Str
  unfolding find apply_transforms
  resolve_spec [] params_map = err missing_param
  resolve_spec (key ∷ transforms) params_map =
      ok_or missing_param (find key params_map) >>= λ value. apply_transforms transforms value

  unfoldable pub resolve_param : Str → List (Str × Str) → Result QueryError Str
  unfolding split resolve_spec
  resolve_param [] params_map = ok []
  resolve_param (b ∷ spec) params_map =
      if b == b'$' then resolve_spec (split (codes "|") spec) params_map else ok (b ∷ spec)

  unfoldable pub listed_param : List (Str × Str) → Str → Str
  unfolding find
  listed_param params_map [] = []
  listed_param params_map (b ∷ key) = if b == b'$' then found (find key params_map) else b ∷ key
    where
      found : Option Str → Str
      found none = b ∷ key
      found (some value) = value

  unfoldable pub resolve_param_list : List Str → List (Str × Str) → List Str
  unfolding listed_param
  resolve_param_list values params_map = map (λ raw. listed_param params_map raw) values
