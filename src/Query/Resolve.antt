-- ===== src/Query/Resolve.antt =====
-- The joins of a saved query, resolved and checked (src/core/join_query.rs): every join gets a new alias
-- and is connected to the aliases before it.
use bittice.Prelude.{
  is_some, is_nil, Str, codes, Bool, false, not, ◌&&◌, ◌||◌, ◌==◌, Option, none, some, List, [],
  ◌∷◌, if◌then◌else◌, Result, ok, err, ◌>>=◌, bytes_eq, any_of,
}
use bittice.Filter.{StdText, is_empty_str}
use bittice.Query.{QualifiedField, ResolvedJoin, ResolvedJoinCondition, JoinKind, inner, left}
use bittice.Query.Lookup.{contains_text}
use bittice.Prelude.Texts.{eq_ignore_ascii_case}
use bittice.Query.Fields.{
  QueryError, duplicate_alias, no_condition, unsupported_join, unsupported_op, unconnected,
  not_unqualified, sum_fields_differ, same_sum_fields, parse_qualified_field,
}

pub record SavedJoinCondition : Type 0 where
  pub left : Str
  pub op : Str
  pub right : Str

pub record SavedJoin : Type 0 where
  pub join_type : Str
  pub entity : Option Str
  pub table : Str
  pub alias : Option Str
  pub on : List SavedJoinCondition
  pub count_matches_as : Option Str
  pub sum_matches_field : Option Str
  pub sum_matches_as : Option Str

-- `.map(trim).filter(|s| !s.is_empty())`
abbrev pub trimmed : (Str → Str) → Option Str → Option Str
trimmed trim none = none
trimmed trim (some s) = if not (is_empty_str (trim s)) then some (trim s) else none

abbrev pub unwrap_or : {A : Type 0} → A → Option A → A
unwrap_or d none = d
unwrap_or d (some a) = a

unfoldable pub has_dot : Option Str → Bool
unfolding any_of
has_dot none = false
has_dot (some name) = any_of (λ b. b == b'.') name

abbrev pub same_ignoring_case : Option Str → Option Str → Bool
same_ignoring_case (some f) (some a) = eq_ignore_ascii_case f a
same_ignoring_case _ _ = false

unfoldable pub join_kind : Str → Result QueryError JoinKind
join_kind lower =
    if bytes_eq lower (codes "inner")
    then ok inner
    else if bytes_eq lower (codes "left")
    then ok left
    else err unsupported_join

-- The two sides of a condition, the new alias' field as the joining side.
unfoldable pub connect :
    Str → List Str → QualifiedField → QualifiedField → Result QueryError ResolvedJoinCondition
unfolding contains_text
connect alias bound l r =
    if bytes_eq l.alias alias && contains_text r.alias bound
    then ok (record { existing_side = r; joining_side = l })
    else if bytes_eq r.alias alias && contains_text l.alias bound
    then ok (record { existing_side = l; joining_side = r })
    else err unconnected

module _ (std : StdText) (base_alias : Str) where
  unfoldable pub resolve_condition :
      Str → List Str → SavedJoinCondition → Result QueryError ResolvedJoinCondition
  unfolding parse_qualified_field connect
  resolve_condition alias bound c =
      let parsed = parse_qualified_field std c.left base_alias >>= λ l.
      parse_qualified_field std c.right base_alias >>= λ r. connect alias bound l r in
      if not (eq_ignore_ascii_case c.op (codes "Eq")) then err unsupported_op else parsed

  unfoldable pub resolve_conditions :
      Str → List Str → List SavedJoinCondition → Result QueryError (List ResolvedJoinCondition)
  unfolding resolve_condition
  resolve_conditions alias bound [] = ok []
  resolve_conditions alias bound (c ∷ cs) =
      let later = resolve_conditions alias bound cs in
      resolve_condition alias bound c >>= λ first. later >>= λ rest. ok (first ∷ rest)

  -- The checks of the names that a join counts and sums into.
  unfoldable pub check_names : SavedJoin → Result {0, 0} QueryError Unit
  unfolding has_dot
  check_names join =
      let count = trimmed std.trim join.count_matches_as in
      let field = trimmed std.trim join.sum_matches_field in
      let as_ = trimmed std.trim join.sum_matches_as in
      if has_dot count
      then err not_unqualified
      else if not (if is_some field then is_some as_ else not (is_some as_))
      then err sum_fields_differ
      else if has_dot field || has_dot as_
      then err not_unqualified
      else if same_ignoring_case field as_
      then err same_sum_fields
      else ok tt

  abbrev pub join_alias : SavedJoin → Str
  join_alias join = unwrap_or join.table (trimmed std.trim join.alias)

  unfoldable pub resolved : SavedJoin → Str → JoinKind → List ResolvedJoinCondition → ResolvedJoin
  resolved join base_entity kind conditions = record {
    entity = unwrap_or base_entity join.entity;
    table = join.table;
    alias = join_alias join;
    kind = kind;
    conditions = conditions;
    count_matches_as = trimmed std.trim join.count_matches_as;
    sum_matches_field = trimmed std.trim join.sum_matches_field;
    sum_matches_as = trimmed std.trim join.sum_matches_as;
  }

  unfoldable pub resolve_join : SavedJoin → List Str → Str → Result QueryError ResolvedJoin
  unfolding contains_text join_kind resolve_conditions check_names resolved
  resolve_join join bound base_entity =
      let checked = join_kind (std.to_lowercase join.join_type) >>= λ kind.
      resolve_conditions (join_alias join) bound join.on >>= λ conditions.
      check_names join >>= λ checked. ok (resolved join base_entity kind conditions) in
      if contains_text (join_alias join) bound
      then err duplicate_alias
      else if is_nil join.on
      then err no_condition
      else checked

  -- The joins in their order; the alias of each is bound for those after it.
  unfoldable pub resolve_joins_from :
      List SavedJoin → List Str → Str → Result QueryError (List ResolvedJoin)
  unfolding resolve_join
  resolve_joins_from [] bound base_entity = ok []
  resolve_joins_from (join ∷ joins) bound base_entity =
      let later = resolve_joins_from joins (join_alias join ∷ bound) base_entity in
      resolve_join join bound base_entity >>= λ first. later >>= λ rest. ok (first ∷ rest)

  unfoldable pub resolve_joins : List SavedJoin → Str → Result QueryError (List ResolvedJoin)
  unfolding resolve_joins_from
  resolve_joins joins base_entity = resolve_joins_from joins (base_alias ∷ []) base_entity
