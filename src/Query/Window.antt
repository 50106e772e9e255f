-- ===== src/Query/Window.antt =====
-- The early window of a query over several tables (src/core/join_query.rs): when only left joins
-- remain, the rows are cut to the window of the page before these joins.
use bittice.Prelude.{
  is_some, is_nil, ℕ, zero, suc, ◌+◌, ◌≤◌, min, Str, Bool, true, false, not, ◌&&◌, ◌==◌, ltb,
  le→ltb, Option, none, some, List, [], ◌∷◌, if◌then◌else◌, ok, err, length, length-append, take,
  drop, bytes_eq, any_of, all_of, concat_map, take-concat_map, drop-take, arith, ◌≡◌, refl, sym, ap,
  ◌∙◌, inl, inr, ◌⊎◌, Bool-cases,
}
use bittice.Filter.{StdText}
use bittice.Query.{
  ResolvedFilter, ResolvedFilterTreeNode, ResolvedOrderBy, ResolvedJoin, JoinKind, inner, left,
  FlatRow, StdFormat, compose_key,
}
use bittice.Query.Join.{
  result_limit, build_join_index, apply_join, aggregate_join, aggregate_row, expand_row, and_then,
  no_match_row, existing_fields,
}
use bittice.Query.NestedLoop.{nested_row, nonempty, rows_with_key, apply_join-build_join_index}

abbrev usize_max : ℕ
usize_max = 18446744073709551615

abbrev is_left : ResolvedJoin → Bool
is_left join = left_kind join.kind
  where
    left_kind : JoinKind → Bool
    left_kind inner = false
    left_kind left = true

-- A set of aliases is a list, of which `contains` is asked.
unfoldable pub can_apply_early_window :
    {J : Type 0}
    → List ResolvedFilter
    → Option ResolvedFilterTreeNode
    → List ResolvedOrderBy
    → List J
    → List Str
    → List ResolvedJoin
    → Bool
unfolding all_of any_of
can_apply_early_window filters tree order_by aggregations aliases remaining =
    if is_nil order_by
    then false
    else if is_some tree
    then false
    else if not (is_nil aggregations)
    then false
    else if not (all_of (λ f. any_of (λ a. bytes_eq a f.field.alias) aliases) filters)
    then false
    else if not (all_of (λ o. any_of (λ a. bytes_eq a o.field.alias) aliases) order_by)
    then false
    else all_of is_left remaining

-- `offset.saturating_add(limit)`, and `truncate` to it if it is positive and below the length.
unfoldable pub truncate_early : {A : Type 0} → ℕ → ℕ → List A → List A
truncate_early offset limit rows =
    let window = min usize_max (offset + limit) in
    if ltb 0 window && ltb window (length rows) then take window rows else rows

-- `if limit == 0 { Vec::new() } else { rows.iter().skip(offset).take(limit).collect() }`
unfoldable pub paged_rows : {A : Type 0} → ℕ → ℕ → List A → List A
paged_rows offset limit rows = if limit == 0 then [] else take limit (drop offset rows)

module _ {A B : Type 0} (f : A → List B) (yields : (a : A) → 1 ≤ length (f a)) where
  length-concat_map : (xs : List A) → length xs ≤ length (concat_map f xs)
  unfolding concat_map
  length-concat_map [] = omega arith
  length-concat_map (x ∷ xs) =
      omega (arith, yields x, length-concat_map xs, length-append (f x) (concat_map f xs))

  length-concat_map-take :
      (n : ℕ) (xs : List A) → length (concat_map f (take n xs)) ≤ length (concat_map f xs)
  unfolding concat_map
  length-concat_map-take zero xs = omega arith
  length-concat_map-take (suc n) [] = omega arith
  length-concat_map-take (suc n) (x ∷ xs) = omega (
    arith,
    length-concat_map-take n xs,
    length-append (f x) (concat_map f (take n xs)),
    length-append (f x) (concat_map f xs),
  )

  -- The window is cut at the end of the page, or not at all.
  truncate_early_cases :
      (offset limit : ℕ) (xs : List A)
      → length xs ≤ 200000
      → (truncate_early offset limit xs ≡ take (offset + limit) xs)
        ⊎ (truncate_early offset limit xs ≡ xs)
  unfolding truncate_early
  truncate_early_cases offset limit xs short =
      let window : ℕ = min usize_max (offset + limit) in
      elim (Bool-cases (ltb 0 window && ltb window (length xs))) [
        | inl cut ↦ inl (rw cut (ap (λ n. take n xs) (inside cut)))
        | inr whole ↦ inr (rw whole refl)
      ]
    where
      inside :
          (ltb 0 (min usize_max (offset + limit))
              && ltb (min usize_max (offset + limit)) (length xs))
            ≡ true
          → min usize_max (offset + limit) ≡ offset + limit
      inside cut = ground (arith, cut, short)

  paged_rows-truncate_early :
      (offset limit : ℕ) (xs : List A)
      → length (concat_map f xs) ≤ 200000
      → (length (concat_map f (truncate_early offset limit xs)) ≤ 200000)
        × (paged_rows offset limit (concat_map f (truncate_early offset limit xs))
            ≡ paged_rows offset limit (concat_map f xs))
  unfolding paged_rows
  paged_rows-truncate_early offset limit xs fits =
      elim (truncate_early_cases offset limit xs (omega (arith, fits, length-concat_map xs))) [
        | inl cut ↦ rw cut (omega (arith, fits, length-concat_map-take (offset + limit) xs), page)
        | inr whole ↦ rw whole (fits, refl)
      ]
    where
      page :
          paged_rows offset limit (concat_map f (take (offset + limit) xs))
          ≡ paged_rows offset limit (concat_map f xs)
      page =
          ap (λ t. if limit == 0 then [] else t)
            (drop-take offset limit (concat_map f (take (offset + limit) xs))
              ∙ ap (drop offset) (take-concat_map (offset + limit) f xs yields)
              ∙ sym (drop-take offset limit (concat_map f xs)))

pub ok_within :
    (over : Bool) (full out : List FlatRow)
    → (if over then err result_limit else ok full) ≡ ok out
    → (over ≡ false) × (full ≡ out)
ok_within true full out h = cc
ok_within false full out h = (refl, cc)

module _ (std : StdText) (fmt : StdFormat std) where
  nested_row_left :
      (join : ResolvedJoin) (right : List FlatRow) (row : FlatRow)
      → join.kind ≡ left
      → 1 ≤ length (nested_row std fmt join right row)
  unfolding nested_row no_match_row aggregate_row expand_row
  nested_row_left join right row kept = elim (Bool-cases (aggregate_join join)) [
    | inl agg ↦ rw agg (aggregated (and_then composed found))
    | inr plain ↦ rw plain (expanded composed)
  ]
    where
      composed : Option Str
      composed = compose_key std fmt row (existing_fields join.conditions)

      found : Str → Option (List FlatRow)
      found key = nonempty (rows_with_key std fmt key join.conditions right)

      unmatched_row : 1 ≤ length (no_match_row std fmt join row)
      unmatched_row = rw kept (omega arith)

      aggregated : (o : Option (List FlatRow)) → 1 ≤ length (aggregate_row std fmt join row o)
      aggregated none = unmatched_row
      aggregated (some []) = unmatched_row
      aggregated (some (m ∷ ms)) = omega arith

      matched : (rows : List FlatRow) → 1 ≤ length (expand_row std fmt join row (nonempty rows))
      matched [] = rw kept (omega arith)
      matched (m ∷ ms) = omega arith

      expanded : (o : Option Str) → 1 ≤ length (expand_row std fmt join row (and_then o found))
      expanded none = matched []
      expanded (some key) = matched (rows_with_key std fmt key join.conditions right)

  -- If a left join of the current rows to the fetched ones stays within the limit, then it does so when
  -- the current rows are cut to the early window first, and the page of every offset and limit is the
  -- same.
  pub paged_rows-apply_join :
      (join : ResolvedJoin) (right current out : List FlatRow) (offset limit : ℕ)
      → join.kind ≡ left
      → apply_join std fmt current join (build_join_index std fmt right join.conditions) ≡ ok out
      → (early : List FlatRow) × (apply_join std fmt
            (truncate_early offset limit current)
            join
            (build_join_index std fmt right join.conditions)
          ≡ ok early)
        × (paged_rows offset limit early ≡ paged_rows offset limit out)
  paged_rows-apply_join join right current out offset limit kept joined = (
    concat_map joins shortened,
    apply_join-build_join_index std fmt join right shortened
        ∙ rw (le→ltb 200000 (length (concat_map joins shortened)) (page.0)) refl,
    page.1 ∙ ap (paged_rows offset limit) fits.1,
  )
    where
      joins : FlatRow → List FlatRow
      joins = nested_row std fmt join right

      full : List FlatRow
      full = concat_map joins current

      shortened : List FlatRow
      shortened = truncate_early offset limit current

      fits : (ltb 200000 (length full) ≡ false) × (full ≡ out)
      fits =
          ok_within (ltb 200000 (length full)) full out
            (sym (apply_join-build_join_index std fmt join right current) ∙ joined)

      bounded : ltb 200000 (length full) ≡ false → length full ≤ 200000
      bounded h = ground (arith, h)

      page :
          (length (concat_map joins shortened) ≤ 200000)
          × (paged_rows offset limit (concat_map joins shortened)
              ≡ paged_rows offset limit (concat_map joins current))
      page =
          paged_rows-truncate_early joins (λ row. nested_row_left join right row kept) offset limit
            current (bounded fits.0)
