-- ===== src/Query/Pushdown/Rejected.antt =====
-- Rows that the pushed filters reject are rejected after the join (src/core/join_query.rs).
use bittice.Prelude.{
  Str, Bool, true, false, ◌&&◌, Option, none, some, List, [], ◌∷◌, if◌then◌else◌, map, bytes_eq,
  bytes_eq→eq, find, set, find-set, retain, all_of, retain-nil, retain-All, All, arith, ◌≡◌, refl,
  ap, ◌∙◌, inl, inr, Bool-cases,
}
use bittice.Filter.{Filter, StdText, and_op}
use bittice.Query.{
  ResolvedFilter, ResolvedJoin, JoinKind, inner, left, FlatRow, StdFormat, qualify, accepts_value,
  evaluate_filter, passes, compose_key,
}
use bittice.Query.Join.{
  merge_fields, aggregate_join, expand_row, and_then, existing_fields, unmatched, joining_fields,
}
use bittice.Query.NestedLoop.{nested_row, nonempty, has_key, rows_with_key}
use bittice.Query.Pushdown.{
  pushdown_filter, collect_pushdown_filters, accepts_cell, accepts_field, IsQualified, IsApart,
}

find-merge_fields :
    (key : Str) (row matched : FlatRow)
    → find key matched ≡ none
    → find key (merge_fields row matched) ≡ find key row
unfolding merge_fields find
find-merge_fields key row [] absent = refl
find-merge_fields key row ((field, value) ∷ matched) absent =
    elim (Bool-cases (bytes_eq field key)) [
      | inl same ↦ absurd (no_entry (bytes_eq field key) same absent)
      | inr other ↦
          find-merge_fields key (set field value row) matched
            (later (bytes_eq field key) other absent)
          ∙ find-set field key value row
          ∙ rw other refl
    ]
  where
    no_entry : (b : Bool) → b ≡ true → (if b then some value else find key matched) ≡ none → ⊥
    no_entry true same absent = cc
    no_entry false same absent = cc

    later :
        (b : Bool)
        → b ≡ false
        → (if b then some value else find key matched) ≡ none
        → find key matched ≡ none
    later true other absent = cc
    later false other absent = absent

module _ (std : StdText) (base : Str) where
  accepts_field-pushdown_filter :
      (f : ResolvedFilter) (row m : FlatRow)
      → IsQualified f
      → ((field : Str) → find (qualify base field) m ≡ find (qualify base field) row)
      → f.field.alias ≡ base
      → evaluate_filter std m f ≡ accepts_field std base row (pushdown_filter f)
  unfolding evaluate_filter accepts_field
  accepts_field-pushdown_filter f row m qualified agree own =
      ap (λ q. accepts_value std f (find q m)) (qualified ∙ ap (λ a. qualify a f.field.field) own)
      ∙ ap (accepts_value std f) (agree f.field.field)
      ∙ either (find (qualify base f.field.field) row)
    where
      either : (o : Option Str) → accepts_value std f o ≡ accepts_cell std (pushdown_filter f) o
      either none = refl
      either (some actual) = refl

  -- A row that the pushed filters reject is rejected by the query's filters, also with the fields that a
  -- join has added to it.
  rejected :
      (filters : List ResolvedFilter) (row m : FlatRow)
      → All IsQualified filters
      → ((field : Str) → find (qualify base field) m ≡ find (qualify base field) row)
      → all_of (accepts_field std base row) (collect_pushdown_filters filters none base) ≡ false
      → all_of (evaluate_filter std m) filters ≡ false
  unfolding all_of collect_pushdown_filters retain
  rejected [] row m qualified agree out = out
  rejected (f ∷ filters) row m qualified agree out =
      split (rejected filters row m qualified.1 agree) (bytes_eq f.field.alias base)
        (bytes_eq→eq f.field.alias base) out
    where
      kept : List Filter
      kept = collect_pushdown_filters filters none base

      split :
          (all_of (accepts_field std base row) kept ≡ false
            → all_of (evaluate_filter std m) filters ≡ false)
          → (own : Bool) → (own ≡ true → f.field.alias ≡ base)
          → all_of (accepts_field std base row) (
              map pushdown_filter (
                if own
                then f ∷ retain (λ g. bytes_eq g.field.alias base) filters
                else retain (λ g. bytes_eq g.field.alias base) filters))
            ≡ false
          → (evaluate_filter std m f && all_of (evaluate_filter std m) filters) ≡ false
      split later true own out =
          let same : evaluate_filter std m f ≡ accepts_field std base row (pushdown_filter f) =
            accepts_field-pushdown_filter f row m qualified.0 agree (own refl) in
          ground (arith, same, later, out)
      split later false own out = ground (arith, later out)

  module _ (fmt : StdFormat std) where
    -- Every row that a join makes of a row the pushed filters reject is rejected.
    pub retain-nested_row :
        (filters : List ResolvedFilter) (join : ResolvedJoin) (right : List FlatRow) (row : FlatRow)
        → aggregate_join join ≡ false
        → All IsQualified filters
        → All (IsApart base) right
        → all_of (accepts_field std base row) (collect_pushdown_filters filters none base) ≡ false
        → retain (passes std and_op filters) (nested_row std fmt join right row) ≡ []
    unfolding nested_row expand_row rows_with_key retain
    retain-nested_row filters join right row plain qualified apart out =
        rw plain (expanded (compose_key std fmt row (existing_fields join.conditions)))
      where
        found : Str → List FlatRow
        found key = rows_with_key std fmt key join.conditions right

        fails :
            (m : FlatRow)
            → ((field : Str) → find (qualify base field) m ≡ find (qualify base field) row)
            → passes std and_op filters m ≡ false
        fails m agree = rejected filters row m qualified agree out

        alone :
            (kind : JoinKind) → retain (passes std and_op filters) (unmatched std fmt kind row) ≡ []
        alone inner = refl
        alone left =
            retain-nil (passes std and_op filters) (row ∷ []) (fails row (λ field. refl), tt)

        merged :
            (rows : List FlatRow)
            → All (IsApart base) rows
            → All (λ m. passes std and_op filters m ≡ false) (map (merge_fields row) rows)
        merged [] no_field = tt
        merged (m ∷ rows) (none_in_m, no_field) = (
          fails (merge_fields row m)
              (λ field. find-merge_fields (qualify base field) row m (none_in_m field)),
          merged rows no_field,
        )

        matched :
            (rows : List FlatRow)
            → All (IsApart base) rows
            → retain (passes std and_op filters) (expand_row std fmt join row (nonempty rows)) ≡ []
        matched [] no_field = alone join.kind
        matched (m ∷ rows) no_field =
            retain-nil (passes std and_op filters) (map (merge_fields row) (m ∷ rows))
              (merged (m ∷ rows) no_field)

        expanded :
            (key : Option Str)
            → retain
                (passes std and_op filters)
                (expand_row std fmt join row (and_then key (λ k. nonempty (found k))))
              ≡ []
        expanded none = alone join.kind
        expanded (some k) = matched (found k) (
            retain-All (IsApart base)
              (λ r. has_key k (compose_key std fmt r (joining_fields join.conditions))) right apart)
