-- ===== src/Query/Coalesced/Searched.antt =====
-- The searches of a segment for the lookups of a join, before and after they are merged
-- (src/core/join_query.rs, src/core/storage/segment.rs).
use mathlib.Core.Path.{subst}
use mathlib.Core.Option.{some-injective}
use bittice.Prelude.{
  ℕ, zero, suc, ◌^◌, ◌<◌, Str, codes, Bool, true, false, not, ◌&&◌, ◌||◌, ltb, Option, none, some,
  List, [], ◌∷◌, if◌then◌else◌, bytes_eq, any_of, all_of, All, arith, ◌≡◌, refl, sym, ap, ap₂, ◌∙◌,
}
use bittice.Bitmaps.{Roaring, IsRoaring}
use bittice.Filter.{ComparisonOp, and_op, Filter, StdText}
use bittice.Segment.{SegmentWriter, valid_filters, search, filter_accepts}
use bittice.Segment.Rows.{IsIndexed}
use bittice.Segment.Search.{accepts, value_at, all_accept, is_result}
use bittice.Segment.Skip.{IsByteOrdered, contains-search_and}
use bittice.Query.Pushdown.{accepts_cell}
use bittice.Query.Lookup.{
  same_op, same_filter, varying_value, push_value, collect_values, contains_text, distinct_values,
  merged_at, merged_if, distinct_if, first_some, first_candidate, merged_or,
  coalesce_join_lookup_filters,
}
use bittice.Query.Coalesced.{any_of-coalesce_join_lookup_filters}
use bittice.Query.Coalesced.Same.{IsUniform, found_by}
use bittice.Query.Coalesced.Varying.{if_some}

-- The merged filters are the template with an In filter whose value is the template's own one.
record MergedFrom (template merged : List Filter) : Type 0 where
  at : ℕ
  v : Str
  values : List Str
  own : varying_value at template template ≡ some v
  same : merged_at at v values template ≡ merged

merged_if-MergedFrom :
    (k : ℕ) (template merged : List Filter) (first : Option Str) (rest : Option (List Str))
    → varying_value k template template ≡ first
    → merged_if k template (distinct_if (push_value first rest)) ≡ some merged
    → MergedFrom template merged
unfolding merged_if distinct_if distinct_values contains_text any_of
merged_if-MergedFrom k template merged none rest own e = cc
merged_if-MergedFrom k template merged (some v) none own e = cc
merged_if-MergedFrom k template merged (some v) (some vs) own e = record {
  at = k;
  v = v;
  values = v ∷ distinct_values (v ∷ []) vs;
  own = own;
  same = some-injective (merged_at k v (v ∷ distinct_values (v ∷ []) vs) template) merged e;
}

first_candidate-MergedFrom :
    (k : ℕ) (rest template merged : List Filter) (sets : List (List Filter))
    → first_candidate k rest template (template ∷ sets) ≡ some merged
    → MergedFrom template merged
unfolding first_candidate collect_values
first_candidate-MergedFrom k [] template merged sets e = cc
first_candidate-MergedFrom k (vary ∷ rest) template merged sets e =
    go (same_op vary.op ComparisonOp.eq)
      (merged_if k template (distinct_if (push_value first others)))
      (first_candidate (suc k) rest template (template ∷ sets))
      (λ here. merged_if-MergedFrom k template merged first others refl here)
      (λ later. first_candidate-MergedFrom (suc k) rest template merged sets later) e
  where
    first : Option Str
    first = varying_value k template template

    others : Option (List Str)
    others = collect_values k template sets

    go :
        (is_eq : Bool) (a b : Option (List Filter))
        → (a ≡ some merged → MergedFrom template merged)
        → (b ≡ some merged → MergedFrom template merged)
        → first_some (if is_eq then a else none) b ≡ some merged
        → MergedFrom template merged
    go true (some x) b here later e = here e
    go true none b here later e = later e
    go false a b here later e = later e

module _ (std : StdText) where
  -- A search heeds the filter, whose operands every value is compared with by the bytes of the texts.
  abbrev pub IsSearchable : Filter → Type 0
  IsSearchable f =
      (bytes_eq f.field (codes "?") ≡ false)
      × (bytes_eq f.value (codes "?") ≡ false)
      × IsByteOrdered std f

  merged_at-IsSearchable :
      (k : ℕ) (v : Str) (values : List Str) (ts : List Filter)
      → varying_value k ts ts ≡ some v
      → All IsSearchable ts
      → All IsSearchable (merged_at k v values ts)
  unfolding merged_at varying_value
  merged_at-IsSearchable k v values [] own h = tt
  merged_at-IsSearchable zero v values (t ∷ ts) own ((field, value, ordered), h) =
      let e : t.value ≡ v = some-injective t.value v (if_some _ (some t.value) v own).1 in
      (
        (
          field,
          ap (λ s. bytes_eq s (codes "?")) (sym e) ∙ value,
          subst (λ s. IsByteOrdered std (record t { value = s; value_to = none })) e
              (ordered.0, tt),
        ),
        h,
      )
  merged_at-IsSearchable (suc k) v values (t ∷ ts) own (here, h) = (
    here,
    merged_at-IsSearchable k v values ts (if_some (same_filter t t) (varying_value k ts ts) v own).1
        h,
  )

  coalesce_join_lookup_filters-IsSearchable :
      (template : List Filter) (sets : List (List Filter))
      → All (All IsSearchable) (template ∷ sets)
      → All (All IsSearchable) (coalesce_join_lookup_filters (template ∷ sets))
  unfolding coalesce_join_lookup_filters
  coalesce_join_lookup_filters-IsSearchable template [] h = h
  coalesce_join_lookup_filters-IsSearchable template (fs ∷ sets) h =
      go (first_candidate 0 template template (template ∷ fs ∷ sets))
        (λ merged e. first_candidate-MergedFrom 0 template template merged (fs ∷ sets) e)
    where
      go :
          (o : Option (List Filter))
          → ((merged : List Filter) → o ≡ some merged → MergedFrom template merged)
          → All (All IsSearchable) (merged_or (template ∷ fs ∷ sets) o)
      go none from = h
      go (some merged) from =
          let m = from merged refl in
          (
            subst (All IsSearchable) m.same
                (merged_at-IsSearchable m.at m.v m.values template m.own h.0),
            tt,
          )

  valid_filters-IsSearchable : (fs : List Filter) → All IsSearchable fs → valid_filters fs ≡ fs
  unfolding valid_filters
  valid_filters-IsSearchable [] h = refl
  valid_filters-IsSearchable (f ∷ fs) ((field, value, ordered), h) =
      rw (field, value) (ap (λ rest. f ∷ rest) (valid_filters-IsSearchable fs h))

  All-IsByteOrdered : (fs : List Filter) → All IsSearchable fs → All (IsByteOrdered std) fs
  All-IsByteOrdered [] h = tt
  All-IsByteOrdered (f ∷ fs) ((field, value, ordered), h) = (ordered, All-IsByteOrdered fs h)

  module _ {r : Roaring} (laws : IsRoaring r) (w : SegmentWriter r) (fields : Str → Bool) (i : ℕ)
      (v : IsIndexed r fields w) (room : w.segment.record_count < 2 ^ 32) where
    -- the row's own values
    abbrev cells : Str → Option Str
    cells field = value_at std w field i

    accepts-cell : (f : Filter) (o : Option Str) → accepts std f o ≡ accepts_cell std f o
    unfolding filter_accepts
    accepts-cell f none = refl
    accepts-cell f (some value) = refl

    all_accept-found_by : (fs : List Filter) → all_accept std w fs i ≡ found_by std cells fs
    unfolding found_by all_of
    all_accept-found_by [] = refl
    all_accept-found_by (f ∷ fs) =
        ap₂ (λ a b. a && b) (accepts-cell f (cells f.field)) (all_accept-found_by fs)

    is_result-found_by :
        (fs : List Filter)
        → is_result std and_op w fs i ≡ (
            (ltb i w.segment.record_count && found_by std cells fs)
            && not (r.contains w.segment.deleted_bitmap i))
    unfolding found_by all_of
    is_result-found_by [] = refl
    is_result-found_by (f ∷ fs) =
        ap (λ b. (ltb i w.segment.record_count && b) && not (r.contains w.segment.deleted_bitmap i))
          (all_accept-found_by (f ∷ fs))

    any_of-search :
        (sets : List (List Filter))
        → All (All IsSearchable) sets
        → any_of (λ fs. r.contains (search std r fs and_op w) i) sets ≡ (
            (ltb i w.segment.record_count && any_of (found_by std cells) sets)
            && not (r.contains w.segment.deleted_bitmap i))
    unfolding any_of
    any_of-search [] h = ground arith
    any_of-search (fs ∷ sets) (here, h) =
        let valid = valid_filters-IsSearchable fs here in
        let found : r.contains (search std r fs and_op w) i ≡ is_result std and_op w fs i =
          contains-search_and std laws w fields fs i v room
            (subst (All (IsByteOrdered std)) (sym valid) (All-IsByteOrdered fs here))
          ∙ ap (λ gs. is_result std and_op w gs i) valid in
        ap₂ (λ a b. a || b) (found ∙ is_result-found_by fs) (any_of-search sets h) ∙ ground arith

  -- In an indexed segment of fewer than 2^32 rows, for sets of filters that have the types and options
  -- of the first set at every position, where no field and no value is "?" and every value is compared
  -- with the operands of the filters by the bytes of the texts: the searches with And for the merged
  -- sets find a row exactly if those for the sets that were to be merged do.
  pub any_of-search-coalesce_join_lookup_filters :
      {r : Roaring} (laws : IsRoaring r) (w : SegmentWriter r) (fields : Str → Bool)
      (template : List Filter) (sets : List (List Filter)) (i : ℕ)
      → IsIndexed r fields w
      → w.segment.record_count < 2 ^ 32
      → All (IsUniform template) (template ∷ sets)
      → All (All IsSearchable) (template ∷ sets)
      → any_of
          (λ fs. r.contains (search std r fs and_op w) i)
          (coalesce_join_lookup_filters (template ∷ sets))
        ≡ any_of (λ fs. r.contains (search std r fs and_op w) i) (template ∷ sets)
  any_of-search-coalesce_join_lookup_filters {r} laws w fields template sets i v room uniform h =
      any_of-search laws w fields i v room (coalesce_join_lookup_filters (template ∷ sets))
        (coalesce_join_lookup_filters-IsSearchable template sets h)
      ∙ ap (λ b. (ltb i w.segment.record_count && b) && not (r.contains w.segment.deleted_bitmap i))
          (any_of-coalesce_join_lookup_filters std (λ field. value_at std w field i) template sets
            uniform)
      ∙ sym (any_of-search laws w fields i v room (template ∷ sets) h)
