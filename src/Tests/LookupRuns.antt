-- ===== src/Tests/LookupRuns.antt =====
-- The lookups of a join in the segment of two rows.
use bittice.Prelude.{Str, codes, ◌≡◌, refl, true, List, [], ◌∷◌, arith, length, any_of, set, find}
use bittice.Dates.{is_date_format}
use bittice.Prelude.Texts.{parse_usize}
use bittice.Filter.{
  as_str, Filter, and_op, compare_filter_value, compare_values, compare_numeric, compare_dates,
}
use bittice.Segment.{search, append_record, new, new_writer, valid_filters}
use bittice.Query.Lookup.{eq_filter, coalesce_join_lookup_filters}
use bittice.Query.Coalesced.Searched.{IsSearchable, any_of-search-coalesce_join_lookup_filters}
use bittice.Tests.Crates.{rows, rows-IsRoaring}
use bittice.Tests.SegmentRuns.{numbered, text_order, fields, two, two-IsIndexed, two_count}

-- Two lookups become one In filter.
abbrev lookup_of : Str → List Filter
lookup_of value = eq_filter (codes "city") value ∷ []

merges_lookups :
    length
      (coalesce_join_lookup_filters (lookup_of (codes "lima") ∷ lookup_of (codes "quito") ∷ []))
    ≡ 1
unfolding coalesce_join_lookup_filters as_str
merges_lookups = refl

-- Row 1 is found by the second of the two lookups.
finds_quito : rows.contains (search numbered rows (lookup_of (codes "quito")) and_op two) 1 ≡ true
unfolding search append_record new_writer new valid_filters find set compare_filter_value
    compare_values compare_numeric compare_dates parse_usize is_date_format
finds_quito = refl

lima-IsSearchable : IsSearchable numbered (eq_filter (codes "city") (codes "lima"))
lima-IsSearchable = (
  refl,
  refl,
  (
    λ actual.
        text_order actual (codes "lima") (unfold parse_usize in refl)
          (unfold is_date_format in refl),
    tt,
  ),
)

quito-IsSearchable : IsSearchable numbered (eq_filter (codes "city") (codes "quito"))
quito-IsSearchable = (
  refl,
  refl,
  (
    λ actual.
        text_order actual (codes "quito") (unfold parse_usize in refl)
          (unfold is_date_format in refl),
    tt,
  ),
)

any_of-search-coalesce_join_lookup_filters_example :
    any_of
      (λ fs. rows.contains (search numbered rows fs and_op two) 1)
      (coalesce_join_lookup_filters (lookup_of (codes "lima") ∷ lookup_of (codes "quito") ∷ []))
    ≡ any_of
        (λ fs. rows.contains (search numbered rows fs and_op two) 1)
        (lookup_of (codes "lima") ∷ lookup_of (codes "quito") ∷ [])
any_of-search-coalesce_join_lookup_filters_example =
    any_of-search-coalesce_join_lookup_filters numbered rows-IsRoaring two fields
      (lookup_of (codes "lima")) (lookup_of (codes "quito") ∷ []) 1 two-IsIndexed
      (omega (arith, two_count)) ((refl, refl, tt), ((refl, refl, tt), tt))
      ((lima-IsSearchable, tt), ((quito-IsSearchable, tt), tt))
