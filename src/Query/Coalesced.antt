-- ===== src/Query/Coalesced.antt =====
-- The merged In filter finds the rows of all the lookups it replaces (src/core/join_query.rs).
pub mod Same
pub mod Searched
pub mod Varying
use bittice.Prelude.{
  ℕ, zero, suc, ◌+◌, ◌<◌, length, Str, Bool, true, false, ◌&&◌, ◌||◌, Option, none, some, List, [],
  ◌∷◌, if◌then◌else◌, bytes_eq, bytes_eq→eq, find, any_of, all_of, All, arith, ◌≡◌, refl, sym, ap,
  ap₂, ◌∙◌, inl, inr, Bool-cases, and_left, and_right,
}
use mathlib.Core.Option.{some-injective}
use bittice.Filter.{
  ComparisonOp, as_str, from_str, Filter, StdText, compare_filter_value, compare_values, any_equal,
  list_values, is_equal,
}
use bittice.Filter.Laws.{from_str-as_str}
use bittice.Query.{FlatRow, qualify}
use bittice.Query.Pushdown.{accepts_cell, accepts_field}
use bittice.Query.Lookup.{
  same_op, same_option, same_filter, all_same, varying_value, push_value, collect_values,
  contains_text, distinct_values, merged_at, merged_if, distinct_if, first_some, first_candidate,
  merged_or, coalesce_join_lookup_filters,
}
use bittice.Query.Coalesced.Same.{IsUniform, found_by}
use bittice.Query.Coalesced.Varying.{with_value, found_by-varying_value, found_by-merged_at}

-- The first occurrences have a value with a property exactly if all values do.
any_of-distinct_values :
    (p : Str → Bool) (seen vs : List Str)
    → (any_of p (distinct_values seen vs) || any_of p seen) ≡ (any_of p vs || any_of p seen)
unfolding any_of distinct_values contains_text
any_of-distinct_values p seen [] = refl
any_of-distinct_values p seen (v ∷ vs) = elim (Bool-cases (any_of (λ s. bytes_eq s v) seen)) [
  | inl old ↦ rw old (ground (arith, any_of-distinct_values p seen vs, known seen old))
  | inr new ↦ rw new (ground (arith, any_of-distinct_values p (v ∷ seen) vs))
]
  where
    known :
        (seen : List Str)
        → any_of (λ s. bytes_eq s v) seen ≡ true
        → (p v || any_of p seen) ≡ any_of p seen
    known [] old = cc
    known (s ∷ seen) old = elim (Bool-cases (bytes_eq s v)) [
      | inl same ↦ rw (bytes_eq→eq s v same) (ground arith)
      | inr other ↦ ground (arith, other, old, known seen)
    ]

module _ (std : StdText) (cell : Str → Option Str) where
  any_of-collect_values :
      (k : ℕ) (template : List Filter) (sets : List (List Filter)) (vs : List Str)
      → collect_values k template sets ≡ some vs
      → All (IsUniform template) sets
      → any_of (found_by std cell) sets
        ≡ any_of (λ v. found_by std cell (with_value k v template)) vs
  unfolding collect_values any_of
  any_of-collect_values k template [] vs e uniform =
      ap (any_of (λ v. found_by std cell (with_value k v template))) (some-injective [] vs e)
  any_of-collect_values k template (fs ∷ sets) vs e (here, uniform) =
      go (varying_value k template fs) (collect_values k template sets) vs
        (λ v own. found_by-varying_value std cell k template fs v own here)
        (λ ws own. any_of-collect_values k template sets ws own uniform) e
    where
      go :
          (first : Option Str) (rest : Option (List Str)) (vs : List Str)
          → ((v : Str)
              → first ≡ some v
              → found_by std cell fs ≡ found_by std cell (with_value k v template))
          → ((ws : List Str)
              → rest ≡ some ws
              → any_of (found_by std cell) sets
                ≡ any_of (λ v. found_by std cell (with_value k v template)) ws)
          → push_value first rest ≡ some vs
          → (found_by std cell fs || any_of (found_by std cell) sets)
            ≡ any_of (λ v. found_by std cell (with_value k v template)) vs
      go none rest vs own others e = cc
      go (some v) none vs own others e = cc
      go (some v) (some ws) vs own others e =
          ap₂ (λ a b. a || b) (own v refl) (others ws refl)
          ∙ ap (any_of (λ v. found_by std cell (with_value k v template)))
              (some-injective (v ∷ ws) vs e)

  found_by-merged_if :
      (k : ℕ) (template : List Filter) (sets : List (List Filter)) (merged : List Filter)
      → k < length template
      → All (IsUniform template) sets
      → merged_if k template (distinct_if (collect_values k template sets)) ≡ some merged
      → any_of (found_by std cell) sets ≡ found_by std cell merged
  unfolding merged_if distinct_if any_of
  found_by-merged_if k template sets merged inside uniform e =
      go (collect_values k template sets)
        (λ vs own. any_of-collect_values k template sets vs own uniform) e
    where
      p : Str → Bool
      p v = found_by std cell (with_value k v template)

      distinct : (vs : List Str) → any_of p (distinct_values [] vs) ≡ any_of p vs
      distinct vs = ground (arith, any_of-distinct_values p [] vs)

      merge :
          (vs : List Str)
          → merged_if k template (some vs) ≡ some merged
          → any_of p vs ≡ found_by std cell merged
      merge [] e = cc
      merge (v ∷ vs) e =
          sym (found_by-merged_at std cell k template v vs inside)
          ∙ ap (found_by std cell) (some-injective (merged_at k v (v ∷ vs) template) merged e)

      go :
          (o : Option (List Str))
          → ((vs : List Str) → o ≡ some vs → any_of (found_by std cell) sets ≡ any_of p vs)
          → merged_if k template (distinct_if o) ≡ some merged
          → any_of (found_by std cell) sets ≡ found_by std cell merged
      go none collected e = cc
      go (some vs) collected e =
          collected vs refl ∙ sym (distinct vs) ∙ merge (distinct_values [] vs) e

  found_by-first_candidate :
      (k : ℕ) (rest template : List Filter) (sets : List (List Filter)) (merged : List Filter)
      → k + length rest ≡ length template
      → All (IsUniform template) sets
      → first_candidate k rest template sets ≡ some merged
      → any_of (found_by std cell) sets ≡ found_by std cell merged
  unfolding first_candidate
  found_by-first_candidate k [] template sets merged at uniform e = cc
  found_by-first_candidate k (vary ∷ rest) template sets merged at uniform e =
      go (same_op vary.op ComparisonOp.eq)
        (found_by-merged_if k template sets merged (omega (arith, at)) uniform)
        (found_by-first_candidate (suc k) rest template sets merged (omega (arith, at)) uniform) e
    where
      go :
          (is_eq : Bool)
          → (merged_if k template (distinct_if (collect_values k template sets)) ≡ some merged
              → any_of (found_by std cell) sets ≡ found_by std cell merged)
          → (first_candidate (suc k) rest template sets ≡ some merged
              → any_of (found_by std cell) sets ≡ found_by std cell merged)
          → first_some
              (if is_eq
                then merged_if k template (distinct_if (collect_values k template sets))
                else none)
              (first_candidate (suc k) rest template sets)
            ≡ some merged
          → any_of (found_by std cell) sets ≡ found_by std cell merged
      go true here later e =
          chosen (merged_if k template (distinct_if (collect_values k template sets)))
            (first_candidate (suc k) rest template sets) here later e
        where
          chosen :
              (a b : Option (List Filter))
              → (a ≡ some merged → any_of (found_by std cell) sets ≡ found_by std cell merged)
              → (b ≡ some merged → any_of (found_by std cell) sets ≡ found_by std cell merged)
              → first_some a b ≡ some merged
              → any_of (found_by std cell) sets ≡ found_by std cell merged
          chosen (some a) b here later e = here e
          chosen none b here later e = later e
      go false here later e = later e

  -- If the sets of filters have the types and options of the first set at every position, a row is found
  -- by one of the merged sets exactly if it is found by one of the sets that were to be merged.
  pub any_of-coalesce_join_lookup_filters :
      (template : List Filter) (sets : List (List Filter))
      → All (IsUniform template) (template ∷ sets)
      → any_of (found_by std cell) (coalesce_join_lookup_filters (template ∷ sets))
        ≡ any_of (found_by std cell) (template ∷ sets)
  unfolding coalesce_join_lookup_filters any_of
  any_of-coalesce_join_lookup_filters template [] uniform = refl
  any_of-coalesce_join_lookup_filters template (fs ∷ sets) uniform =
      go (first_candidate 0 template template (template ∷ fs ∷ sets)) (λ merged e.
        found_by-first_candidate 0 template template (template ∷ fs ∷ sets) merged (omega arith)
          uniform e)
    where
      go :
          (o : Option (List Filter))
          → ((merged : List Filter)
              → o ≡ some merged
              → any_of (found_by std cell) (template ∷ fs ∷ sets) ≡ found_by std cell merged)
          → any_of (found_by std cell) (merged_or (template ∷ fs ∷ sets) o)
            ≡ any_of (found_by std cell) (template ∷ fs ∷ sets)
      go none found = refl
      go (some merged) found = ground (arith, found merged refl)
