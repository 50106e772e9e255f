-- ===== src/Segment/Skip.antt =====
-- Skipping a segment by the ranges of its columns (src/core/storage/segment.rs).
use bittice.Prelude.{
  Str, bytes_eq, bytes_eq→eq, find, All, ℕ, ◌^◌, ◌<◌, ◌≡◌, refl, sym, ap, ◌∙◌, Bool, true, false,
  ◌||◌, ◌⊎◌, ap₂, Option, none, some, List, [], ◌∷◌, arith, inl, inr, Bool-cases,
}
use bittice.Bitmaps.{Roaring, IsRoaring}
use bittice.Filter.{
  FieldType, and_op, Filter, StdText, ComparisonOp, str_cmp, compare_values, compare_filter_value,
  is_less, is_equal, is_greater, is_between,
}
use bittice.Segment.{
  skip_between, SegmentWriter, str_lt, valid_filters, skips, any_skips, skip_op, is_eq_op,
  filter_accepts, search, search_valid,
}
use bittice.Segment.Order.{
  Within, str_lt_trans, str_cmp-is_greater, str_cmp-is_equal, str_cmp-at_least, str_cmp-at_most,
}
use bittice.Segment.Rows.{IsIndexed}
use bittice.Segment.Search.{accepts, IsTextual, value_at, all_accept, is_result, contains-search}

module _ (std : StdText) where
  -- Every value is compared with this operand as texts are, by their bytes: where the fields have no
  -- type, this is so for an operand that is neither a number nor a date.
  abbrev pub IsTextOperand : Option FieldType → Str → Type 0
  IsTextOperand field_type operand =
      (actual : Str) → compare_values std actual operand field_type ≡ some (str_cmp actual operand)

  abbrev pub IsTextBound : Option FieldType → Option Str → Type 0
  IsTextBound field_type none = Unit
  IsTextBound field_type (some upper) = IsTextOperand field_type upper

  -- The operand of the filter, and its upper bound if it has one.
  abbrev pub IsByteOrdered : Filter → Type 0
  IsByteOrdered f = IsTextOperand f.field_type f.value × IsTextBound f.field_type f.value_to

  module _ (f : Filter) (ordered : IsByteOrdered f) (min max value : Str)
      (above : str_lt value min ≡ false) (below : str_lt max value ≡ false) where
    between-refuses :
        (to : Option Str)
        → IsTextBound f.field_type to
        → skip_between std min max f to ≡ true
        → is_between std value f.value to f.field_type ≡ false
    between-refuses none bound h = refl
    between-refuses (some upper) bound h =
        let outside : (str_lt max f.value || str_lt upper min) ≡ true =
          ap₂ (λ a b. a || b) (ap is_less (sym (ordered.0 max)))
            (sym (ap is_greater (bound min) ∙ str_cmp-is_greater min upper))
          ∙ h in
        rw
          (
            ordered.0 value,
            bound value,
            str_cmp-at_least value f.value,
            str_cmp-at_most value upper,
          )
          (ground (
            arith,
            outside,
            above,
            below,
            str_lt_trans f.value value max,
            str_lt_trans min value upper,
          ))

    equal-refuses :
        str_lt f.value min ≡ true ⊎ str_lt max f.value ≡ true → bytes_eq value f.value ≡ false
    equal-refuses outside = elim (Bool-cases (bytes_eq value f.value)) [
      | inl same ↦
          let e = bytes_eq→eq value f.value same in
          let above_here : str_lt f.value min ≡ false = ap (λ s. str_lt s min) (sym e) ∙ above in
          let below_here : str_lt max f.value ≡ false = ap (str_lt max) (sym e) ∙ below in
          absurd (ground (arith, outside, above_here, below_here))
      | inr different ↦ different
    ]

    -- an operator that skips the range accepts no value of the range
    skip_op-refuses :
        (op : ComparisonOp)
        → skip_op std op min max f ≡ true
        → compare_filter_value std value op f.value f.value_to f.value_options f.field_type ≡ false
    unfolding compare_filter_value
    skip_op-refuses ComparisonOp.eq h =
        rw (ordered.0 value, str_cmp-is_equal value f.value) (equal-refuses (ground (arith, h)))
    skip_op-refuses ComparisonOp.ne h = cc
    skip_op-refuses ComparisonOp.gt h =
        rw (ordered.0 value, str_cmp-is_greater value f.value)
          (str_lt_trans value max f.value below (ground (arith, h)))
    skip_op-refuses ComparisonOp.gte h =
        rw (ordered.0 value, str_cmp-at_least value f.value)
          (ground (arith, h, str_lt_trans f.value value max, below))
    skip_op-refuses ComparisonOp.lt h =
        rw (ordered.0 value) (str_lt_trans f.value min value (ground (arith, h)) above)
    skip_op-refuses ComparisonOp.lte h =
        rw (ordered.0 value, str_cmp-at_most value f.value)
          (ground (arith, h, str_lt_trans min value f.value, above))
    skip_op-refuses ComparisonOp.in_list h = cc
    skip_op-refuses ComparisonOp.between h = between-refuses f.value_to ordered.1 h
    skip_op-refuses ComparisonOp.not_in h = cc
    skip_op-refuses ComparisonOp.is_null h = cc
    skip_op-refuses ComparisonOp.is_not_null h = cc
    skip_op-refuses ComparisonOp.contains h = cc
    skip_op-refuses ComparisonOp.starts_with h = cc
    skip_op-refuses ComparisonOp.ends_with h = cc

  skips-refuses :
      (f : Filter) (range : Option (Str × Str)) (value : Str)
      → IsByteOrdered f
      → Within range value
      → skips std range f ≡ true
      → filter_accepts std f value ≡ false
  unfolding skips filter_accepts
  skips-refuses f none value ordered within h = absurd within
  skips-refuses f (some (min, max)) value ordered (above, below) h =
      skip_op-refuses f ordered min max value above below f.op h

  is_eq_op-accepts :
      (f : Filter) (op : ComparisonOp) (value : Str)
      → IsByteOrdered f
      → is_eq_op std op ≡ true
      → compare_filter_value std value op f.value f.value_to f.value_options f.field_type
        ≡ bytes_eq value f.value
  unfolding compare_filter_value
  is_eq_op-accepts f ComparisonOp.eq value ordered h =
      ap is_equal (ordered.0 value) ∙ str_cmp-is_equal value f.value
  is_eq_op-accepts f _ value ordered h = cc

  pub IsByteOrdered-IsTextual : (fs : List Filter) → All IsByteOrdered fs → All (IsTextual std) fs
  unfolding filter_accepts
  IsByteOrdered-IsTextual [] ordered = ordered
  IsByteOrdered-IsTextual (f ∷ fs) (ordered, rest) =
      (λ value h. is_eq_op-accepts f f.op value ordered h, IsByteOrdered-IsTextual fs rest)

  module _ {r : Roaring} (w : SegmentWriter r) (fields : Str → Bool)
      (v : IsIndexed r fields w) where
    refuses :
        (f : Filter) (i : ℕ) (cell : Option Str)
        → value_at std w f.field i ≡ cell
        → IsByteOrdered f
        → skips std (find f.field w.segment.min_max) f ≡ true
        → accepts std f cell ≡ false
    refuses f i none at ordered h = refl
    refuses f i (some value) at ordered h =
        skips-refuses f (find f.field w.segment.min_max) value ordered
          ((v.columns f.field).within value i at) h

    any_skips-refuses :
        (fs : List Filter) (i : ℕ)
        → All IsByteOrdered fs
        → any_skips std w.segment.min_max fs ≡ true
        → all_accept std w fs i ≡ false
    unfolding any_skips
    any_skips-refuses [] i ordered h = cc
    any_skips-refuses (f ∷ fs) i (ordered, rest) h =
        ground
          (arith, refuses f i (value_at std w f.field i) refl ordered, any_skips-refuses fs i rest)

    skipped-search_valid :
        (laws : IsRoaring r) (fs : List Filter) (i : ℕ)
        → All IsByteOrdered fs
        → any_skips std w.segment.min_max fs ≡ true
        → r.contains (search_valid std r and_op w.segment w.bitmaps fs) i
          ≡ is_result std and_op w fs i
    unfolding search_valid any_skips
    skipped-search_valid laws [] i ordered h = cc
    skipped-search_valid laws (f ∷ fs) i ordered h =
        rw (h, laws.contains-empty i) (ground (arith, any_skips-refuses (f ∷ fs) i ordered h))

  -- A search with And in an indexed segment of fewer than 2^32 rows, for filters whose
  -- operands every value is compared with by the bytes of the texts, finds exactly the rows below the count that are not deleted
  -- and whose own values pass all filters that count: skipping the segment by the smallest and largest
  -- values of its columns loses no row.
  pub contains-search_and :
      {r : Roaring} (laws : IsRoaring r) (w : SegmentWriter r) (fields : Str → Bool)
      (filters : List Filter) (i : ℕ)
      → IsIndexed r fields w
      → w.segment.record_count < 2 ^ 32
      → All IsByteOrdered (valid_filters filters)
      → r.contains (search std r filters and_op w) i
        ≡ is_result std and_op w (valid_filters filters) i
  contains-search_and laws w fields filters i v room ordered =
      let fs = valid_filters filters in
      elim (Bool-cases (any_skips std w.segment.min_max fs)) [
        | inl skipped ↦ unfold search in skipped-search_valid w fields v laws fs i ordered skipped
        | inr kept ↦
            contains-search std laws w fields filters and_op i v room
              (IsByteOrdered-IsTextual fs ordered) kept
      ]
