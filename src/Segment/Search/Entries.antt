-- ===== src/Segment/Search/Entries.antt =====
-- What a filter and a search ask of a row, and the bitmaps of the values that a filter accepts
-- (src/core/storage/segment.rs).
use bittice.Prelude.{
  Str, bytes_eq, bytes_eq_iff, bytes_eq→eq, bytes_eq_refl, find, HasDistinctKeys, ℕ, ◌≡◌, refl, sym,
  ap, ◌∙◌, ◌↔◌, Bool, true, false, not, ◌&&◌, ◌||◌, ltb, if◌then◌else◌, Option, none, some, List,
  [], ◌∷◌, get_elem?, arith, inl, inr, Bool-cases, Option-cases,
}
use bittice.Bitmaps.{Roaring, IsRoaring}
use bittice.Filter.{LogicalOp, and_op, or_op, Filter, StdText}
use bittice.Segment.{
  ValueBitmaps, SegmentWriter, filter_accepts, is_eq_op, union_matches, bitmap_matches_for_filter,
}
use bittice.Segment.Rows.{has_row, in_found, column_of}

module _ (std : StdText) where
  -- The filter accepts the value of a row that has one.
  abbrev pub accepts : Filter → Option Str → Bool
  accepts f none = false
  accepts f (some value) = filter_accepts std f value

  -- An `Eq` filter means equality of texts.
  abbrev pub IsTextual : Filter → Type 0
  IsTextual f =
      (value : Str) → is_eq_op std f.op ≡ true → filter_accepts std f value ≡ bytes_eq value f.value

  module _ {r : Roaring} where
    -- The value of the row in the column, as `append_record` was given it.
    abbrev pub value_at : SegmentWriter r → Str → ℕ → Option Str
    value_at w col i = get_elem? (column_of w col).values i

    abbrev pub all_accept : SegmentWriter r → List Filter → ℕ → Bool
    all_accept w [] i = true
    all_accept w (f ∷ fs) i = accepts f (value_at w f.field i) && all_accept w fs i

    abbrev pub any_accepts : SegmentWriter r → List Filter → ℕ → Bool
    any_accepts w [] i = false
    any_accepts w (f ∷ fs) i = accepts f (value_at w f.field i) || any_accepts w fs i

    -- What the query asks of a row. No filter accepts every row, whatever joins them.
    abbrev pub row_matches : LogicalOp → SegmentWriter r → List Filter → ℕ → Bool
    row_matches op w [] i = true
    row_matches and_op w (f ∷ fs) i = all_accept w (f ∷ fs) i
    row_matches or_op w (f ∷ fs) i = any_accepts w (f ∷ fs) i

    -- The row is below the number of rows, matches and is not deleted.
    abbrev pub is_result : LogicalOp → SegmentWriter r → List Filter → ℕ → Bool
    is_result op w fs i =
        (ltb i w.segment.record_count && row_matches op w fs i)
        && not (r.contains w.segment.deleted_bitmap i)

  module _ {r : Roaring} (laws : IsRoaring r) where
    -- some value that the filter accepts has the row
    any_entry : Filter → ValueBitmaps r → ℕ → Bool
    any_entry f [] i = false
    any_entry f ((k, b) ∷ m) i = (filter_accepts std f k && r.contains b i) || any_entry f m i

    contains-union_matches :
        (f : Filter) (m : ValueBitmaps r) (acc : r.Bitmap) (i : ℕ)
        → r.contains (union_matches std r f m acc) i ≡ (r.contains acc i || any_entry f m i)
    unfolding union_matches any_entry
    contains-union_matches f [] acc i = ground arith
    contains-union_matches f ((k, b) ∷ m) acc i = ground (
      arith,
      contains-union_matches f m acc i,
      contains-union_matches f m (r.union acc b) i,
      laws.contains-union acc b i,
    )

    any_entry-has_row :
        (f : Filter) (m : ValueBitmaps r) (i : ℕ)
        → HasDistinctKeys m
        → any_entry f m i ≡ true
        → (k : Str) × (has_row r m k i ≡ true) × (filter_accepts std f k ≡ true)
    unfolding any_entry find
    any_entry-has_row f [] i d h = cc
    any_entry-has_row f ((k, b) ∷ m) i (HasDistinctKeys.one_more fresh d) h =
        elim (Bool-cases (filter_accepts std f k && r.contains b i)) [
          | inl here ↦ (k, rw (bytes_eq_refl k) (ground (arith, here)), ground (arith, here))
          | inr later ↦
              let (j, has, accepted) = any_entry-has_row f m i d (ground (arith, h, later)) in
              (
                j,
                elim (Bool-cases (bytes_eq k j)) [
                  | inl same ↦
                      let none_here : in_found r (find j m) i ≡ false =
                        ap (λ o. in_found r o i)
                          (ap (λ x. find x m) (sym (bytes_eq→eq k j same)) ∙ fresh) in
                      absurd cc
                  | inr other ↦ rw other has
                ],
                accepted,
              )
        ]

    has_row-any_entry :
        (f : Filter) (m : ValueBitmaps r) (k : Str) (i : ℕ)
        → has_row r m k i ≡ true
        → filter_accepts std f k ≡ true
        → any_entry f m i ≡ true
    unfolding any_entry find
    has_row-any_entry f [] k i has accepted = cc
    has_row-any_entry f ((j, b) ∷ m) k i has accepted = elim (Bool-cases (bytes_eq j k)) [
      | inl same ↦
          let accepted_here : filter_accepts std f j ≡ true =
            ap (filter_accepts std f) (bytes_eq→eq j k same) ∙ accepted in
          let has_here : r.contains b i ≡ true =
            sym (ap (λ c. in_found r (if c then some b else find k m) i) same) ∙ has in
          rw (accepted_here, has_here) refl
      | inr other ↦
          let has_later : has_row r m k i ≡ true =
            sym (ap (λ c. in_found r (if c then some b else find k m) i) other) ∙ has in
          ground (arith, has_row-any_entry f m k i has_later accepted)
    ]

    -- a column whose bitmaps have for the row `i` the value `cell`
    module _ (f : Filter) (m : ValueBitmaps r) (i : ℕ) (d : HasDistinctKeys m) where
      any_entry-accepts :
          (cell : Option Str)
          → ((value : Str) → (has_row r m value i ≡ true) ↔ (cell ≡ some value))
          → any_entry f m i ≡ accepts f cell
      any_entry-accepts none h = elim (Bool-cases (any_entry f m i)) [
        | inl found ↦
            let (k, has, accepted) = any_entry-has_row f m i d found in
            let no_value : none ≡ some k = (h k).0 has in absurd cc
        | inr nothing ↦ nothing
      ]
      any_entry-accepts (some value) h = elim (Bool-cases (filter_accepts std f value)) [
        | inl accepted ↦ has_row-any_entry f m value i ((h value).1 refl) accepted ∙ sym accepted
        | inr refused ↦ elim (Bool-cases (any_entry f m i)) [
          | inl found ↦
              let (k, has, accepted) = any_entry-has_row f m i d found in
              let same : some value ≡ some k = (h k).0 has in absurd cc
          | inr nothing ↦ nothing ∙ sym refused
        ]
      ]

      -- the bitmap of the text of an `Eq` filter
      bitmap-accepts :
          (cell : Option Str) (b : r.Bitmap)
          → ((value : Str) → (has_row r m value i ≡ true) ↔ (cell ≡ some value))
          → is_eq_op std f.op ≡ true
          → IsTextual f
          → find f.value m ≡ some b
          → r.contains b i ≡ accepts f cell
      bitmap-accepts none b h eq textual found =
          let there = h f.value in
          let bit : has_row r m f.value i ≡ r.contains b i = ap (λ o. in_found r o i) found in
          ground (arith, there, bit)
      bitmap-accepts (some value) b h eq textual found =
          let bit : has_row r m f.value i ≡ r.contains b i = ap (λ o. in_found r o i) found in
          let there = h f.value in
          ground (arith, there, bit, textual value eq, bytes_eq_iff value f.value)

      pub contains-bitmap_matches :
          (cell : Option Str)
          → ((value : Str) → (has_row r m value i ≡ true) ↔ (cell ≡ some value))
          → IsTextual f
          → r.contains (bitmap_matches_for_filter std r m f) i ≡ accepts f cell
      unfolding bitmap_matches_for_filter
      contains-bitmap_matches cell h textual = elim (Bool-cases (is_eq_op std f.op)) [
        | inl eq ↦ elim (Option-cases (find f.value m)) [
          | inl e ↦ rw (eq, e) looped
          | inr (b, e) ↦ rw (eq, e) (bitmap-accepts cell b h eq textual e)
        ]
        | inr other ↦ rw other looped
      ]
        where
          looped : r.contains (union_matches std r f m r.empty) i ≡ accepts f cell
          looped =
              contains-union_matches f m r.empty i
              ∙ rw (laws.contains-empty i) (any_entry-accepts cell h)
