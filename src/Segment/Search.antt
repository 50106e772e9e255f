-- ===== src/Segment/Search.antt =====
-- What a search in a segment finds (src/core/storage/segment.rs).
mod Entries
use bittice.Prelude.{
  Str, bytes_eq, bytes_eq_iff, bytes_eq→eq, bytes_eq_refl, find, HasDistinctKeys, All, ℕ, ◌^◌, ◌<◌,
  ◌≡◌, refl, sym, ap, ◌∙◌, ◌↔◌, Bool, true, false, not, ◌&&◌, ◌||◌, ltb, lt→ltb, ltb→lt,
  if◌then◌else◌, Option, none, some, List, [], ◌∷◌, get_elem?, arith, inl, inr, Bool-cases,
  Option-cases,
}
use bittice.Bitmaps.{Roaring, IsRoaring}
use bittice.Filter.{LogicalOp, and_op, or_op, Filter, StdText}
use bittice.Segment.{
  ValueBitmaps, Segment, SegmentWriter, or_nil, as_u32, valid_filters, any_skips, filter_accepts,
  is_eq_op, union_matches, bitmap_matches_for_filter, search_rest, search_valid, less_deleted,
  search,
}
use bittice.Segment.Rows.{has_row, in_found, IsIndexed, column_of, as_u32_small, get_elem?-out}
pub use Entries.{accepts, IsTextual, value_at, all_accept, any_accepts, row_matches, is_result}
use Entries.{contains-bitmap_matches}

module _ (std : StdText) where
  module _ {r : Roaring} (laws : IsRoaring r) where
    module _ (w : SegmentWriter r) (fields : Str → Bool) (v : IsIndexed r fields w) where
      contains-matches :
          (f : Filter) (i : ℕ)
          → IsTextual std f
          → r.contains (bitmap_matches_for_filter std r (or_nil (find f.field w.bitmaps)) f) i
            ≡ accepts std f (value_at std w f.field i)
      contains-matches f i textual =
          let c = v.columns f.field in
          contains-bitmap_matches std laws f (column_of w f.field).bitmaps i c.distinct
            (value_at std w f.field i) (λ value. c.indexed value i) textual

      contains-search_and :
          (fs : List Filter) (acc : r.Bitmap) (i : ℕ)
          → All (IsTextual std) fs
          → r.contains (search_rest std r and_op w.bitmaps fs acc) i
            ≡ (r.contains acc i && all_accept std w fs i)
      unfolding search_rest
      contains-search_and [] acc i t = ground arith
      contains-search_and (f ∷ fs) acc i (t, ts) =
          let here = bitmap_matches_for_filter std r (or_nil (find f.field w.bitmaps)) f in
          ground (
            arith,
            contains-search_and fs (r.intersection acc here) i ts,
            laws.contains-intersection acc here i,
            contains-matches f i t,
          )

      contains-search_or :
          (fs : List Filter) (acc : r.Bitmap) (i : ℕ)
          → All (IsTextual std) fs
          → r.contains (search_rest std r or_op w.bitmaps fs acc) i
            ≡ (r.contains acc i || any_accepts std w fs i)
      unfolding search_rest
      contains-search_or [] acc i t = ground arith
      contains-search_or (f ∷ fs) acc i (t, ts) =
          let here = bitmap_matches_for_filter std r (or_nil (find f.field w.bitmaps)) f in
          ground (
            arith,
            contains-search_or fs (r.union acc here) i ts,
            laws.contains-union acc here i,
            contains-matches f i t,
          )

      contains-less_deleted :
          (s : Segment r) (b : r.Bitmap) (i : ℕ)
          → r.contains (less_deleted std r s b) i
            ≡ (r.contains b i && not (r.contains s.deleted_bitmap i))
      unfolding less_deleted
      contains-less_deleted s b i = ground (
        arith,
        laws.contains-is_empty i s.deleted_bitmap,
        laws.contains-difference b s.deleted_bitmap i,
      )

      -- a value that is there is at a row of the segment
      accepts-bound :
          (f : Filter) (i : ℕ)
          → accepts std f (value_at std w f.field i) ≡ true
          → i < w.segment.record_count
      accepts-bound f i h = elim (Bool-cases (ltb i w.segment.record_count)) [
        | inl below ↦ ltb→lt i w.segment.record_count below
        | inr above ↦
            let c = v.columns f.field in
            let empty : value_at std w f.field i ≡ none =
              get_elem?-out (column_of w f.field).values i (ground (arith, c.size, above)) in
            let refused : accepts std f (value_at std w f.field i) ≡ false =
              ap (accepts std f) empty in
            absurd cc
      ]

      any_accepts-bound :
          (fs : List Filter) (i : ℕ) → any_accepts std w fs i ≡ true → i < w.segment.record_count
      any_accepts-bound [] i h = cc
      any_accepts-bound (f ∷ fs) i h =
          elim (Bool-cases (accepts std f (value_at std w f.field i))) [
            | inl here ↦ accepts-bound f i here
            | inr later ↦ any_accepts-bound fs i (ground (arith, h, later))
          ]

      row_matches-bound :
          (op : LogicalOp) (f : Filter) (fs : List Filter) (i : ℕ)
          → row_matches std op w (f ∷ fs) i
            ≡ (ltb i w.segment.record_count && row_matches std op w (f ∷ fs) i)
      row_matches-bound and_op f fs i =
          ground (arith, accepts-bound f i, lt→ltb i w.segment.record_count)
      row_matches-bound or_op f fs i =
          ground (arith, any_accepts-bound (f ∷ fs) i, lt→ltb i w.segment.record_count)

      contains-search_rest :
          (op : LogicalOp) (f : Filter) (fs : List Filter) (i : ℕ)
          → All (IsTextual std) (f ∷ fs)
          → r.contains
              (search_rest std r op w.bitmaps fs
                (bitmap_matches_for_filter std r (or_nil (find f.field w.bitmaps)) f))
              i
            ≡ row_matches std op w (f ∷ fs) i
      contains-search_rest and_op f fs i (t, ts) =
          contains-search_and fs _ i ts
          ∙ ap (λ b. b && all_accept std w fs i) (contains-matches f i t)
      contains-search_rest or_op f fs i (t, ts) =
          contains-search_or fs _ i ts
          ∙ ap (λ b. b || any_accepts std w fs i) (contains-matches f i t)

      contains-search_valid :
          (op : LogicalOp) (fs : List Filter) (i : ℕ)
          → w.segment.record_count < 2 ^ 32
          → All (IsTextual std) fs
          → any_skips std w.segment.min_max fs ≡ false
          → r.contains (search_valid std r op w.segment w.bitmaps fs) i ≡ is_result std op w fs i
      unfolding search_valid
      contains-search_valid op [] i room t none_skips =
          contains-less_deleted w.segment (r.range (as_u32 w.segment.record_count)) i
          ∙ rw
              (
                laws.contains-range (as_u32 w.segment.record_count) i,
                as_u32_small w.segment.record_count room,
              )
              (ground arith)
      contains-search_valid op (f ∷ fs) i room t none_skips = rw none_skips (
          contains-less_deleted w.segment _ i
          ∙ ap (λ b. b && not (r.contains w.segment.deleted_bitmap i))
              (contains-search_rest op f fs i t ∙ row_matches-bound op f fs i))

  -- A search in an indexed segment of fewer than 2^32 rows, of which no filter that counts (no field or
  -- value is "?") skips the segment by its range, and whose `Eq` filters mean equality of texts, finds
  -- exactly the rows below the count that are not deleted and whose own values pass all those filters,
  -- for And, or one of them, for Or; without filters it finds every row that is not deleted.
  pub contains-search :
      {r : Roaring} (laws : IsRoaring r) (w : SegmentWriter r) (fields : Str → Bool)
      (filters : List Filter) (op : LogicalOp) (i : ℕ)
      → IsIndexed r fields w
      → w.segment.record_count < 2 ^ 32
      → All (IsTextual std) (valid_filters filters)
      → any_skips std w.segment.min_max (valid_filters filters) ≡ false
      → r.contains (search std r filters op w) i ≡ is_result std op w (valid_filters filters) i
  unfolding search
  contains-search laws w fields filters op i v room t none_skips =
      contains-search_valid laws w fields v op (valid_filters filters) i room t none_skips
