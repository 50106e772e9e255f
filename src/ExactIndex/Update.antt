-- ===== src/ExactIndex/Update.antt =====
-- What `insert` and `merge_segment` make of the map that an index stands for.
use bittice.Prelude.{
  Str, ℕ, ◌≡◌, refl, ap, ◌∙◌, Bool, false, ◌||◌, ◌&&◌, ◌==◌, if◌then◌else◌, Option, none, some,
  List, [], ◌∷◌, ok, lookup, lookup-insert, arith, inl, inr, Bool-cases, ==_refl,
}
use bittice.Canonical.{Text, hash}
use bittice.Snapshot.Codec.{Bincode}
use bittice.Snapshot.Reader.{SnapshotReader}
use bittice.ExactIndex.Delta.{
  Roaring, IsRoaring, Lru, IsLru, DeltaEntry, replace, removed, Bitmaps, merge_bitmap, has_row,
  has_row-merge_bitmap,
}
use bittice.ExactIndex.{
  ExactIndex, put_value, merge_segment, current_bitmaps, snapshot_or_default, ok_flatten_or_default,
}
use bittice.ExactIndex.View.{view, IsBacked, IsValid}

-- The bitmaps of a value, none of them if the value is not in the index.
abbrev pub or_empty : {V : Type 0} → Option (List V) → List V
or_empty none = []
or_empty (some bs) = bs

-- Whether one of the values that are merged in has the row under the hash.
abbrev pub merged_row : (r : Roaring) → Text → List (Str × r.Bitmap) → ℕ → ℕ → Bool
merged_row r t [] h row = false
merged_row r t ((value, bitmap) ∷ rest) h row =
    ((hash t value == h) && r.contains bitmap row) || merged_row r t rest h row

rejoin :
    (b s x y : Bool) {a : Bool}
    → a ≡ (b || (if s then x else false))
    → (a || (if s then y else false)) ≡ (b || (if s then x || y else false))
rejoin b s x y h = ground arith

module _ {r : Roaring} (codec : Bincode (Bitmaps r)) {l : Lru (Bitmaps r)} (laws : IsLru l)
    (t : Text) (es : List (ℕ × Bitmaps r)) where
  -- Inserting bitmaps under a hash into a valid index leaves a valid index over the same snapshot,
  -- replaces what the index stands for at the hash, and changes no other hash.
  pub view-put_value :
      (idx : ExactIndex r l) (h : ℕ) (bitmaps : Bitmaps r)
      → IsValid codec idx es
      → IsValid codec (put_value t codec idx h bitmaps) es
        × ((k : ℕ)
            → view (put_value t codec idx h bitmaps).delta es k
              ≡ (if h == k then some bitmaps else view idx.delta es k))
  unfolding put_value
  view-put_value idx h bitmaps v = (
    record {
      backed = v.backed;
      coherent = λ k w free hit. ground (
        arith,
        lookup-insert h k (replace bitmaps) idx.delta,
        laws.get-pop k h idx.cache,
        v.coherent k w,
      );
    },
    λ k. rw lookup-insert (ground arith),
  )

  -- `merge_segment` starts from what the view has.
  current_bitmaps-view :
      (idx : ExactIndex r l) (h : ℕ) (snap : Option SnapshotReader)
      (entry : Option (DeltaEntry (Bitmaps r)))
      → idx.snapshot ≡ snap
      → IsBacked codec snap es
      → lookup h idx.delta ≡ entry
      → current_bitmaps t codec idx h entry ≡ ok (or_empty (view idx.delta es h))
  unfolding current_bitmaps snapshot_or_default
  current_bitmaps-view idx h snap (some (replace bs)) same backed at = rw at
  current_bitmaps-view idx h snap (some removed) same backed at = rw at
  current_bitmaps-view idx h none none same backed at =
      rw (same, at, backed) (unfold lookup in refl)
  current_bitmaps-view idx h (some snap) none same backed at =
      rw (same, at, backed.lookups h) (flat (lookup h es))
    where
      flat :
          (o : Option (Bitmaps r))
          → ok_flatten_or_default {V = ℕ × r.Bitmap} (ok o) ≡ ok (or_empty o)
      flat none = refl
      flat (some bs) = refl

  -- Whether the view has the row of the segment under the hash.
  abbrev pub row_at : ExactIndex r l → ℕ → ℕ → ℕ → Bool
  row_at idx h seg row = has_row r seg row (or_empty (view idx.delta es h))

  -- the rows after one value has been merged in
  one_value :
      (roaring : IsRoaring r) (seg_id k h seg row : ℕ) (bitmap : r.Bitmap)
      (before : ℕ → Option (Bitmaps r))
      → has_row r seg row (
          or_empty (
            if k == h then some (merge_bitmap r seg_id bitmap (or_empty (before k))) else before h))
        ≡ (has_row r seg row (or_empty (before h))
            || (if seg_id == seg then (k == h) && r.contains bitmap row else false))
  one_value roaring seg_id k h seg row bitmap before = elim (Bool-cases (k == h)) [
    | inr other ↦ rw other (ground arith)
    | inl same ↦
        let eq : k ≡ h = ground arith in
        rw (← eq) (
          rw (==_refl k)
            (has_row-merge_bitmap r roaring seg_id seg row bitmap (or_empty (before k))))
  ]

  -- With lawful bitmaps and cache, after `merge_segment` on a valid index a value has, in the merged segment, the rows that it had and the rows of
  -- all its merged bitmaps; in every other segment it has the rows that it had. The call succeeds and
  -- leaves a valid index over the same snapshot.
  pub merge_segment-rows :
      (roaring : IsRoaring r) (idx : ExactIndex r l) (seg_id : ℕ) (values : List (Str × r.Bitmap))
      → IsValid codec idx es
      → (idx' : ExactIndex r l) × (merge_segment t codec idx seg_id values ≡ ok idx')
        × IsValid codec idx' es
        × ((h seg row : ℕ)
            → row_at idx' h seg row ≡ (
                row_at idx h seg row
                || (if seg_id == seg then merged_row r t values h row else false)))
  unfolding merge_segment
  merge_segment-rows roaring idx seg_id [] v = (idx, refl, v, λ h seg row. ground arith)
  merge_segment-rows roaring idx seg_id ((value, bitmap) ∷ rest) v =
      let current =
        current_bitmaps-view idx (hash t value) idx.snapshot (lookup (hash t value) idx.delta) refl
          v.backed refl in
      let merged : Bitmaps r =
        merge_bitmap r seg_id bitmap (or_empty (view idx.delta es (hash t value))) in
      let (valid, views) = view-put_value idx (hash t value) merged v in
      let (idx', done, v', rows) =
        merge_segment-rows roaring (put_value t codec idx (hash t value) merged) seg_id rest
          valid in
      (
        idx',
        rw current done,
        v',
        λ h seg row.
            rows h seg row
            ∙ rejoin (row_at idx h seg row) (seg_id == seg)
                ((hash t value == h) && r.contains bitmap row) (merged_row r t rest h row)
                (ap (λ o. has_row r seg row (or_empty o)) (views h)
                  ∙ one_value roaring seg_id (hash t value) h seg row bitmap (view idx.delta es)),
      )
