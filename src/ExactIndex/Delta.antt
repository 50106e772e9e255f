-- ===== src/ExactIndex/Delta.antt =====
-- What the exact index takes from crates, and the data that it keeps in memory.
pub use bittice.Bitmaps.{Roaring, IsRoaring}
use bittice.Prelude.{
  ℕ, ◌≡◌, ◌⊎◌, Bool, false, ◌||◌, ◌==◌, if◌then◌else◌, Option, none, some, List, [], ◌∷◌, arith,
}

-- The crate `lru`: a bounded cache. What a call returns depends on what has been evicted.
pub record Lru (V : Type 0) : Type 1 where
  pub Cache : Type 0
  pub new : Cache
  pub get : ℕ → Cache → Option V × Cache
  pub put : ℕ → V → Cache → Cache
  pub pop : ℕ → Cache → Cache
  pub clear : Cache → Cache

-- The documented behaviour: a cache returns only what was put under the key and not popped since;
-- `put` may evict other keys, and `get` moves a key to the front and changes no value.
pub record IsLru {V : Type 0} (l : Lru V) : Type 0 where
  pub get-new : (k : ℕ) → (l.get k l.new).0 ≡ none
  pub get-get : (j k : ℕ) (c : l.Cache) → (l.get j (l.get k c).1).0 ≡ (l.get j c).0
  pub get-put :
      (j k : ℕ) (v w : V) (c : l.Cache)
      → (l.get j (l.put k v c)).0 ≡ some w
      → ((j ≡ k) × (w ≡ v)) ⊎ ((l.get j c).0 ≡ some w)
  pub get-pop :
      (j k : ℕ) (c : l.Cache) → (l.get j (l.pop k c)).0 ≡ (if k == j then none else (l.get j c).0)
  pub get-clear : (k : ℕ) (c : l.Cache) → (l.get k (l.clear c)).0 ≡ none

pub data DeltaEntry (V : Type 0) : Type 0 where
  replace : V → DeltaEntry V
  removed : DeltaEntry V

-- `Vec<(u64, RoaringBitmap)>`: the rows of a value in each segment.
abbrev pub BitmapList : Type 0 → Type 0
BitmapList B = List (ℕ × B)

module _ (r : Roaring) where
  abbrev pub Bitmaps : Type 0
  Bitmaps = BitmapList r.Bitmap

  -- `if let Some(existing) = … .find(|(s, _)| *s == seg_id) { existing.1 |= bitmap } else { push }`
  unfoldable pub merge_bitmap : ℕ → r.Bitmap → Bitmaps → Bitmaps
  merge_bitmap seg_id bitmap [] = (seg_id, bitmap) ∷ []
  merge_bitmap seg_id bitmap ((s, b) ∷ rest) =
      if s == seg_id then (s, r.union b bitmap) ∷ rest else (s, b) ∷ merge_bitmap seg_id bitmap rest

  -- Whether the value has the row in the segment.
  unfoldable pub has_row : ℕ → ℕ → Bitmaps → Bool
  has_row seg_id row [] = false
  has_row seg_id row ((s, b) ∷ rest) =
      (if s == seg_id then r.contains b row else false) || has_row seg_id row rest

  -- The rows of the merged segment are the old ones and the new ones; other segments keep theirs.
  pub has_row-merge_bitmap :
      (laws : IsRoaring r) (seg_id s row : ℕ) (bitmap : r.Bitmap) (bs : Bitmaps)
      → has_row s row (merge_bitmap seg_id bitmap bs)
        ≡ (has_row s row bs || (if seg_id == s then r.contains bitmap row else false))
  unfolding has_row merge_bitmap
  has_row-merge_bitmap laws seg_id s row bitmap [] = ground arith
  has_row-merge_bitmap laws seg_id s row bitmap ((j, b) ∷ rest) =
      ground (
        arith,
        laws.contains-union b bitmap row,
        has_row-merge_bitmap laws seg_id s row bitmap rest,
      )
