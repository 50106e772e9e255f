-- ===== src/Segment/Rows/Indexed.antt =====
-- Segments whose bitmaps and ranges are those of their rows (src/core/storage/segment.rs).
use bittice.Prelude.{
  Str, find, HasDistinctKeys, ℕ, zero, suc, ◌^◌, ◌≤◌, ◌<◌, ◌≡◌, refl, ◌↔◌, Bool, true, false, ◌==◌,
  if◌then◌else◌, Option, none, some, List, [], ◌∷◌, ◌++◌, length, get_elem?, arith,
}
use bittice.Bitmaps.{Roaring}
use bittice.Segment.{Row, ValueBitmaps, SegmentWriter, or_nil, as_u32}
use bittice.Segment.Order.{Within}

-- What a segment keeps for one column.
pub record ColumnState (r : Roaring) : Type 0 where
  pub values : List Str
  pub bitmaps : ValueBitmaps r
  pub range : Option (Str × Str)

module _ {r : Roaring} where
  abbrev pub column_of : SegmentWriter r → Str → ColumnState r
  column_of w col = record {
    values = or_nil (find col w.segment.columns);
    bitmaps = or_nil (find col w.bitmaps);
    range = find col w.segment.min_max;
  }

pub as_u32_small : (n : ℕ) → n < 2 ^ 32 → as_u32 n ≡ n
as_u32_small n h = omega (arith, h)

module _ (r : Roaring) where
  -- The row is in the bitmap of the value.
  abbrev pub in_found : Option r.Bitmap → ℕ → Bool
  in_found none i = false
  in_found (some b) i = r.contains b i

  abbrev pub has_row : ValueBitmaps r → Str → ℕ → Bool
  has_row m value i = in_found (find value m) i

  -- The column has `n` values; the bitmaps have for each row the value of the row, and no other;
  -- every value is within the range.
  pub record IsColumn (n : ℕ) (c : ColumnState r) : Type 0 where
    pub size : length c.values ≡ n
    pub indexed :
        (value : Str) (i : ℕ)
        → (has_row c.bitmaps value i ≡ true) ↔ (get_elem? c.values i ≡ some value)
    pub distinct : HasDistinctKeys c.bitmaps
    pub within : (value : Str) (i : ℕ) → get_elem? c.values i ≡ some value → Within c.range value

  -- A segment whose rows have the fields `fields`: every such column is a column of all the rows, and
  -- every other is empty.
  pub record IsIndexed (fields : Str → Bool) (w : SegmentWriter r) : Type 0 where
    pub count : w.segment.record_count ≤ 2 ^ 32
    pub columns :
        (col : Str) → IsColumn (if fields col then w.segment.record_count else 0) (column_of w col)

-- A row has one value for each of the fields, and no other.
pub record HasFields (fields : Str → Bool) (row : Row) : Type 0 where
  pub distinct : HasDistinctKeys row
  pub present : (col : Str) → fields col ≡ true → (value : Str) × (find col row ≡ some value)
  pub absent : (col : Str) → fields col ≡ false → find col row ≡ none

-- the last of a list
pub get_elem?-snoc :
    {A : Type 0} (xs : List A) (x : A) (i : ℕ)
    → get_elem? (xs ++ x ∷ []) i ≡ (if length xs == i then some x else get_elem? xs i)
get_elem?-snoc [] x zero = refl
get_elem?-snoc [] x (suc i) = ground arith
get_elem?-snoc (y ∷ xs) x zero = ground arith
get_elem?-snoc (y ∷ xs) x (suc i) = ground (arith, get_elem?-snoc xs x i)

pub get_elem?-out : {A : Type 0} (xs : List A) (i : ℕ) → length xs ≤ i → get_elem? xs i ≡ none
get_elem?-out [] i h = refl
get_elem?-out (x ∷ xs) zero h = absurd (omega arith)
get_elem?-out (x ∷ xs) (suc i) h = get_elem?-out xs i (omega arith)
