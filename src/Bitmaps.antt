-- ===== src/Bitmaps.antt =====
-- What the program takes from the crate `roaring`.
use bittice.Prelude.{ℕ, ◌≡◌, Bool, true, false, not, ◌&&◌, ◌||◌, ◌==◌, ltb}

-- Sets of 32-bit row numbers. `range n` is the set that `insert_range(0..n)` makes of the empty one,
-- and `difference` is `-=`.
pub record Roaring : Type 1 where
  pub Bitmap : Type 0
  pub contains : Bitmap → ℕ → Bool
  pub empty : Bitmap
  pub is_empty : Bitmap → Bool
  pub insert : ℕ → Bitmap → Bitmap
  pub range : ℕ → Bitmap
  pub union : Bitmap → Bitmap → Bitmap
  pub intersection : Bitmap → Bitmap → Bitmap
  pub difference : Bitmap → Bitmap → Bitmap

pub record IsRoaring (r : Roaring) : Type 0 where
  pub contains-empty : (i : ℕ) → r.contains r.empty i ≡ false
  pub contains-is_empty : (i : ℕ) (b : r.Bitmap) → r.is_empty b ≡ true → r.contains b i ≡ false
  pub contains-insert :
      (i j : ℕ) (b : r.Bitmap) → r.contains (r.insert i b) j ≡ ((i == j) || r.contains b j)
  pub contains-range : (n i : ℕ) → r.contains (r.range n) i ≡ ltb i n
  pub contains-union :
      (a b : r.Bitmap) (i : ℕ) → r.contains (r.union a b) i ≡ (r.contains a i || r.contains b i)
  pub contains-intersection :
      (a b : r.Bitmap) (i : ℕ)
      → r.contains (r.intersection a b) i ≡ (r.contains a i && r.contains b i)
  pub contains-difference :
      (a b : r.Bitmap) (i : ℕ)
      → r.contains (r.difference a b) i ≡ (r.contains a i && not (r.contains b i))
