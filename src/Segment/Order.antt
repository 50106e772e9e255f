-- ===== src/Segment/Order.antt =====
-- The order of texts, and the smallest and largest value of a column (src/core/storage/segment.rs).
use bittice.Prelude.{
  Str, bytes_eq, not, ℕ, ◌≡◌, refl, true, false, ◌&&◌, ◌||◌, ◌==◌, ltb, Option, none, some, [], ◌∷◌,
  arith,
}
use bittice.Filter.{str_cmp, is_less, is_equal, is_greater}
use bittice.Segment.{str_lt, widen}

-- texts that start with a byte, by that byte and then by the rest
str_lt-cons : (a b : ℕ) (s t : Str) → str_lt (a ∷ s) (b ∷ t) ≡ (ltb a b || ((a == b) && str_lt s t))
str_lt-cons a b s t = ground arith

pub str_lt_irrefl : (s : Str) → str_lt s s ≡ false
str_lt_irrefl [] = refl
str_lt_irrefl (a ∷ s) = ground (arith, str_lt_irrefl s, str_lt-cons a a s s)

-- `a ≤ b` and `b ≤ c` give `a ≤ c`
pub str_lt_trans : (a b c : Str) → str_lt b a ≡ false → str_lt c b ≡ false → str_lt c a ≡ false
str_lt_trans [] b [] h k = refl
str_lt_trans [] b (z ∷ c) h k = refl
str_lt_trans (x ∷ a) [] [] h k = cc
str_lt_trans (x ∷ a) [] (z ∷ c) h k = cc
str_lt_trans (x ∷ a) (y ∷ b) [] h k = cc
str_lt_trans (x ∷ a) (y ∷ b) (z ∷ c) h k =
    ground
      (arith, str_lt-cons y x b a, str_lt-cons z y c b, str_lt-cons z x c a, str_lt_trans a b c)

-- `a < b` gives `a ≤ b`
pub str_lt_asymm : (a b : Str) → str_lt a b ≡ true → str_lt b a ≡ false
str_lt_asymm [] [] h = refl
str_lt_asymm [] (y ∷ b) h = refl
str_lt_asymm (x ∷ a) [] h = cc
str_lt_asymm (x ∷ a) (y ∷ b) h =
    ground (arith, str_lt-cons x y a b, str_lt-cons y x b a, str_lt_asymm a b)

-- The value is not outside the range.
abbrev pub Within : Option (Str × Str) → Str → Type 0
Within none value = ⊥
Within (some (lo, hi)) value = (str_lt value lo ≡ false) × (str_lt hi value ≡ false)

pub widen-Within :
    (value : Str) (range : Option (Str × Str)) → Within (some (widen value range)) value
unfolding widen
widen-Within value none = (str_lt_irrefl value, str_lt_irrefl value)
widen-Within value (some (lo, hi)) = ground (arith, str_lt_irrefl value)

pub widen-Within_old :
    (value old : Str) (range : Option (Str × Str))
    → Within range old
    → Within (some (widen value range)) old
unfolding widen
widen-Within_old value old none h = absurd h
widen-Within_old value old (some (lo, hi)) (above, below) = ground (
  arith,
  str_lt_asymm value lo,
  str_lt_asymm hi value,
  str_lt_trans value lo old,
  str_lt_trans old hi value,
)

-- how the texts compare, in terms of `<` and of equality
pub str_cmp-is_greater : (a b : Str) → is_greater (some (str_cmp a b)) ≡ str_lt b a
str_cmp-is_greater [] [] = refl
str_cmp-is_greater [] (y ∷ b) = refl
str_cmp-is_greater (x ∷ a) [] = refl
str_cmp-is_greater (x ∷ a) (y ∷ b) = ground (arith, str_cmp-is_greater a b)

pub str_cmp-is_equal : (a b : Str) → is_equal (some (str_cmp a b)) ≡ bytes_eq a b
str_cmp-is_equal [] [] = refl
str_cmp-is_equal [] (y ∷ b) = refl
str_cmp-is_equal (x ∷ a) [] = refl
str_cmp-is_equal (x ∷ a) (y ∷ b) = ground (arith, str_cmp-is_equal a b)

pub str_cmp-at_least :
    (a b : Str)
    → (is_greater (some (str_cmp a b)) || is_equal (some (str_cmp a b))) ≡ not (str_lt a b)
str_cmp-at_least a b = ground arith

pub str_cmp-at_most :
    (a b : Str) → (is_less (some (str_cmp a b)) || is_equal (some (str_cmp a b))) ≡ not (str_lt b a)
str_cmp-at_most a b = ground (arith, str_cmp-is_greater a b)
