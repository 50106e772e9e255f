-- ===== src/Prelude/Iterators.antt =====
-- The iterator methods of the source on lists: `filter`, `flat_map`, `all`, `any` and `position`, with
-- Boolean tests, and the pages that `skip` and `take` cut out.
use Prim.Native.Nat.{ℕ, zero, suc, ◌+◌, ◌-◌, ◌≤◌}
use mathlib.Core.Path.{◌≡◌, refl, sym, ap, ◌∙◌}
use mathlib.Core.Logic.{inl, inr}
use mathlib.Core.Bool.{Bool, true, false, ◌&&◌, ◌||◌}
use mathlib.Core.List.{List, [], ◌∷◌, ◌++◌}
use native.Mathlib.Omega.{arith}
use bittice.Prelude.Tests.{if◌then◌else◌, Bool-cases}
use bittice.Prelude.Lists.{All, length, take, drop}

module _ {ℓ} {A : Type ℓ} where
  unfoldable pub retain : (A → Bool) → List A → List A
  retain test [] = []
  retain test (x ∷ xs) = let rest = retain test xs in if test x then x ∷ rest else rest

  unfoldable pub all_of : (A → Bool) → List A → Bool
  all_of test [] = true
  all_of test (x ∷ xs) = test x && all_of test xs

  unfoldable pub any_of : (A → Bool) → List A → Bool
  any_of test [] = false
  any_of test (x ∷ xs) = test x || any_of test xs

  unfoldable pub concat_map {κ} : {B : Type κ} → (A → List B) → List A → List B
  concat_map f [] = []
  concat_map f (x ∷ xs) = f x ++ concat_map f xs

  pub retain-append :
      (test : A → Bool) (xs ys : List A) → retain test (xs ++ ys) ≡ retain test xs ++ retain test ys
  unfolding retain
  retain-append test [] ys = refl
  retain-append test (x ∷ xs) ys = elim (Bool-cases (test x)) [
    | inl kept ↦ rw kept (ap (λ t. x ∷ t) (retain-append test xs ys))
    | inr gone ↦ rw gone (retain-append test xs ys)
  ]

  pub retain-nil :
      (test : A → Bool) (xs : List A) → All (λ x. test x ≡ false) xs → retain test xs ≡ []
  unfolding retain
  retain-nil test [] fails = refl
  retain-nil test (x ∷ xs) (fail, fails) = rw fail (retain-nil test xs fails)

  pub retain-All {κ} :
      (P : A → Type κ) (test : A → Bool) (xs : List A) → All P xs → All P (retain test xs)
  unfolding retain
  retain-All P test [] holds = tt
  retain-All P test (x ∷ xs) (hold, holds) = elim (Bool-cases (test x)) [
    | inl kept ↦ rw kept (hold, retain-All P test xs holds)
    | inr gone ↦ rw gone (retain-All P test xs holds)
  ]

  pub length-retain : (test : A → Bool) (xs : List A) → length (retain test xs) ≤ length xs
  unfolding retain
  length-retain test [] = omega arith
  length-retain test (x ∷ xs) = elim (Bool-cases (test x)) [
    | inl kept ↦ rw kept (omega (arith, length-retain test xs))
    | inr gone ↦ rw gone (omega (arith, length-retain test xs))
  ]

  pub take-append_split :
      (n : ℕ) (xs ys : List A) → take n (xs ++ ys) ≡ take n xs ++ take (n - length xs) ys
  take-append_split zero xs ys = rw (floor (length xs)) refl
    where
      floor : (n : ℕ) → 0 - n ≡ 0
      floor n = omega arith
  take-append_split (suc n) [] ys = rw (whole n) refl
    where
      whole : (n : ℕ) → suc n - 0 ≡ suc n
      whole n = omega arith
  take-append_split (suc n) (x ∷ xs) ys =
      rw (step n (length xs)) (ap (λ t. x ∷ t) (take-append_split n xs ys))
    where
      step : (m n : ℕ) → suc m - suc n ≡ m - n
      step m n = omega arith

  pub take-take_le :
      (m n : ℕ) (xs ys : List A) → m ≤ n → take n xs ≡ take n ys → take m xs ≡ take m ys
  take-take_le m n xs ys le e = sym (shorter m n xs le) ∙ ap (take m) e ∙ shorter m n ys le
    where
      shorter : (m n : ℕ) (xs : List A) → m ≤ n → take m (take n xs) ≡ take m xs
      shorter zero n xs le = refl
      shorter (suc m) zero xs le = absurd (omega arith)
      shorter (suc m) (suc n) [] le = refl
      shorter (suc m) (suc n) (x ∷ xs) le = ap (λ t. x ∷ t) (shorter m n xs (omega arith))

  take-nil : (n : ℕ) → take {A = A} n [] ≡ []
  take-nil zero = refl
  take-nil (suc n) = refl

  pub drop-take : (m n : ℕ) (xs : List A) → take n (drop m xs) ≡ drop m (take (m + n) xs)
  drop-take zero n xs = rw (from_zero n) refl
    where
      from_zero : (n : ℕ) → 0 + n ≡ n
      from_zero n = omega arith
  drop-take (suc m) n [] = take-nil n ∙ ap (drop (suc m)) (sym (take-nil (suc m + n)))
  drop-take (suc m) n (x ∷ xs) = rw (shift m n) (drop-take m n xs)
    where
      shift : (m n : ℕ) → suc m + n ≡ suc (m + n)
      shift m n = omega arith

module _ {ℓ κ} {A : Type ℓ} {B : Type κ} where
  -- A row whose results all fail the test can be left out before the results are made.
  pub retain-concat_map :
      (test : B → Bool) (keep : A → Bool) (f : A → List B) (xs : List A)
      → ((x : A) → keep x ≡ false → retain test (f x) ≡ [])
      → retain test (concat_map f (retain keep xs)) ≡ retain test (concat_map f xs)
  unfolding retain concat_map
  retain-concat_map test keep f [] drops = refl
  retain-concat_map test keep f (x ∷ xs) drops = elim (Bool-cases (keep x)) [
    | inl kept ↦ rw kept (
        retain-append test (f x) (concat_map f (retain keep xs))
        ∙ ap (λ t. retain test (f x) ++ t) (retain-concat_map test keep f xs drops)
        ∙ sym (retain-append test (f x) (concat_map f xs)))
    | inr gone ↦ rw gone (
        retain-concat_map test keep f xs drops
        ∙ ap (λ t. t ++ retain test (concat_map f xs)) (sym (drops x gone))
        ∙ sym (retain-append test (f x) (concat_map f xs)))
  ]

  -- Rows that each yield a result: the first `n` results come from the first `n` rows.
  pub take-concat_map :
      (n : ℕ) (f : A → List B) (xs : List A)
      → ((x : A) → 1 ≤ length (f x))
      → take n (concat_map f (take n xs)) ≡ take n (concat_map f xs)
  unfolding concat_map
  take-concat_map zero f xs nonempty = refl
  take-concat_map (suc n) f [] nonempty = refl
  take-concat_map (suc n) f (x ∷ xs) nonempty =
      take-append_split (suc n) (f x) (concat_map f (take n xs))
      ∙ ap (λ t. take (suc n) (f x) ++ t)
          (take-take_le (suc n - length (f x)) n (concat_map f (take n xs)) (concat_map f xs)
            (omega (arith, nonempty x)) (take-concat_map n f xs nonempty))
      ∙ sym (take-append_split (suc n) (f x) (concat_map f xs))
