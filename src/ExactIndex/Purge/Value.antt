-- ===== src/ExactIndex/Purge/Value.antt =====
-- What a purge makes of a value, independently of the code, and that the filters of `purge_segments` do
-- it (src/core/storage/exact_index.rs).
use mathlib.Core.Path.{subst}
use mathlib.Core.Option.{some-injective}
use bittice.Prelude.{
  any_of, retain, Bool, ℕ, ◌≤◌, ◌≡◌, refl, sym, ◌∙◌, false, not, ◌==◌, if◌then◌else◌, Option, none,
  some, List, [], ◌∷◌, length, arith, inl, inr, Bool-cases,
}
use bittice.ExactIndex.Delta.{BitmapList}
use bittice.ExactIndex.{contains, keep_segments, mentions}

-- The bitmaps without the purged segments; a value that loses all of them is gone.
abbrev pub some_unless_empty : {B : Type 0} → BitmapList B → Option (BitmapList B)
some_unless_empty [] = none
some_unless_empty (x ∷ bs) = some (x ∷ bs)

module _ {B : Type 0} (gone : List ℕ) where
  -- A bitmap of a purged segment.
  abbrev pub is_gone : ℕ × B → Bool
  is_gone e = contains gone e.0

  -- What a purge makes of a value: a value with no bitmap of a purged segment stays as it is, and any
  -- other keeps the bitmaps of the other segments, in their order.
  abbrev pub purged : Option (BitmapList B) → Option (BitmapList B)
  purged none = none
  purged (some bs) =
      if any_of is_gone bs then some_unless_empty (retain (λ e. not (is_gone e)) bs) else some bs

  keep_segments-retain :
      (bs : BitmapList B) → keep_segments gone bs ≡ retain (λ e. not (is_gone e)) bs
  unfolding keep_segments retain
  keep_segments-retain [] = refl
  keep_segments-retain ((s, b) ∷ bs) = ground (arith, keep_segments-retain bs)

  pub mentions-any_of : (bs : BitmapList B) → mentions gone bs ≡ any_of is_gone bs
  unfolding mentions any_of
  mentions-any_of [] = refl
  mentions-any_of ((s, b) ∷ bs) = ground (arith, mentions-any_of bs)

  -- The same by the functions of the code.
  abbrev pub kept_of : Option (BitmapList B) → Option (BitmapList B)
  kept_of none = none
  kept_of (some bs) =
      if mentions gone bs then some_unless_empty (keep_segments gone bs) else some bs

  length-keep_segments : (bs : BitmapList B) → length (keep_segments gone bs) ≤ length bs
  unfolding keep_segments
  length-keep_segments [] = omega arith
  length-keep_segments ((s, b) ∷ bs) = ground (arith, length-keep_segments bs)

  -- Filtering shortens exactly the lists that mention a purged segment.
  pub same_length :
      (bs : BitmapList B) → (length (keep_segments gone bs) == length bs) ≡ not (mentions gone bs)
  unfolding keep_segments mentions
  same_length [] = refl
  same_length ((s, b) ∷ bs) = ground (arith, same_length bs, length-keep_segments bs)

  pub mentions-keep_segments : (bs : BitmapList B) → mentions gone (keep_segments gone bs) ≡ false
  unfolding keep_segments mentions
  mentions-keep_segments [] = refl
  mentions-keep_segments ((s, b) ∷ bs) = ground (arith, mentions-keep_segments bs)

  kept_of-free :
      (o : Option (BitmapList B)) (bs : BitmapList B)
      → kept_of o ≡ some bs
      → mentions gone bs ≡ false
  kept_of-free none bs h = cc
  kept_of-free (some xs) bs h = elim (Bool-cases (mentions gone xs)) [
    | inr free ↦ ground (arith, free, h)
    | inl found ↦
        let kept : some_unless_empty (keep_segments gone xs) ≡ some bs = ground (arith, found, h) in
        kept_free (keep_segments gone xs) kept (mentions-keep_segments xs)
  ]
    where
      kept_free :
          (ks : BitmapList B)
          → some_unless_empty ks ≡ some bs
          → mentions gone ks ≡ false
          → mentions gone bs ≡ false
      kept_free [] e f = cc
      kept_free (x ∷ ks) e f = subst (λ n. mentions gone n ≡ false) (some-injective (x ∷ ks) bs e) f

  pub kept_of-purged : (o : Option (BitmapList B)) → kept_of o ≡ purged o
  kept_of-purged none = refl
  kept_of-purged (some bs) = rw (mentions-any_of bs, keep_segments-retain bs) refl

  -- No purged segment is left in a purged value.
  pub purged-free :
      (o : Option (BitmapList B)) (bs : BitmapList B)
      → purged o ≡ some bs
      → any_of is_gone bs ≡ false
  purged-free o bs e = sym (mentions-any_of bs) ∙ kept_of-free o bs (kept_of-purged o ∙ e)
