-- ===== src/ExactIndex/Merge.antt =====
-- Sorting the delta and merging it with the snapshot's items keep what every hash stands for.
use mathlib.Core.Path.{subst}
use bittice.Prelude.{
  ℕ, ◌<◌, ◌≡◌, ◌≢◌, refl, ◌∙◌, ◌==◌, if◌then◌else◌, none, some, List, [], ◌∷◌, leb, All, lookup,
  arith, inl, inr, Bool-cases, compare-cases, lt→ltb, le→ltb,
}
use bittice.Snapshot.RoundTrip.{IsAscending}
use bittice.ExactIndex.Delta.{DeltaEntry, replace, removed}
use bittice.ExactIndex.Save.{insert_sorted, sort_by_key, take_delta, merged_entries, replaced}
use bittice.ExactIndex.View.{override}

-- The keys of a map differ.
abbrev pub IsDistinct : {V : Type 0} → List (ℕ × V) → Type 0
IsDistinct [] = Unit
IsDistinct (x ∷ m) = All (λ y. x.0 ≢ y.0) m × IsDistinct m

module _ {V : Type 0} where
  lookup-insert_sorted :
      (h k : ℕ) (v : V) (m : List (ℕ × V))
      → lookup h (insert_sorted k v m) ≡ (if k == h then some v else lookup h m)
  unfolding lookup insert_sorted
  lookup-insert_sorted h k v [] = refl
  lookup-insert_sorted h k v ((j, w) ∷ m) = ground (arith, lookup-insert_sorted h k v m)

  pub lookup-sort_by_key : (h : ℕ) (m : List (ℕ × V)) → lookup h (sort_by_key m) ≡ lookup h m
  unfolding lookup sort_by_key
  lookup-sort_by_key h [] = refl
  lookup-sort_by_key h ((k, v) ∷ m) =
      ground (arith, lookup-insert_sorted h k v (sort_by_key m), lookup-sort_by_key h m)

  All-insert_sorted :
      (P : ℕ × V → Type 0) (k : ℕ) (v : V) (m : List (ℕ × V))
      → P (k, v)
      → All P m
      → All P (insert_sorted k v m)
  unfolding insert_sorted
  All-insert_sorted P k v [] p a = (p, tt)
  All-insert_sorted P k v ((j, w) ∷ m) p a = elim (Bool-cases (leb k j)) [
    | inl first ↦ rw first (p, a)
    | inr later ↦ rw later (a.0, All-insert_sorted P k v m p a.1)
  ]

  All-sort_by_key : (P : ℕ × V → Type 0) (m : List (ℕ × V)) → All P m → All P (sort_by_key m)
  unfolding sort_by_key
  All-sort_by_key P [] a = tt
  All-sort_by_key P ((k, v) ∷ m) a =
      All-insert_sorted P k v (sort_by_key m) a.0 (All-sort_by_key P m a.1)

  All-lt_trans : (a b : ℕ) (m : List (ℕ × V)) → a < b → All (λ y. b < y.0) m → All (λ y. a < y.0) m
  All-lt_trans a b [] lt h = tt
  All-lt_trans a b (x ∷ m) lt h = (omega arith, All-lt_trans a b m lt h.1)

  insert_sorted-IsAscending :
      (k : ℕ) (v : V) (m : List (ℕ × V))
      → All (λ y. k ≢ y.0) m
      → IsAscending m
      → IsAscending (insert_sorted k v m)
  unfolding insert_sorted
  insert_sorted-IsAscending k v [] ne up = (tt, tt)
  insert_sorted-IsAscending k v ((j, w) ∷ m) ne up = elim (Bool-cases (leb k j)) [
    | inl first ↦
        let lt : k < j = ground (arith, ne.0) in rw first ((lt, All-lt_trans k j m lt up.0), up)
    | inr later ↦ rw later (
      All-insert_sorted (λ y. j < y.0) k v m (ground arith) up.0,
      insert_sorted-IsAscending k v m ne.1 up.1,
    )
  ]

  pub sort_by_key-IsAscending : (m : List (ℕ × V)) → IsDistinct m → IsAscending (sort_by_key m)
  unfolding sort_by_key
  sort_by_key-IsAscending [] d = tt
  sort_by_key-IsAscending ((k, v) ∷ m) d =
      insert_sorted-IsAscending k v (sort_by_key m) (All-sort_by_key (λ y. k ≢ y.0) m d.0)
        (sort_by_key-IsAscending m d.1)

  pub lookup-above : (h : ℕ) (m : List (ℕ × V)) → All (λ y. h < y.0) m → lookup h m ≡ none
  unfolding lookup
  lookup-above h [] a = refl
  lookup-above h ((k, v) ∷ m) a = ground (arith, lookup-above h m a.1, a.0)

module _ {V : Type 0} where
  All-take_delta :
      (P : ℕ × V → Type 0) (k : ℕ) (e : DeltaEntry V) (rest : List (ℕ × V))
      → ((v : V) → P (k, v))
      → All P rest
      → All P (take_delta k e rest)
  unfolding take_delta
  All-take_delta P k (replace v) rest p a = (p v, a)
  All-take_delta P k removed rest p a = a

  -- The merge holds nothing at or below a bound of both sides.
  merged_entries-above :
      (b : ℕ) (es : List (ℕ × V)) (delta : List (ℕ × DeltaEntry V))
      → All (λ y. b < y.0) es
      → All (λ y. b < y.0) delta
      → All (λ y. b < y.0) (merged_entries es delta)
  unfolding merged_entries
  merged_entries-above b [] [] ae ad = tt
  merged_entries-above b ((sh, v) ∷ es) [] ae ad = (ae.0, merged_entries-above b es [] ae.1 tt)
  merged_entries-above b [] ((dh, e) ∷ delta) ae ad =
      All-take_delta (λ y. b < y.0) dh e (merged_entries [] delta) (λ v. ad.0)
        (merged_entries-above b [] delta tt ad.1)
  merged_entries-above b ((sh, v) ∷ es) ((dh, e) ∷ delta) ae ad = elim (compare-cases sh dh) [
    | inl (c, lt) ↦ rw (lt→ltb sh dh lt) (ae.0, merged_entries-above b es ((dh, e) ∷ delta) ae.1 ad)
    | inr (inl (c, gt)) ↦
        rw (le→ltb sh dh (omega arith), lt→ltb dh sh gt)
          (All-take_delta (λ y. b < y.0) dh e (merged_entries ((sh, v) ∷ es) delta) (λ w. ad.0)
            (merged_entries-above b ((sh, v) ∷ es) delta ae ad.1))
    | inr (inr (c, same)) ↦
        rw (le→ltb sh dh (omega arith), le→ltb dh sh (omega arith))
          (All-take_delta (λ y. b < y.0) dh e (merged_entries es delta) (λ w. ad.0)
            (merged_entries-above b es delta ae.1 ad.1))
  ]

  take_delta-IsAscending :
      (k : ℕ) (e : DeltaEntry V) (rest : List (ℕ × V))
      → All (λ y. k < y.0) rest
      → IsAscending rest
      → IsAscending (take_delta k e rest)
  unfolding take_delta
  take_delta-IsAscending k (replace v) rest a up = (a, up)
  take_delta-IsAscending k removed rest a up = up

  -- An entry in front of the merge of what has greater hashes.
  lookup-take_delta :
      (h k : ℕ) (e : DeltaEntry V) (rest : List (ℕ × V))
      → All (λ y. k < y.0) rest
      → lookup h (take_delta k e rest) ≡ (if k == h then override (some e) none else lookup h rest)
  unfolding take_delta lookup
  lookup-take_delta h k (replace v) rest a = refl
  lookup-take_delta h k removed rest a = elim (Bool-cases (k == h)) [
    | inr other ↦ rw other
    | inl same ↦
        let eq : k ≡ h = ground arith in
        rw same (subst (λ n. lookup n rest ≡ none) eq (lookup-above k rest a))
  ]

  -- The merge of two ascending lists ascends.
  pub merged_entries-IsAscending :
      (es : List (ℕ × V)) (delta : List (ℕ × DeltaEntry V))
      → IsAscending es
      → IsAscending delta
      → IsAscending (merged_entries es delta)
  unfolding merged_entries
  merged_entries-IsAscending [] [] ue ud = tt
  merged_entries-IsAscending ((sh, v) ∷ es) [] ue ud =
      (merged_entries-above sh es [] ue.0 tt, merged_entries-IsAscending es [] ue.1 tt)
  merged_entries-IsAscending [] ((dh, e) ∷ delta) ue ud =
      take_delta-IsAscending dh e (merged_entries [] delta)
        (merged_entries-above dh [] delta tt ud.0) (merged_entries-IsAscending [] delta tt ud.1)
  merged_entries-IsAscending ((sh, v) ∷ es) ((dh, e) ∷ delta) ue ud = elim (compare-cases sh dh) [
    | inl (c, lt) ↦ rw (lt→ltb sh dh lt) (
      merged_entries-above sh es ((dh, e) ∷ delta) ue.0 (lt, All-lt_trans sh dh delta lt ud.0),
      merged_entries-IsAscending es ((dh, e) ∷ delta) ue.1 ud,
    )
    | inr (inl (c, gt)) ↦
        rw (le→ltb sh dh (omega arith), lt→ltb dh sh gt)
          (take_delta-IsAscending dh e (merged_entries ((sh, v) ∷ es) delta)
            (merged_entries-above dh ((sh, v) ∷ es) delta (gt, All-lt_trans dh sh es gt ue.0) ud.0)
            (merged_entries-IsAscending ((sh, v) ∷ es) delta ue ud.1))
    | inr (inr (c, same)) ↦
        rw (le→ltb sh dh (omega arith), le→ltb dh sh (omega arith))
          (take_delta-IsAscending dh e (merged_entries es delta)
            (merged_entries-above dh es delta (rw same at ue.0) ud.0)
            (merged_entries-IsAscending es delta ue.1 ud.1))
  ]

  -- A hash stands in the merge for what it stands for in the delta over the snapshot.
  pub lookup-merged_entries :
      (h : ℕ) (es : List (ℕ × V)) (delta : List (ℕ × DeltaEntry V))
      → IsAscending es
      → IsAscending delta
      → lookup h (merged_entries es delta) ≡ override (lookup h delta) (lookup h es)
  unfolding merged_entries lookup
  lookup-merged_entries h [] [] ue ud = refl
  lookup-merged_entries h ((sh, v) ∷ es) [] ue ud =
      ground (arith, lookup-merged_entries h es [] ue.1 tt)
  lookup-merged_entries h [] ((dh, e) ∷ delta) ue ud =
      lookup-take_delta h dh e (merged_entries [] delta) (merged_entries-above dh [] delta tt ud.0)
      ∙ ground (arith, lookup-merged_entries h [] delta tt ud.1)
  lookup-merged_entries h ((sh, v) ∷ es) ((dh, e) ∷ delta) ue ud = elim (compare-cases sh dh) [
    | inl (c, lt) ↦ rw (lt→ltb sh dh lt) (
        ground (
          arith,
          lookup-merged_entries h es ((dh, e) ∷ delta) ue.1 ud,
          lookup-above sh delta (All-lt_trans sh dh delta lt ud.0),
        ))
    | inr (inl (c, gt)) ↦
        rw (le→ltb sh dh (omega arith), lt→ltb dh sh gt)
          (lookup-take_delta h dh e (merged_entries ((sh, v) ∷ es) delta) (
              merged_entries-above dh ((sh, v) ∷ es) delta (gt, All-lt_trans dh sh es gt ue.0) ud.0)
            ∙ ground (arith, lookup-merged_entries h ((sh, v) ∷ es) delta ue ud.1))
    | inr (inr (c, same)) ↦
        rw (le→ltb sh dh (omega arith), le→ltb dh sh (omega arith))
          (lookup-take_delta h dh e (merged_entries es delta)
              (merged_entries-above dh es delta (rw same at ue.0) ud.0)
            ∙ ground (arith, lookup-merged_entries h es delta ue.1 ud.1))
  ]

module _ {V : Type 0} where
  lookup_absent : (h : ℕ) (m : List (ℕ × V)) → All (λ y. h ≢ y.0) m → lookup h m ≡ none
  unfolding lookup
  lookup_absent h [] a = refl
  lookup_absent h ((k, v) ∷ m) a = ground (arith, lookup_absent h m a.1, a.0)

  All-replaced :
      (k : ℕ) (m : List (ℕ × DeltaEntry V)) → All (λ y. k ≢ y.0) m → All (λ y. k ≢ y.0) (replaced m)
  unfolding replaced
  All-replaced k [] a = tt
  All-replaced k ((j, replace v) ∷ m) a = (a.0, All-replaced k m a.1)
  All-replaced k ((j, removed) ∷ m) a = All-replaced k m a.1

  pub replaced-IsDistinct : (m : List (ℕ × DeltaEntry V)) → IsDistinct m → IsDistinct (replaced m)
  unfolding replaced
  replaced-IsDistinct [] d = tt
  replaced-IsDistinct ((j, replace v) ∷ m) d = (All-replaced j m d.0, replaced-IsDistinct m d.1)
  replaced-IsDistinct ((j, removed) ∷ m) d = replaced-IsDistinct m d.1

  -- With no snapshot, the values that are kept are those that the delta stands for.
  pub lookup-replaced :
      (h : ℕ) (m : List (ℕ × DeltaEntry V))
      → IsDistinct m
      → lookup h (replaced m) ≡ override (lookup h m) none
  unfolding replaced lookup
  lookup-replaced h [] d = refl
  lookup-replaced h ((j, replace v) ∷ m) d = ground (arith, lookup-replaced h m d.1)
  lookup-replaced h ((j, removed) ∷ m) d = elim (Bool-cases (j == h)) [
    | inr other ↦ rw other (lookup-replaced h m d.1)
    | inl same ↦
        let eq : j ≡ h = ground arith in
        rw same (
          subst (λ n. lookup n (replaced m) ≡ none) eq
            (lookup_absent j (replaced m) (All-replaced j m d.0)))
  ]
