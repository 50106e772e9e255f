-- ===== src/Cdc/Merged.antt =====
-- Merged intervals have the same numbers and do not touch (src/core/cdc/mod.rs).
use bittice.Prelude.{
  not, ℕ, ◌≤◌, ◌<◌, Bool, true, false, ◌&&◌, ◌||◌, ◌==◌, leb, ltb, List, [], ◌∷◌, ◌++◌,
  if◌then◌else◌, some, any_of, All, lookup, lookup-insert, arith, ◌≡◌, refl, sym, ap, ◌∙◌, inl, inr,
  Bool-cases, ==_iff, ◌⊎◌,
}
use bittice.Cdc.Gtid.{
  Interval, u64_max, saturating_succ, insert_by_start, sort_by_start, max_of, merge_from,
  merge_sorted, merge_half_open_intervals, intervals_of, increment,
}

-- A number lies in one of the intervals.
abbrev pub in_interval : ℕ → Interval → Bool
in_interval n iv = leb iv.0 n && ltb n iv.1

unfoldable pub covers : List Interval → ℕ → Bool
unfolding any_of
covers ivs n = any_of (in_interval n) ivs

-- Every interval ends before the next one starts, with a gap between them.
abbrev pub IsSeparated : List Interval → Type 0
IsSeparated [] = Unit
IsSeparated (iv ∷ []) = Unit
IsSeparated (iv ∷ next ∷ ivs) = (iv.1 < next.0) × IsSeparated (next ∷ ivs)

abbrev IsAscending : List Interval → Type 0
IsAscending [] = Unit
IsAscending (iv ∷ ivs) = All (λ x. iv.0 ≤ x.0) ivs × IsAscending ivs

covers-insert_by_start :
    (iv : Interval) (ivs : List Interval) (n : ℕ)
    → covers (insert_by_start iv ivs) n ≡ (in_interval n iv || covers ivs n)
unfolding covers any_of insert_by_start
covers-insert_by_start iv [] n = refl
covers-insert_by_start iv (x ∷ xs) n = elim (Bool-cases (leb iv.0 x.0)) [
  | inl first ↦ rw first refl
  | inr later ↦ rw later (ground (arith, covers-insert_by_start iv xs n))
]

covers-sort_by_start : (ivs : List Interval) (n : ℕ) → covers (sort_by_start ivs) n ≡ covers ivs n
unfolding covers any_of sort_by_start
covers-sort_by_start [] n = refl
covers-sort_by_start (iv ∷ ivs) n =
    covers-insert_by_start iv (sort_by_start ivs) n
    ∙ ap (λ b. in_interval n iv || b) (covers-sort_by_start ivs n)

All-le : (a b : ℕ) (ivs : List Interval) → a ≤ b → All (λ x. b ≤ x.0) ivs → All (λ x. a ≤ x.0) ivs
All-le a b [] le above = tt
All-le a b (x ∷ xs) le (h, above) = (omega (arith, le, h), All-le a b xs le above)

insert_by_start-All :
    (a : ℕ) (iv : Interval) (ivs : List Interval)
    → a ≤ iv.0
    → All (λ x. a ≤ x.0) ivs
    → All (λ x. a ≤ x.0) (insert_by_start iv ivs)
unfolding insert_by_start
insert_by_start-All a iv [] h above = (h, tt)
insert_by_start-All a iv (x ∷ xs) h (hx, above) = elim (Bool-cases (leb iv.0 x.0)) [
  | inl first ↦ rw first (h, (hx, above))
  | inr later ↦ rw later (hx, insert_by_start-All a iv xs h above)
]

insert_by_start-IsAscending :
    (iv : Interval) (ivs : List Interval) → IsAscending ivs → IsAscending (insert_by_start iv ivs)
unfolding insert_by_start
insert_by_start-IsAscending iv [] up = (tt, tt)
insert_by_start-IsAscending iv (x ∷ xs) (above, up) = elim (Bool-cases (leb iv.0 x.0)) [
  | inl first ↦
      rw first
        ((ground (arith, first), All-le iv.0 x.0 xs (ground (arith, first)) above), (above, up))
  | inr later ↦ rw later (
    insert_by_start-All x.0 iv xs (ground (arith, later)) above,
    insert_by_start-IsAscending iv xs up,
  )
]

sort_by_start-IsAscending : (ivs : List Interval) → IsAscending (sort_by_start ivs)
unfolding sort_by_start
sort_by_start-IsAscending [] = tt
sort_by_start-IsAscending (iv ∷ ivs) =
    insert_by_start-IsAscending iv (sort_by_start ivs) (sort_by_start-IsAscending ivs)

covers-merge_from :
    (cur : Interval) (ivs : List Interval) (n : ℕ)
    → All (λ x. cur.0 ≤ x.0) ivs
    → IsAscending ivs
    → covers (merge_from cur ivs) n ≡ (in_interval n cur || covers ivs n)
unfolding covers any_of merge_from
covers-merge_from cur [] n above up = refl
covers-merge_from cur (iv ∷ ivs) n (h, above) (next, up) = elim (Bool-cases (leb iv.0 cur.1)) [
  | inl touch ↦
      rw touch
        (covers-merge_from (cur.0, max_of cur.1 iv.1) ivs n above up ∙ ground (arith, touch, h))
  | inr gap ↦ rw gap (ap (λ b. in_interval n cur || b) (covers-merge_from iv ivs n next up))
]

-- What merge_from returns starts where its current interval does.
merge_from-IsSeparated :
    (cur : Interval) (ivs : List Interval) (before : Interval)
    → before.1 < cur.0
    → IsSeparated (before ∷ merge_from cur ivs)
unfolding merge_from
merge_from-IsSeparated cur [] before h = (h, tt)
merge_from-IsSeparated cur (iv ∷ ivs) before h = elim (Bool-cases (leb iv.0 cur.1)) [
  | inl touch ↦ rw touch (merge_from-IsSeparated (cur.0, max_of cur.1 iv.1) ivs before h)
  | inr gap ↦ rw gap (h, merge_from-IsSeparated iv ivs cur (ground (arith, gap)))
]

IsSeparated-tail : (iv : Interval) (ivs : List Interval) → IsSeparated (iv ∷ ivs) → IsSeparated ivs
IsSeparated-tail iv [] s = tt
IsSeparated-tail iv (x ∷ xs) s = s.1

merge_sorted-IsSeparated : (ivs : List Interval) → IsSeparated (merge_sorted ivs)
unfolding merge_from
merge_sorted-IsSeparated [] = tt
merge_sorted-IsSeparated (iv ∷ []) = tt
merge_sorted-IsSeparated (iv ∷ next ∷ ivs) = elim (Bool-cases (leb next.0 iv.1)) [
  | inl touch ↦ rw touch (merge_sorted-IsSeparated ((iv.0, max_of iv.1 next.1) ∷ ivs))
  | inr gap ↦ rw gap (merge_from-IsSeparated next ivs iv (ground (arith, gap)))
]

covers-merge_sorted :
    (ivs : List Interval) (n : ℕ) → IsAscending ivs → covers (merge_sorted ivs) n ≡ covers ivs n
unfolding covers any_of
covers-merge_sorted [] n up = refl
covers-merge_sorted (iv ∷ ivs) n (above, up) = covers-merge_from iv ivs n above up

-- For every list of intervals, in any order and overlapping or not: the merged intervals are in ascending
-- order with a gap between each two of them, and have exactly the numbers of the intervals of the list.
pub merge_half_open_intervals-IsSeparated :
    (ivs : List Interval)
    → IsSeparated (merge_half_open_intervals ivs)
      × ((n : ℕ) → covers (merge_half_open_intervals ivs) n ≡ covers ivs n)
unfolding merge_half_open_intervals
merge_half_open_intervals-IsSeparated ivs = (
  merge_sorted-IsSeparated (sort_by_start ivs),
  λ n.
      covers-merge_sorted (sort_by_start ivs) n (sort_by_start-IsAscending ivs)
      ∙ covers-sort_by_start ivs n,
)

covers-append : (xs ys : List Interval) (n : ℕ) → covers (xs ++ ys) n ≡ (covers xs n || covers ys n)
unfolding covers any_of
covers-append [] ys n = refl
covers-append (x ∷ xs) ys n = ground (arith, covers-append xs ys n)

covers-increment_nonzero :
    (sid gno s n : ℕ) (map : List (ℕ × List Interval))
    → gno < u64_max
    → (gno == 0) ≡ false
    → covers (intervals_of (lookup s (increment sid gno map))) n
      ≡ (covers (intervals_of (lookup s map)) n || ((sid == s) && (n == gno)))
unfolding increment covers any_of
covers-increment_nonzero sid gno s n map small nonzero =
    rw nonzero (
      ap (λ o. covers (intervals_of o) n) (lookup-insert sid s _ map) ∙ own (Bool-cases (sid == s)))
  where
    added : List Interval
    added = intervals_of (lookup sid map) ++ ((gno, saturating_succ gno) ∷ [])

    one : covers ((gno, saturating_succ gno) ∷ []) n ≡ (n == gno)
    one = ground (arith, small)

    own :
        ((sid == s) ≡ true) ⊎ ((sid == s) ≡ false)
        → covers
            (intervals_of
              (if sid == s then some (merge_half_open_intervals added) else lookup s map))
            n
          ≡ (covers (intervals_of (lookup s map)) n || ((sid == s) && (n == gno)))
    own (inl same) =
        rw (same, sym ((==_iff sid s).0 same))
          ((merge_half_open_intervals-IsSeparated added).1 n
            ∙ covers-append (intervals_of (lookup sid map)) ((gno, saturating_succ gno) ∷ []) n
            ∙ ap (λ b. covers (intervals_of (lookup sid map)) n || b) one)
    own (inr other) = rw other (ground arith)

-- For a transaction number below 2^64 - 1: after the increment every server has the transactions that it
-- had before, and the server of the transaction has this one as well, unless its number is 0.
pub covers-increment :
    (sid gno s n : ℕ) (map : List (ℕ × List Interval))
    → gno < u64_max
    → covers (intervals_of (lookup s (increment sid gno map))) n
      ≡ (covers (intervals_of (lookup s map)) n || (not (gno == 0) && ((sid == s) && (n == gno))))
unfolding increment covers any_of
covers-increment sid gno s n map small = elim (Bool-cases (gno == 0)) [
  | inl zero_gno ↦ rw zero_gno (ground arith)
  | inr nonzero ↦ covers-increment_nonzero sid gno s n map small nonzero ∙ rw nonzero refl
]
