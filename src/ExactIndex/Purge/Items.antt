-- ===== src/ExactIndex/Purge/Items.antt =====
-- What `purge_segments` makes of the delta, and what it takes from the snapshot
-- (src/core/storage/exact_index.rs).
use mathlib.Core.Path.{subst}
use bittice.Prelude.{
  ℕ, ◌<◌, ◌≡◌, refl, sym, ◌∙◌, false, ◌==◌, if◌then◌else◌, Option, none, some, List, [], ◌∷◌, All,
  ok, lookup, insert, lookup-insert, arith, inl, inr, Bool-cases, Option-cases, ==_refl, map,
}
use bittice.Snapshot.RoundTrip.{IsAscending}
use bittice.ExactIndex.Delta.{DeltaEntry, replace, removed, BitmapList}
use bittice.ExactIndex.{
  keep_segments, mentions, entry_for, purge_entry, purge_delta, purge_item, purge_items, insert_all,
}
use bittice.ExactIndex.View.{override}
use bittice.ExactIndex.Purge.Value.{
  some_unless_empty, purged, kept_of, same_length, mentions-keep_segments, kept_of-purged,
}

module _ {B : Type 0} (gone : List ℕ) where
  -- What the second loop leaves in the place of an entry.
  abbrev settle :
      DeltaEntry (BitmapList B) → Option (DeltaEntry (BitmapList B)) → DeltaEntry (BitmapList B)
  settle e none = e
  settle e (some e') = e'

  abbrev pub settled : Option (DeltaEntry (BitmapList B)) → Option (DeltaEntry (BitmapList B))
  settled none = none
  settled (some e) = some (settle e (purge_entry gone e))

  -- The second loop purges the view of each entry, and the flag tells whether one was replaced.
  override-settle :
      (e : DeltaEntry (BitmapList B)) (below : Option (BitmapList B))
      → override (some (settle e (purge_entry gone e))) below
        ≡ kept_of gone (override (some e) below)
  unfolding purge_entry
  override-settle removed below = refl
  override-settle (replace bs) below = ground (arith, same_length gone bs)

  pub lookup-purge_delta :
      (h : ℕ) (delta : List (ℕ × DeltaEntry (BitmapList B)))
      → lookup h (purge_delta gone delta).0 ≡ settled (lookup h delta)
  unfolding lookup purge_delta
  lookup-purge_delta h [] = refl
  lookup-purge_delta h ((k, e) ∷ delta) = ground (arith, lookup-purge_delta h delta)

  pub purge_delta-unchanged :
      (delta : List (ℕ × DeltaEntry (BitmapList B)))
      → (purge_delta gone delta).1 ≡ false
      → (purge_delta gone delta).0 ≡ delta
  unfolding purge_delta
  purge_delta-unchanged [] h = refl
  purge_delta-unchanged ((k, e) ∷ delta) h = ground (arith, purge_delta-unchanged delta)

  -- What the first loop adds for the pairs of the snapshot.
  abbrev pub added :
      List (ℕ × DeltaEntry (BitmapList B))
      → List (ℕ × BitmapList B)
      → List (ℕ × DeltaEntry (BitmapList B))
  added delta [] = []
  added delta ((h, bs) ∷ es) = purge_item gone h bs (lookup h delta) (added delta es)

  pub purge_items-added :
      (delta : List (ℕ × DeltaEntry (BitmapList B))) (es : List (ℕ × BitmapList B))
      → purge_items gone delta (map ok es) ≡ ok (added delta es)
  unfolding purge_items
  purge_items-added delta [] = refl
  purge_items-added delta ((h, bs) ∷ es) = rw (purge_items-added delta es)

  purge_item-above :
      (k h : ℕ) (bs : BitmapList B) (o : Option (DeltaEntry (BitmapList B)))
      (rest : List (ℕ × DeltaEntry (BitmapList B)))
      → k < h
      → All (λ y. k < y.0) rest
      → All (λ y. k < y.0) (purge_item gone h bs o rest)
  unfolding purge_item
  purge_item-above k h bs (some e) rest lt a = a
  purge_item-above k h bs none rest lt a = elim (Bool-cases (mentions gone bs)) [
    | inl hit ↦ rw hit (lt, a)
    | inr miss ↦ rw miss a
  ]

  added-above :
      (k : ℕ) (delta : List (ℕ × DeltaEntry (BitmapList B))) (es : List (ℕ × BitmapList B))
      → All (λ y. k < y.0) es
      → All (λ y. k < y.0) (added delta es)
  added-above k delta [] a = tt
  added-above k delta ((h, bs) ∷ es) a =
      purge_item-above k h bs (lookup h delta) (added delta es) a.0 (added-above k delta es a.1)

  -- What a hash has after the additions: a purged copy of its snapshot value if the value mentions a
  -- purged segment and the delta has no entry.
  abbrev add_for :
      ℕ
      → Option (DeltaEntry (BitmapList B))
      → Option (BitmapList B)
      → Option (DeltaEntry (BitmapList B))
  add_for h (some e) below = some e
  add_for h none none = none
  add_for h none (some bs) =
      if mentions gone bs then some (entry_for (keep_segments gone bs)) else none

  -- A hash below all the additions keeps what it has.
  lookup-insert_all_skip :
      (h : ℕ) (items m : List (ℕ × DeltaEntry (BitmapList B)))
      → All (λ y. h < y.0) items
      → lookup h (insert_all items m) ≡ lookup h m
  unfolding insert_all
  lookup-insert_all_skip h [] m a = refl
  lookup-insert_all_skip h ((k, v) ∷ items) m a =
      lookup-insert_all_skip h items (insert k v m) a.1 ∙ ground (arith, lookup-insert k h v m, a.0)

  lookup-above : (h : ℕ) (es : List (ℕ × BitmapList B)) → All (λ y. h < y.0) es → lookup h es ≡ none
  unfolding lookup
  lookup-above h [] a = refl
  lookup-above h ((k, v) ∷ es) a = ground (arith, lookup-above h es a.1, a.0)

  add_for-none : (h : ℕ) (o : Option (DeltaEntry (BitmapList B))) → o ≡ add_for h o none
  add_for-none h none = refl
  add_for-none h (some e) = refl

  -- the hash of the first pair, which the later pairs leave alone
  lookup_head :
      (k : ℕ) (bs : BitmapList B) (delta m : List (ℕ × DeltaEntry (BitmapList B)))
      (es : List (ℕ × BitmapList B))
      → All (λ y. k < y.0) es
      → lookup k m ≡ lookup k delta
      → lookup k (insert_all (purge_item gone k bs (lookup k delta) (added delta es)) m)
        ≡ add_for k (lookup k delta) (some bs)
  unfolding purge_item insert_all
  lookup_head k bs delta m es up same = elim (Option-cases (lookup k delta)) [
    | inr (e, old) ↦ rw old (skip m ∙ same ∙ old)
    | inl fresh ↦ elim (Bool-cases (mentions gone bs)) [
      | inl found ↦
          rw (fresh, found)
            (skip (insert k (entry_for (keep_segments gone bs)) m)
              ∙ rw lookup-insert (rw (==_refl k)))
      | inr free ↦ rw (fresh, free) (skip m ∙ same ∙ fresh)
    ]
  ]
    where
      skip :
          (n : List (ℕ × DeltaEntry (BitmapList B)))
          → lookup k (insert_all (added delta es) n) ≡ lookup k n
      skip n = lookup-insert_all_skip k (added delta es) n (added-above k delta es up)

  pub lookup-insert_all-added :
      (h : ℕ) (delta m : List (ℕ × DeltaEntry (BitmapList B))) (es : List (ℕ × BitmapList B))
      → IsAscending es
      → lookup h m ≡ lookup h delta
      → lookup h (insert_all (added delta es) m) ≡ add_for h (lookup h delta) (lookup h es)
  unfolding lookup purge_item insert_all
  lookup-insert_all-added h delta m [] up same = same ∙ add_for-none h (lookup h delta)
  lookup-insert_all-added h delta m ((k, bs) ∷ es) up same = elim (Bool-cases (k == h)) [
    | inl hit ↦
        let e : k ≡ h = ground arith in
        rw (← e) (
          rw (==_refl k) (
            lookup_head k bs delta m es up.0
              (subst (λ n. lookup n m ≡ lookup n delta) (sym e) same)))
    | inr miss ↦ elim (Option-cases (lookup k delta)) [
      | inl fresh ↦ elim (Bool-cases (mentions gone bs)) [
        | inl found ↦
            rw (fresh, found, miss)
              (lookup-insert_all-added h delta (insert k (entry_for (keep_segments gone bs)) m) es
                up.1 (rw lookup-insert (rw miss same)))
        | inr free ↦ rw (fresh, free, miss) (lookup-insert_all-added h delta m es up.1 same)
      ]
      | inr (e, old) ↦ rw (old, miss) (lookup-insert_all-added h delta m es up.1 same)
    ]
  ]

  kept_of-entry_for :
      (ks : BitmapList B) (below : Option (BitmapList B))
      → mentions gone ks ≡ false
      → kept_of gone (override (some (entry_for ks)) below) ≡ some_unless_empty ks
  unfolding entry_for
  kept_of-entry_for [] below free = refl
  kept_of-entry_for (x ∷ ks) below free = rw free

  -- The additions and then the second loop purge the view.
  override-settled :
      (h : ℕ) (o : Option (DeltaEntry (BitmapList B))) (below : Option (BitmapList B))
      → override (settled (add_for h o below)) below ≡ kept_of gone (override o below)
  override-settled h (some e) below = override-settle e below
  override-settled h none none = refl
  override-settled h none (some bs) = elim (Bool-cases (mentions gone bs)) [
    | inr free ↦ rw free
    | inl found ↦ rw found (
        override-settle (entry_for (keep_segments gone bs)) (some bs)
        ∙ kept_of-entry_for (keep_segments gone bs) (some bs) (mentions-keep_segments gone bs))
  ]

  pub override-purged :
      (h : ℕ) (o : Option (DeltaEntry (BitmapList B))) (below : Option (BitmapList B))
      → override (settled (add_for h o below)) below ≡ purged gone (override o below)
  override-purged h o below = override-settled h o below ∙ kept_of-purged gone (override o below)
