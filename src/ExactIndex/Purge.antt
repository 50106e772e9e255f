-- ===== src/ExactIndex/Purge.antt =====
-- What `purge_segments` makes of the map that an index stands for.
pub mod Items
pub mod Value
use mathlib.Core.Path.{subst}
use mathlib.Core.Option.{some-injective}
use bittice.Canonical.{Text}
use bittice.Prelude.{
  any_of, ℕ, ◌≤◌, ◌<◌, ◌≡◌, refl, sym, ap, ◌∙◌, Bool, true, false, ◌⊎◌, not, ◌||◌, ◌==◌,
  if◌then◌else◌, Option, none, some, List, [], ◌∷◌, length, All, Result, ok, lookup, insert,
  lookup-insert, arith, inl, inr, Bool-cases, Option-cases, ==_refl, map,
}
use bittice.Snapshot.Codec.{Bincode}
use bittice.Snapshot.Format.{FormatError}
use bittice.Snapshot.Reader.{SnapshotReader}
use bittice.Snapshot.RoundTrip.{IsAscending}
use bittice.ExactIndex.Delta.{
  Roaring, Lru, IsLru, DeltaEntry, replace, removed, BitmapList, Bitmaps,
}
use bittice.ExactIndex.{
  ExactIndex, keep_segments, mentions, entry_for, purge_entry, purge_delta, purge_item, purge_items,
  insert_all, snapshot_items, purge_segments,
}
use bittice.ExactIndex.Update.{or_empty}
use bittice.ExactIndex.View.{view, override, IsBacked, IsValid}
use bittice.ExactIndex.Purge.Items.{
  settled, lookup-purge_delta, purge_delta-unchanged, added, purge_items-added,
  lookup-insert_all-added, override-purged,
}
use bittice.ExactIndex.Purge.Value.{purged, purged-free, is_gone}

snapshot_items-map :
    {V : Type 0} (codec : Bincode (List V)) (snap : Option SnapshotReader) (es : List (ℕ × List V))
    → IsBacked codec snap es
    → snapshot_items codec snap ≡ map ok es
snapshot_items-map codec none es backed = rw backed
snapshot_items-map codec (some snap) es backed = backed.items

-- Nothing was added and nothing replaced.
no_change :
    {B : Type 0} (gone : List ℕ) (more delta : List (ℕ × DeltaEntry (BitmapList B)))
    → (not (length more == 0) || (purge_delta gone (insert_all more delta)).1) ≡ false
    → (purge_delta gone (insert_all more delta)).0 ≡ delta
unfolding insert_all
no_change gone [] delta h = purge_delta-unchanged gone delta h
no_change gone (x ∷ more) delta h = ground arith

module _ {r : Roaring} (codec : Bincode (Bitmaps r)) {l : Lru (Bitmaps r)} (laws : IsLru l) where
  -- The outcome of `purge_segments`.
  pub record Purges (idx : ExactIndex r l) (es : List (ℕ × Bitmaps r)) (gone : List ℕ)
      (result : Result FormatError (ExactIndex r l × Bool)) : Type 0 where
    pub after : ExactIndex r l
    pub changed : Bool
    pub returns : result ≡ ok (after, changed)
    pub valid : IsValid codec after es
    pub views : (h : ℕ) → view after.delta es h ≡ purged gone (view idx.delta es h)
    pub free : (h : ℕ) → any_of (is_gone gone) (or_empty (view after.delta es h)) ≡ false
    pub unchanged : (changed ≡ true) ⊎ (after.delta ≡ idx.delta)

  -- With a lawful cache, on a valid index whose snapshot is in ascending hash order, `purge_segments`
  -- succeeds, takes the purged segments out of every value so that none of them is left, takes away the
  -- values that this leaves empty, keeps all else, and reports `false` only if it has not touched the
  -- delta.
  pub purge_segments-Purges :
      (idx : ExactIndex r l) (es : List (ℕ × Bitmaps r)) (gone : List ℕ)
      → IsValid codec idx es
      → IsAscending es
      → (t : Text) → Purges idx es gone (purge_segments t codec idx gone)
  unfolding purge_segments
  purge_segments-Purges idx es gone v up t = rw items (record {
    after = record idx {
      delta = purge.0;
      cache = if changed then l.clear idx.cache else idx.cache;
    };
    changed = changed;
    returns = refl;
    valid = record { backed = v.backed; coherent = coherent };
    views = views;
    free = λ h. none_left h (Option-cases (view purge.0 es h));
    unchanged = elim (Bool-cases changed) [
      | inl done ↦ inl done
      | inr idle ↦ inr (no_change gone more idx.delta idle)
    ];
  })
    where
      more : List (ℕ × DeltaEntry (Bitmaps r))
      more = added gone idx.delta es

      items : purge_items gone idx.delta (snapshot_items codec idx.snapshot) ≡ ok more
      items =
          ap (purge_items gone idx.delta) (snapshot_items-map codec idx.snapshot es v.backed)
          ∙ purge_items-added gone idx.delta es

      purge : List (ℕ × DeltaEntry (Bitmaps r)) × Bool
      purge = purge_delta gone (insert_all more idx.delta)

      views : (h : ℕ) → view purge.0 es h ≡ purged gone (view idx.delta es h)
      views h =
          ap (λ o. override o (lookup h es))
            (lookup-purge_delta gone h (insert_all more idx.delta)
              ∙ ap (settled gone) (lookup-insert_all-added gone h idx.delta idx.delta es up refl))
          ∙ override-purged gone h (lookup h idx.delta) (lookup h es)

      changed : Bool
      changed = not (length more == 0) || purge.1

      none_left :
          (h : ℕ)
          → (view purge.0 es h ≡ none) ⊎ ((bs : Bitmaps r) × (view purge.0 es h ≡ some bs))
          → any_of (is_gone gone) (or_empty (view purge.0 es h)) ≡ false
      none_left h (inl gone_now) = rw gone_now (unfold any_of in refl)
      none_left h (inr (bs, left)) =
          rw left (purged-free gone (view idx.delta es h) bs (sym (views h) ∙ left))

      coherent :
          (h : ℕ) (w : Bitmaps r)
          → lookup h purge.0 ≡ none
          → (l.get h (if changed then l.clear idx.cache else idx.cache)).0 ≡ some w
          → lookup h es ≡ some w
      coherent h w fresh hit = elim (Bool-cases changed) [
        | inl more_done ↦ absurd (cleared (rw more_done at hit))
        | inr idle ↦
            v.coherent h w
              (subst (λ d. lookup h d ≡ none) (no_change gone more idx.delta idle) fresh)
              (rw idle at hit)
      ]
        where
          cleared : (l.get h (l.clear idx.cache)).0 ≡ some w → ⊥
          cleared e = cc (laws.get-clear h idx.cache)
