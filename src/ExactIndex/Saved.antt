-- ===== src/ExactIndex/Saved.antt =====
-- Saving an exact index keeps the map that it stands for.
use mathlib.Core.Path.{subst}
use bittice.Prelude.{
  Str, bytes_eq_refl, ℕ, ◌≡◌, refl, sym, ap, ◌∙◌, Option, none, some, List, [], ◌∷◌, Result, ok,
  lookup, map,
}
use bittice.Snapshot.Codec.{Bincode, IsLawful}
use bittice.Snapshot.Format.{FormatError}
use bittice.Snapshot.Reader.{SnapshotReader}
use bittice.Snapshot.Layout.{Serializes, Fits}
use bittice.Snapshot.RoundTrip.{IsAscending, write-open-Shows}
use bittice.ExactIndex.{ExactIndex}
use bittice.ExactIndex.Delta.{Roaring, Lru, IsLru, DeltaEntry, Bitmaps}
use bittice.ExactIndex.Save.{
  Disk, write_file, all_items, saved_entries, write_and_reopen, merged_entries, sort_by_key,
  replaced,
}
use bittice.ExactIndex.View.{view, override, IsBacked, IsValid}
use bittice.ExactIndex.Merge.{
  IsDistinct, lookup-sort_by_key, sort_by_key-IsAscending, merged_entries-IsAscending,
  lookup-merged_entries, replaced-IsDistinct, lookup-replaced,
}

all_items-map : {A : Type 0} (xs : List A) → all_items (map ok xs) ≡ ok xs
unfolding all_items
all_items-map [] = refl
all_items-map (x ∷ xs) = rw (all_items-map xs)

module _ {V : Type 0} (codec : Bincode V) (delta : List (ℕ × DeltaEntry V)) (es : List (ℕ × V))
    (distinct : IsDistinct delta) (ascending : IsAscending es) where
  -- For a delta that has no hash twice over an ascending snapshot, or over none, the pairs that `save`
  -- writes can be read, ascend, and give every hash what the index stands for.
  pub saved_entries-view :
      (snap : Option SnapshotReader)
      → IsBacked codec snap es
      → (entries : List (ℕ × V)) × (saved_entries codec snap delta ≡ ok entries)
        × IsAscending entries
        × ((h : ℕ) → lookup h entries ≡ view delta es h)
  unfolding saved_entries
  saved_entries-view (some snap) backed = (
    merged_entries es (sort_by_key delta),
    rw (backed.items, all_items-map es),
    merged_entries-IsAscending es (sort_by_key delta) ascending
        (sort_by_key-IsAscending delta distinct),
    λ h.
        lookup-merged_entries h es (sort_by_key delta) ascending
          (sort_by_key-IsAscending delta distinct)
        ∙ ap (λ o. override o (lookup h es)) (lookup-sort_by_key h delta),
  )
  saved_entries-view none backed = (
    sort_by_key (replaced delta),
    refl,
    sort_by_key-IsAscending (replaced delta) (replaced-IsDistinct delta distinct),
    λ h.
        lookup-sort_by_key h (replaced delta)
        ∙ lookup-replaced h delta distinct
        ∙ ap (override (lookup h delta)) (sym (ap (lookup h) backed ∙ unfold lookup in refl)),
  )

  -- So do the pairs of any successful call.
  entries_view :
      (snap : Option SnapshotReader) (entries : List (ℕ × V))
      → IsBacked codec snap es
      → saved_entries codec snap delta ≡ ok entries
      → IsAscending entries × ((h : ℕ) → lookup h entries ≡ view delta es h)
  entries_view snap entries backed pairs =
      let (found, eq, up, views) = saved_entries-view snap backed in
      let same : found ≡ entries = cc (eq, pairs) in
      (subst IsAscending same up, λ h. ap (lookup h) (sym same) ∙ views h)

module _ {r : Roaring} (codec : Bincode (Bitmaps r)) {l : Lru (Bitmaps r)} (laws : IsLru l)
    (lawful : IsLawful codec) where
  -- The outcome of writing an index to a file and opening the file.
  pub record Saves (idx : ExactIndex r l) (es entries : List (ℕ × Bitmaps r)) (target : Str)
      (disk : Disk) (result : Result FormatError (ExactIndex r l × Disk)) : Type 0 where
    pub after : ExactIndex r l
    pub disk_after : Disk
    pub file : List ℕ
    pub returns : result ≡ ok (after, disk_after)
    pub written : disk_after target ≡ some file
    pub clean : after.delta ≡ []
    pub path : after.path ≡ some target
    pub valid : IsValid codec after entries
    pub views : (h : ℕ) → view after.delta entries h ≡ view idx.delta es h

  -- With a lawful codec and cache, writing a valid index over an ascending snapshot, whose delta has no
  -- hash twice, to a file and reopening it, where the pairs to be written serialize and fit the format,
  -- succeeds, leaves no pending change, and keeps what every hash stands for.
  pub write_and_reopen-Saves :
      (idx : ExactIndex r l) (es entries : List (ℕ × Bitmaps r)) (bs : List (List ℕ)) (target : Str)
      (disk : Disk)
      → IsValid codec idx es
      → IsAscending es
      → IsDistinct idx.delta
      → saved_entries codec idx.snapshot idx.delta ≡ ok entries
      → Serializes codec entries bs
      → Fits entries bs
      → Saves idx es entries target disk (write_and_reopen codec idx target disk)
  unfolding write_and_reopen
  write_and_reopen-Saves idx es entries bs target disk v up distinct pairs s fits =
      let (ascending, views) =
        entries_view codec idx.delta es distinct up idx.snapshot entries v.backed pairs in
      let (file, warnings, writes, snap, opens, shows) =
        write-open-Shows codec lawful entries bs s fits ascending in
      record {
        after = record {
          snapshot = some snap;
          path = some target;
          delta = [];
          cache = l.clear idx.cache;
        };
        disk_after = write_file disk target file;
        file = file;
        returns = rw (pairs, writes, opens);
        written = rw (bytes_eq_refl target);
        clean = refl;
        path = refl;
        valid = record { backed = shows; coherent = λ h w fresh hit. absurd (cleared h w hit) };
        views = λ h. (unfold lookup in views h);
      }
    where
      cleared : (h : ℕ) (w : Bitmaps r) → (l.get h (l.clear idx.cache)).0 ≡ some w → ⊥
      cleared h w e = cc (laws.get-clear h idx.cache)
