-- ===== src/ExactIndex/Save.antt =====
-- Writing an exact index to its file (`save` and `merge_streams` of src/core/storage/exact_index.rs).
use bittice.Prelude.{
  Str, bytes_eq, ℕ, Bool, true, false, ◌&&◌, ◌==◌, if◌then◌else◌, Option, none, some, List, [], ◌∷◌,
  Result, ok, err, panic, ◌>>=◌, length, leb, ltb, map_err,
}
use bittice.Snapshot.Codec.{Bincode}
use bittice.Snapshot.Format.{FormatError}
use bittice.Snapshot.Writer.{write_exact_index_v3}
use bittice.Snapshot.Reader.{SnapshotReader, iter_entries, open_snapshot}
use bittice.ExactIndex.Delta.{Roaring, Lru, DeltaEntry, replace, removed, Bitmaps}
use bittice.ExactIndex.{ExactIndex}

-- `sort_unstable_by_key(|(h, _)| *h)`, on keys that differ.
unfoldable pub insert_sorted : {V : Type 0} → ℕ → V → List (ℕ × V) → List (ℕ × V)
insert_sorted k v [] = (k, v) ∷ []
insert_sorted k v ((j, w) ∷ rest) =
    if leb k j then (k, v) ∷ (j, w) ∷ rest else (j, w) ∷ insert_sorted k v rest

unfoldable pub sort_by_key : {V : Type 0} → List (ℕ × V) → List (ℕ × V)
unfolding insert_sorted
sort_by_key [] = []
sort_by_key ((k, v) ∷ rest) = insert_sorted k v (sort_by_key rest)

-- What `MergedEntriesIter::take_delta` yields for an entry: a removed one is passed over.
unfoldable pub take_delta : {V : Type 0} → ℕ → DeltaEntry V → List (ℕ × V) → List (ℕ × V)
take_delta h (replace v) rest = (h, v) ∷ rest
take_delta h removed rest = rest

-- The items that repeated calls of `MergedEntriesIter::next` yield, for the snapshot's items and the
-- sorted delta: the smaller hash first, and the delta's entry where both have the hash.
unfoldable pub merged_entries : {V : Type 0} → List (ℕ × V) → List (ℕ × DeltaEntry V) → List (ℕ × V)
unfolding take_delta
merged_entries [] [] = []
merged_entries ((sh, v) ∷ snap) [] = (sh, v) ∷ merged_entries snap []
merged_entries [] ((dh, e) ∷ delta) = take_delta dh e (merged_entries [] delta)
merged_entries ((sh, v) ∷ snap) ((dh, e) ∷ delta) =
    let snap_first = (sh, v) ∷ merged_entries snap ((dh, e) ∷ delta) in
    let delta_first = take_delta dh e (merged_entries ((sh, v) ∷ snap) delta) in
    let both = take_delta dh e (merged_entries snap delta) in
    if ltb sh dh then snap_first else if ltb dh sh then delta_first else both

-- `for result in &snap_vec { if let Err(e) = result { return Err } }`, and the items if all
-- are there. All are read, and a panic unwinds, before the first error is looked for.
unfoldable pub all_items : {A : Type 0} → List (Result FormatError A) → Result FormatError (List A)
all_items [] = ok []
all_items (ok x ∷ items) = do rest ← all_items items; ok (x ∷ rest)
all_items (err e ∷ items) = elim (all_items items) [ panic ↦ panic | _ ↦ err e ]
all_items (panic ∷ items) = panic

-- `delta.drain().filter_map(..)`: the values that are not removed.
unfoldable pub replaced : {V : Type 0} → List (ℕ × DeltaEntry V) → List (ℕ × V)
replaced [] = []
replaced ((h, replace v) ∷ rest) = (h, v) ∷ replaced rest
replaced ((h, removed) ∷ rest) = replaced rest

-- Why `save` fails. A panic is the reader's.
pub data SaveError : Type 0 where
  no_path : SaveError
  format : FormatError → SaveError

-- The files of the index directory: the bytes under each path.
abbrev pub Disk : Type 0
Disk = Str → Option (List ℕ)

abbrev pub write_file : Disk → Str → List ℕ → Disk
write_file disk path bytes q = if bytes_eq q path then some bytes else disk q

module _ {V : Type 0} (codec : Bincode V) where
  -- The pairs that `save` writes: the merge with the snapshot, or the sorted delta alone.
  unfoldable pub saved_entries :
      Option SnapshotReader → List (ℕ × DeltaEntry V) → Result FormatError (List (ℕ × V))
  saved_entries (some snap) delta = do
    items ← all_items (iter_entries codec snap)
    ok (merged_entries items (sort_by_key delta))
  saved_entries none delta = ok (sort_by_key (replaced delta))

module _ {r : Roaring} (codec : Bincode (Bitmaps r)) {l : Lru (Bitmaps r)} where
  -- `save` past its early return: write the file, drop the state, and open what was written.
  unfoldable pub write_and_reopen :
      ExactIndex r l → Str → Disk → Result FormatError (ExactIndex r l × Disk)
  write_and_reopen idx target disk = do
    entries ← saved_entries codec idx.snapshot idx.delta
    (file, warnings) ← write_exact_index_v3 codec entries
    snap ← open_snapshot file
    let after : ExactIndex r l = record {
      snapshot = some snap;
      path = some target;
      delta = [];
      cache = l.clear idx.cache;
    }
    ok (after, write_file disk target file)

  unfoldable pub nothing_to_save : ExactIndex r l → Bool
  nothing_to_save idx =
      (length idx.delta == 0) && elim idx.snapshot [ none ↦ false | some _ ↦ true ]

  unfoldable pub save_to :
      ExactIndex r l → Option Str → Disk → Result SaveError (ExactIndex r l × Disk)
  unfolding nothing_to_save
  save_to idx none disk = err no_path
  save_to idx (some target) disk =
      if nothing_to_save idx
      then ok (idx, disk)
      else map_err format (write_and_reopen idx target disk)

  -- `ExactIndex::save`: to the path that is given, or to the index's own.
  unfoldable pub save :
      ExactIndex r l → Option Str → Disk → Result SaveError (ExactIndex r l × Disk)
  unfolding save_to
  save idx none disk = save_to idx idx.path disk
  save idx (some path) disk = save_to idx (some path) disk
