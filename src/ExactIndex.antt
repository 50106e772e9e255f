-- ===== src/ExactIndex.antt =====
-- The exact-match index of one field (src/core/storage/exact_index.rs): a snapshot file, the changes
-- since it was written, and a cache of what was read from it. A call that logs a snapshot error and
-- goes on is modelled without the log line; a panic of the reader unwinds through its callers.
pub mod Delta
pub mod View
pub mod Update
pub mod Purge
pub mod Save
pub mod Merge
pub mod Saved
use bittice.Prelude.{
  Str, ℕ, zero, suc, ◌+◌, ◌-◌, ◌≡◌, Bool, true, false, not, ◌&&◌, ◌||◌, ◌==◌, if◌then◌else◌, Option,
  none, some, List, [], ◌∷◌, ◌++◌, Result, ok, err, panic, ◌>>=◌, length, lookup, insert, map,
}
use bittice.Canonical.{Text, hash}
use bittice.Snapshot.Codec.{Bincode}
use bittice.Snapshot.Format.{FormatError}
use bittice.Snapshot.Reader.{SnapshotReader, iter_entries}
use bittice.Snapshot.Reader
use bittice.ExactIndex.Delta.{
  Roaring, Lru, DeltaEntry, replace, removed, BitmapList, Bitmaps, merge_bitmap,
}

pub record ExactIndex (r : Roaring) (l : Lru (Bitmaps r)) : Type 0 where
  pub snapshot : Option SnapshotReader
  pub path : Option Str
  pub delta : List (ℕ × DeltaEntry (Bitmaps r))
  pub cache : l.Cache

-- `HashSet::contains` on segment ids.
abbrev pub contains : List ℕ → ℕ → Bool
contains [] x = false
contains (y ∷ ys) x = (y == x) || contains ys x

module _ {r : Roaring} (l : Lru (Bitmaps r)) where
  unfoldable pub new : ExactIndex r l
  new = record { snapshot = none; path = none; delta = []; cache = l.new }

-- `bitmaps.into_iter().filter(|(seg_id, _)| !removed_seg_ids.contains(seg_id))`
unfoldable pub keep_segments : {B : Type 0} → List ℕ → BitmapList B → BitmapList B
keep_segments gone [] = []
keep_segments gone ((s, b) ∷ bs) =
    let rest = keep_segments gone bs in if contains gone s then rest else (s, b) ∷ rest

-- `bitmaps.iter().any(|(seg_id, _)| removed_seg_ids.contains(seg_id))`
unfoldable pub mentions : {B : Type 0} → List ℕ → BitmapList B → Bool
mentions gone [] = false
mentions gone ((s, b) ∷ bs) = contains gone s || mentions gone bs

-- `if filtered.is_empty() { Removed } else { Replace(filtered) }`
unfoldable pub entry_for : {B : Type 0} → BitmapList B → DeltaEntry (BitmapList B)
entry_for [] = removed
entry_for (x ∷ bs) = replace (x ∷ bs)

-- The second loop of `purge_segments`, on one entry: what replaces it, if anything does.
unfoldable pub purge_entry :
    {B : Type 0} → List ℕ → DeltaEntry (BitmapList B) → Option (DeltaEntry (BitmapList B))
unfolding keep_segments entry_for
purge_entry gone removed = none
purge_entry gone (replace bs) =
    let filtered = keep_segments gone bs in
    if length filtered == length bs then none else some (entry_for filtered)

abbrev pub replace_entry :
    {V : Type 0} → ℕ → V → Option V → List (ℕ × V) → Bool → List (ℕ × V) × Bool
replace_entry h e none rest changed = ((h, e) ∷ rest, changed)
replace_entry h e (some e') rest changed = ((h, e') ∷ rest, true)

-- The second loop: each entry of the delta is replaced in place; the flag says whether one was.
unfoldable pub purge_delta :
    {B : Type 0}
    → List ℕ
    → List (ℕ × DeltaEntry (BitmapList B))
    → List (ℕ × DeltaEntry (BitmapList B)) × Bool
purge_delta gone [] = ([], false)
purge_delta gone ((h, e) ∷ rest) =
    let (rest', changed) = purge_delta gone rest in
    replace_entry h e (purge_entry gone e) rest' changed

-- One round of the first loop: a hash that the delta has, and a value that mentions none of the
-- segments, are passed over.
unfoldable pub purge_item :
    {B : Type 0}
    → List ℕ
    → ℕ
    → BitmapList B
    → Option (DeltaEntry (BitmapList B))
    → List (ℕ × DeltaEntry (BitmapList B))
    → List (ℕ × DeltaEntry (BitmapList B))
unfolding keep_segments mentions entry_for
purge_item gone h bs (some _) rest = rest
purge_item gone h bs none rest =
    if mentions gone bs then (h, entry_for (keep_segments gone bs)) ∷ rest else rest

-- The first loop of `purge_segments`: what the snapshot's items add to the delta.
unfoldable pub purge_items :
    {B : Type 0}
    → List ℕ
    → List (ℕ × DeltaEntry (BitmapList B))
    → List (Result FormatError (ℕ × BitmapList B))
    → Result FormatError (List (ℕ × DeltaEntry (BitmapList B)))
purge_items gone delta [] = ok []
purge_items gone delta (panic ∷ items) = panic
purge_items gone delta (err e ∷ items) = purge_items gone delta items
purge_items gone delta (ok (h, bs) ∷ items) = do
  rest ← purge_items gone delta items
  ok (purge_item gone h bs (lookup h delta) rest)

-- `for (hash, entry) in to_apply { self.delta.insert(hash, entry) }`
unfoldable pub insert_all : {V : Type 0} → List (ℕ × V) → List (ℕ × V) → List (ℕ × V)
insert_all [] m = m
insert_all ((h, v) ∷ items) m = insert_all items (insert h v m)

-- `.ok().flatten().unwrap_or_default()`
unfoldable pub ok_flatten_or_default :
    {V : Type 0} → Result FormatError (Option (List V)) → Result FormatError (List V)
ok_flatten_or_default (ok none) = ok []
ok_flatten_or_default (ok (some bitmaps)) = ok bitmaps
ok_flatten_or_default (err e) = ok []
ok_flatten_or_default panic = panic

module _ {V : Type 0} (codec : Bincode (List V)) where
  -- `snapshot.as_ref().and_then(|s| s.get(hash).ok().flatten()).unwrap_or_default()`
  unfoldable pub snapshot_or_default : Option SnapshotReader → ℕ → Result FormatError (List V)
  unfolding ok_flatten_or_default
  snapshot_or_default none h = ok []
  snapshot_or_default (some snap) h = ok_flatten_or_default (Reader.get codec snap h)

  -- The items of the snapshot, none if there is no snapshot.
  abbrev pub snapshot_items : Option SnapshotReader → List (Result FormatError (ℕ × List V))
  snapshot_items none = []
  snapshot_items (some snap) = iter_entries codec snap

-- `self.delta.values().all(|e| matches!(e, Removed))`
unfoldable pub all_removed : {V : Type 0} → List (ℕ × DeltaEntry V) → Bool
all_removed [] = true
all_removed ((h, replace bs) ∷ rest) = false
all_removed ((h, removed) ∷ rest) = all_removed rest

module _ (t : Text) {r : Roaring} (codec : Bincode (Bitmaps r)) {l : Lru (Bitmaps r)} where
  -- The `match` on the answer of the snapshot: a hit fills the cache.
  unfoldable pub remember :
      ExactIndex r l
      → ℕ
      → Result FormatError (Option (Bitmaps r))
      → Result FormatError (Option (Bitmaps r) × ExactIndex r l)
  remember idx h (ok none) = ok (none, idx)
  remember idx h (ok (some bitmaps)) =
      ok (some bitmaps, record idx { cache = l.put h bitmaps idx.cache })
  remember idx h (err e) = ok (none, idx)
  remember idx h panic = panic

  -- A lookup in the snapshot file.
  unfoldable pub get_snapshot :
      ExactIndex r l
      → ℕ
      → Option SnapshotReader
      → Result FormatError (Option (Bitmaps r) × ExactIndex r l)
  unfolding remember
  get_snapshot idx h none = ok (none, idx)
  get_snapshot idx h (some snap) = remember idx h (Reader.get codec snap h)

  unfoldable pub get_cached :
      ExactIndex r l
      → ℕ
      → Option (Bitmaps r) × l.Cache
      → Result FormatError (Option (Bitmaps r) × ExactIndex r l)
  get_cached idx h (some bitmaps, cache) = ok (some bitmaps, record idx { cache = cache })
  get_cached idx h (none, cache) = get_snapshot (record idx { cache = cache }) h idx.snapshot

  unfoldable pub get_delta :
      ExactIndex r l
      → ℕ
      → Option (DeltaEntry (Bitmaps r))
      → Result FormatError (Option (Bitmaps r) × ExactIndex r l)
  get_delta idx h (some (replace bitmaps)) = ok (some bitmaps, idx)
  get_delta idx h (some removed) = ok (none, idx)
  get_delta idx h none = get_cached idx h (l.get h idx.cache)

  -- `ExactIndex::get`: the delta first, then the cache, then the snapshot.
  unfoldable pub get :
      ExactIndex r l → Str → Result FormatError (Option (Bitmaps r) × ExactIndex r l)
  get idx value = let h = hash t value in get_delta idx h (lookup h idx.delta)

  -- `ExactIndex::insert`, and what `merge_segment` does with a merged list.
  unfoldable pub put_value : ExactIndex r l → ℕ → Bitmaps r → ExactIndex r l
  put_value idx h bitmaps = record idx {
    delta = insert h (replace bitmaps) idx.delta;
    cache = l.pop h idx.cache;
  }

  unfoldable pub current_bitmaps :
      ExactIndex r l → ℕ → Option (DeltaEntry (Bitmaps r)) → Result FormatError (Bitmaps r)
  current_bitmaps idx h (some (replace bitmaps)) = ok bitmaps
  current_bitmaps idx h (some removed) = ok []
  current_bitmaps idx h none = snapshot_or_default codec idx.snapshot h

  -- `ExactIndex::merge_segment`, over the values of the segment in any order.
  unfoldable pub merge_segment :
      ExactIndex r l → ℕ → List (Str × r.Bitmap) → Result FormatError (ExactIndex r l)
  merge_segment idx seg_id [] = ok idx
  merge_segment idx seg_id ((value, bitmap) ∷ rest) = do
    current ← current_bitmaps idx (hash t value) (lookup (hash t value) idx.delta)
    merge_segment (put_value idx (hash t value) (merge_bitmap r seg_id bitmap current)) seg_id rest

  -- `ExactIndex::purge_segments`.
  unfoldable pub purge_segments :
      ExactIndex r l → List ℕ → Result FormatError (ExactIndex r l × Bool)
  purge_segments idx gone = do
    to_apply ← purge_items gone idx.delta (snapshot_items codec idx.snapshot)
    let first = not (length to_apply == 0)
    let (delta, second) = purge_delta gone (insert_all to_apply idx.delta)
    let changed = first || second
    let cache = if changed then l.clear idx.cache else idx.cache
    ok (record idx { delta = delta; cache = cache }, changed)

-- `ExactIndex::is_empty`.
unfoldable pub is_empty : {r : Roaring} {l : Lru (Bitmaps r)} → ExactIndex r l → Bool
unfolding all_removed
is_empty idx =
    all_removed idx.delta && elim idx.snapshot [ none ↦ true | some snap ↦ snap.num_entries == 0 ]
