-- ===== src/Snapshot/Reader.antt =====
-- The reader (src/core/storage/exact_index_v3/reader.rs). A mapped file is its list of bytes.
-- `usize` is 64 bits wide, and sums wrap as in the release build.
use bittice.Prelude.{
  ℕ, zero, suc, ◌+◌, ◌-◌, ◌*◌, ◌/◌, ◌%◌, Option, none, some, List, [], ◌∷◌, ltb, ◌==◌,
  if◌then◌else◌, length, take, slice, Result, ok, err, panic, ok_or, ◌>>=◌,
}
use Prim.Native.Nat.{compare, Ordering}
use bittice.Bytes.{u64_mod}
use bittice.Snapshot.Codec.{Bincode}
use bittice.Snapshot.Format.{
  IndexEntry, FormatError, too_short, invalid_num_entries, bincode_error, checked_mul, checked_add,
  parse_header, parse_entry, header_size, index_entry_size,
}

pub record SnapshotReader : Type 0 where
  pub mmap : List ℕ
  pub num_entries : ℕ
  pub bitmaps_section_offset : ℕ
  pub index_section_offset : ℕ

-- `SnapshotReader::open`, on the bytes of the file.
unfoldable pub open_snapshot : List ℕ → Result FormatError SnapshotReader
open_snapshot file =
    let file_size = length file in
    if ltb file_size header_size then err (too_short header_size file_size) else do
      header ← parse_header (take header_size file)
      let invalid = invalid_num_entries header.num_entries file_size
      index_entries_size ← ok_or invalid (checked_mul header.num_entries index_entry_size)
      expected_file_size ←
          ok_or invalid (checked_add header.index_section_offset index_entries_size)
      let reader : SnapshotReader = record {
        mmap = file;
        num_entries = header.num_entries;
        bitmaps_section_offset = header.bitmaps_section_offset;
        index_section_offset = header.index_section_offset;
      }
      if expected_file_size == file_size then ok reader else err invalid

-- `&self.mmap[start..end]` behind the test `end > self.mmap.len()`. The slice still panics where
-- the sum that made `end` has wrapped below `start`.
unfoldable pub checked_slice : List ℕ → ℕ → ℕ → Result FormatError (List ℕ)
checked_slice mmap start end =
    if ltb (length mmap) end
    then err (too_short end (length mmap))
    else if ltb end start
    then panic
    else ok (slice start end mmap)

unfoldable pub read_index_entry : SnapshotReader → ℕ → Result FormatError IndexEntry
read_index_entry r i = do
  let start = (r.index_section_offset + i * index_entry_size) % u64_mod
  bytes ← checked_slice r.mmap start ((start + index_entry_size) % u64_mod)
  ok (parse_entry bytes)

-- The `match` on an `Ordering`: its cases less, greater and equal.
abbrev pub by_order {ℓ} : {A : Type ℓ} → Ordering → A → A → A → A
by_order Ordering.lt less greater equal = less
by_order Ordering.gt less greater equal = greater
by_order Ordering.eq less greater equal = equal

-- The loop of `find_entry` over [lo, hi). A round shrinks the range, so `hi - lo` rounds are enough;
-- a loop with rounds left to do and no fuel is a panic.
unfoldable pub find_loop : SnapshotReader → ℕ → ℕ → ℕ → ℕ → Result FormatError (Option IndexEntry)
find_loop r hash zero lo hi = if ltb lo hi then panic else ok none
find_loop r hash (suc fuel) lo hi =
    let mid = lo + (hi - lo) / 2 in
    let above = find_loop r hash fuel (mid + 1) hi in
    let below = find_loop r hash fuel lo mid in
    let round : Result FormatError (Option IndexEntry) = (do
      entry ← read_index_entry r mid
      by_order (compare entry.hash hash) above below (ok (some entry))) in
    if ltb lo hi then round else ok none

unfoldable pub find_entry : SnapshotReader → ℕ → Result FormatError (Option IndexEntry)
unfolding find_loop
find_entry r hash =
    if r.num_entries == 0 then ok none else find_loop r hash r.num_entries 0 r.num_entries

module _ {ℓ} {V : Type ℓ} (c : Bincode V) where
  -- The bitmaps that an index entry points to.
  unfoldable pub read_bitmaps : SnapshotReader → IndexEntry → Result FormatError V
  read_bitmaps r entry = do
    bytes ← checked_slice r.mmap entry.offset ((entry.offset + entry.length) % u64_mod)
    ok_or bincode_error (c.deserialize bytes)

  -- The `match` on what the search has found.
  unfoldable pub get_found : SnapshotReader → Option IndexEntry → Result FormatError (Option V)
  get_found r none = ok none
  get_found r (some entry) = do bitmaps ← read_bitmaps r entry; ok (some bitmaps)

  -- `SnapshotReader::get`.
  unfoldable pub get : SnapshotReader → ℕ → Result FormatError (Option V)
  get r hash = do found ← find_entry r hash; get_found r found

  -- One item of `iter_entries`.
  unfoldable pub iter_entry : SnapshotReader → ℕ → Result FormatError (ℕ × V)
  iter_entry r i = do
    entry ← read_index_entry r i
    bitmaps ← read_bitmaps r entry
    ok (entry.hash, bitmaps)

  unfoldable pub iter_from : SnapshotReader → ℕ → ℕ → List (Result FormatError (ℕ × V))
  iter_from r i zero = []
  iter_from r i (suc n) = iter_entry r i ∷ iter_from r (i + 1) n

  -- `SnapshotReader::iter_entries`: the items of `(0..num).map(...)`.
  unfoldable pub iter_entries : SnapshotReader → List (Result FormatError (ℕ × V))
  unfolding iter_from
  iter_entries r = iter_from r 0 r.num_entries
