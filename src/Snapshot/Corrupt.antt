-- ===== src/Snapshot/Corrupt.antt =====
-- What the reader does with files that the writer did not produce: sizes that do not add up, and
-- entries that point outside the file.
use native.Mathlib.Nat.{mod-eq_of_lt}
use bittice.Prelude.{
  ℕ, zero, suc, ◌+◌, ◌-◌, ◌/◌, ◌*◌, ◌≤◌, ◌<◌, ◌≡◌, ◌≢◌, refl, sym, ap, ◌∙◌, Option, some, none,
  List, ◌∷◌, ◌++◌, length, length-append, slice, take, take-append_le, ◌==◌, arith, ok, err, panic,
  ltb, le→ltb, ltb→lt, Bool-cases, inl, inr, compare-cases,
}
use bittice.Bytes.{u64_mod}
use bittice.Snapshot.Codec.{Bincode}
use bittice.Snapshot.Format.{
  IndexEntry, invalid_num_entries, parse_entry, header_size, index_entry_size,
}
use bittice.Snapshot.Reader.{
  SnapshotReader, open_snapshot, checked_slice, read_index_entry, read_bitmaps, find_loop,
  find_entry, get, get_found,
}

-- The sizes of an opened file add up.
pub record IsOpen (r : SnapshotReader) : Type 0 where
  pub size : r.index_section_offset + r.num_entries * index_entry_size ≡ length r.mmap
  pub small : length r.mmap < u64_mod

-- `open` keeps the bytes of the file and accepts only a file whose size is the offset of the index
-- section plus 28 bytes for each entry.
pub open_snapshot-IsOpen :
    (file : List ℕ) (r : SnapshotReader) → open_snapshot file ≡ ok r → (r.mmap ≡ file) × IsOpen r
unfolding open_snapshot
open_snapshot-IsOpen file r h = ground arith

-- A file with bytes behind an accepted one is refused, with the size that it has.
pub open_snapshot-append :
    (file : List ℕ) (x : ℕ) (more : List ℕ) (r : SnapshotReader)
    → open_snapshot file ≡ ok r
    → open_snapshot (file ++ x ∷ more)
      ≡ err (invalid_num_entries r.num_entries (length (file ++ x ∷ more)))
unfolding open_snapshot
open_snapshot-append file x more r h = elim (Bool-cases (ltb (length file) header_size)) [
  | inl short ↦ ground arith
  | inr long ↦
      let same : take header_size (file ++ x ∷ more) ≡ take header_size file =
        take-append_le header_size file (x ∷ more) (ground arith) in
      ground (arith, same, length-append file (x ∷ more))
]

module _ (r : SnapshotReader) (o : IsOpen r) where
  -- In an opened file every index below the entry count is read, without a panic or an error.
  pub read_index_entry-total :
      (i : ℕ) → i < r.num_entries → (e : IndexEntry) × (read_index_entry r i ≡ ok e)
  unfolding read_index_entry checked_slice
  read_index_entry-total i lt =
      let first : ℕ = r.index_section_offset + i * index_entry_size in
      (
        parse_entry (slice first (first + index_entry_size) r.mmap),
        rw (mod-eq_of_lt low, mod-eq_of_lt high)
            (rw (
              le→ltb (length r.mmap) (first + index_entry_size) within,
              le→ltb (first + index_entry_size) first (omega arith),
            )),
      )
    where
      within : r.index_section_offset + i * index_entry_size + index_entry_size ≤ length r.mmap
      within = omega (arith, o.size)

      high : r.index_section_offset + i * index_entry_size + index_entry_size < u64_mod
      high = omega (arith, within, o.small)

      low : r.index_section_offset + i * index_entry_size < u64_mod
      low = omega (arith, high)

  find_loop-total :
      (hash fuel lo hi : ℕ)
      → hi ≤ r.num_entries
      → hi ≤ lo + fuel
      → (found : Option IndexEntry) × (find_loop r hash fuel lo hi ≡ ok found)
  unfolding find_loop
  find_loop-total hash zero lo hi fits rounds =
      (none, let done : hi ≤ lo = omega arith in rw (le→ltb lo hi done))
  find_loop-total hash (suc fuel) lo hi fits rounds = elim (Bool-cases (ltb lo hi)) [
    | inr done ↦ (none, rw done)
    | inl more ↦
        let lt : lo < hi = ltb→lt lo hi more in
        let (m, reads) = read_index_entry-total (lo + (hi - lo) / 2) (omega arith) in
        let (above, ha) =
          find_loop-total hash fuel (lo + (hi - lo) / 2 + 1) hi fits (omega arith) in
        let (below, hb) =
          find_loop-total hash fuel lo (lo + (hi - lo) / 2) (omega arith) (omega arith) in
        elim (compare-cases m.hash hash) [
          | inl (c, h) ↦ (above, rw (more, reads, c) ha)
          | inr (inl (c, h)) ↦ (below, rw (more, reads, c) hb)
          | inr (inr (c, h)) ↦ (some m, rw (more, reads, c))
        ]
  ]

  -- The search ends with an answer on every opened file, sorted or not.
  pub find_entry-total : (hash : ℕ) → (found : Option IndexEntry) × (find_entry r hash ≡ ok found)
  unfolding find_entry
  find_entry-total hash = elim (Bool-cases (r.num_entries == 0)) [
    | inl empty ↦ (none, rw empty)
    | inr more ↦
        let (found, h) =
          find_loop-total hash r.num_entries 0 r.num_entries (omega arith) (omega arith) in
        (found, rw more h)
  ]

find_loop-idle :
    (r : SnapshotReader) (hash fuel lo hi : ℕ) → hi ≤ lo → find_loop r hash fuel lo hi ≡ ok none
unfolding find_loop
find_loop-idle r hash zero lo hi done = rw (le→ltb lo hi done)
find_loop-idle r hash (suc fuel) lo hi done = rw (le→ltb lo hi done)

-- More rounds change nothing.
find_loop-same :
    (r : SnapshotReader) (hash m n lo hi : ℕ)
    → hi ≤ lo + m
    → hi ≤ lo + n
    → find_loop r hash m lo hi ≡ find_loop r hash n lo hi
unfolding find_loop
find_loop-same r hash zero n lo hi left right =
    let done : hi ≤ lo = omega arith in
    rw (le→ltb lo hi done) (sym (find_loop-idle r hash n lo hi done))
find_loop-same r hash (suc m) zero lo hi left right =
    let done : hi ≤ lo = omega arith in
    find_loop-idle r hash (suc m) lo hi done ∙ sym (find_loop-idle r hash zero lo hi done)
find_loop-same r hash (suc m) (suc n) lo hi left right = elim (Bool-cases (ltb lo hi)) [
  | inr done ↦ rw done
  | inl more ↦
      let lt : lo < hi = ltb→lt lo hi more in
      rw (
        find_loop-same r hash m n (lo + (hi - lo) / 2 + 1) hi (omega arith) (omega arith),
        find_loop-same r hash m n lo (lo + (hi - lo) / 2) (omega arith) (omega arith),
      )
]

-- In an opened file, sorted or not, the search of [lo, hi) with hi at most the entry count ends with
-- an answer within `hi - lo` rounds, without an error or a panic: any two numbers of rounds from
-- there on give that answer.
pub find_loop-enough :
    (r : SnapshotReader) (hash m n lo hi : ℕ)
    → IsOpen r
    → hi ≤ r.num_entries
    → hi ≤ lo + m
    → hi ≤ lo + n
    → (found : Option IndexEntry) × (find_loop r hash m lo hi ≡ ok found)
      × (find_loop r hash n lo hi ≡ ok found)
find_loop-enough r hash m n lo hi opened fits left right =
    let (found, ends) = find_loop-total r opened hash m lo hi fits left in
    (found, ends, sym (find_loop-same r hash m n lo hi left right) ∙ ends)

module _ {ℓ} {V : Type ℓ} (c : Bincode V) (r : SnapshotReader) where
  read_bitmaps-ne-panic :
      (e : IndexEntry) → e.offset + e.length < u64_mod → read_bitmaps c r e ≢ panic
  unfolding read_bitmaps checked_slice
  read_bitmaps-ne-panic e fits = rw (mod-eq_of_lt fits) (ground arith)

  get_found-ne-panic :
      (found : Option IndexEntry)
      → ((e : IndexEntry) → found ≡ some e → e.offset + e.length < u64_mod)
      → get_found c r found ≢ panic
  unfolding get_found
  get_found-ne-panic none fits = λ h. cc
  get_found-ne-panic (some e) fits = ground (arith, read_bitmaps-ne-panic e (fits e refl))

  -- A lookup in an opened file does not panic, provided that the entry which the search finds, if
  -- any, has an end that fits 64 bits.
  pub get-ne-panic :
      (hash : ℕ)
      → IsOpen r
      → ((e : IndexEntry) → find_entry r hash ≡ ok (some e) → e.offset + e.length < u64_mod)
      → get c r hash ≢ panic
  unfolding get get_found
  get-ne-panic hash o fits =
      let (found, eq) = find_entry-total r o hash in
      rw eq (get_found-ne-panic found (λ e same. fits e (eq ∙ ap ok same)))
