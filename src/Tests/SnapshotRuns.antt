-- ===== src/Tests/SnapshotRuns.antt =====
-- Snapshot files: runs, and the theorems at concrete inputs.
use mathlib.Core.Path.{subst}
use bittice.Prelude.{
  ℕ, ◌+◌, ◌<◌, ◌≡◌, ◌≢◌, refl, Option, none, some, List, [], ◌∷◌, length, arith, ok, err, panic,
}
use bittice.Bytes.{from_le_bytes, u64_mod}
use bittice.Snapshot.Format.{
  V3Header, IndexEntry, too_short, header_size, parse_header, write_header, parse_entry,
  write_entry,
}
use bittice.Snapshot.Writer.{
  write_blob, write_entries, write_loop, finish_file, write_exact_index_v3,
}
use bittice.Snapshot.Reader.{
  SnapshotReader, open_snapshot, checked_slice, read_index_entry, find_loop, find_entry,
  read_bitmaps, get, get_found, iter_entry, iter_entries,
}
use bittice.Snapshot.Layout.{Serializes, Fits, index_of}
use bittice.Snapshot.Decoded.{reader_of-Decodes}
use bittice.Snapshot.Written.{file_of, reader_of, open-file_of}
use bittice.Snapshot.Search.{find_entry-entry_of}
use bittice.Snapshot.Sorted.{entry_of, IsSorted}
use bittice.Snapshot.RoundTrip.{Shows, write-open-Shows}
use bittice.Snapshot.Corrupt.{IsOpen, open_snapshot-IsOpen, find_loop-enough, get-ne-panic}
use bittice.Tests.Crates.{one_byte, one_byte-IsLawful}

abbrev pairs : List (ℕ × ℕ)
pairs = (5, 7) ∷ (9, 1) ∷ (300, 2) ∷ []

abbrev blobs : List (List ℕ)
blobs = (7 ∷ []) ∷ (1 ∷ []) ∷ (2 ∷ []) ∷ []

pairs-Serializes : Serializes one_byte pairs blobs
pairs-Serializes = (refl, (refl, (refl, tt)))

pairs-Fits : Fits pairs blobs
pairs-Fits = record { hashes = omega arith; blobs = omega arith; total = omega arith }

abbrev opened : SnapshotReader
opened = reader_of pairs blobs

-- The file of three values is 40 + 3 + 3 * 28 bytes long, and the writer produces it.
file_size : length (file_of pairs blobs) ≡ 127
unfolding write_header write_entries write_entry
file_size = refl

write_run : write_exact_index_v3 one_byte pairs ≡ ok (file_of pairs blobs, 0)
unfolding write_exact_index_v3 write_loop write_blob finish_file write_header write_entries
    write_entry
write_run = refl

-- Unsorted input is logged and written.
abbrev unsorted : List (ℕ × ℕ)
unsorted = (9, 7) ∷ (5, 1) ∷ []

abbrev unsorted_blobs : List (List ℕ)
unsorted_blobs = (7 ∷ []) ∷ (1 ∷ []) ∷ []

write_unsorted : write_exact_index_v3 one_byte unsorted ≡ ok (file_of unsorted unsorted_blobs, 1)
unfolding write_exact_index_v3 write_loop write_blob finish_file write_header write_entries
    write_entry
write_unsorted = refl

open_run : open_snapshot (file_of pairs blobs) ≡ ok opened
open_run = open-file_of pairs blobs one_byte pairs-Serializes pairs-Fits

get_run : (get one_byte opened 9 ≡ ok (some 1)) × (get one_byte opened 8 ≡ ok none)
unfolding get get_found read_bitmaps find_entry read_index_entry checked_slice parse_entry
    from_le_bytes write_header write_entries write_entry
get_run = (refl, refl)

iter_run : iter_entries one_byte opened ≡ ok (5, 7) ∷ ok (9, 1) ∷ ok (300, 2) ∷ []
unfolding iter_entries iter_entry read_bitmaps read_index_entry checked_slice parse_entry
    from_le_bytes write_header write_entries write_entry
iter_run = refl

parse_short : parse_header (66 ∷ []) ≡ err (too_short 40 1)
unfolding parse_header
parse_short = refl

abbrev small_header : V3Header
small_header = record {
  version = 3;
  num_entries = 3;
  bitmaps_section_offset = 40;
  index_section_offset = 43;
}

write-open-Shows_example :
    (file : List ℕ) × (warnings : ℕ) × (write_exact_index_v3 one_byte pairs ≡ ok (file, warnings))
    × (r : SnapshotReader) × (open_snapshot file ≡ ok r)
    × Shows one_byte r pairs
write-open-Shows_example =
    write-open-Shows one_byte one_byte-IsLawful pairs blobs pairs-Serializes pairs-Fits
      (omega arith)

abbrev entries : List IndexEntry
entries = index_of header_size pairs blobs

entries-IsSorted : IsSorted entries
entries-IsSorted = omega arith

find_entry-entry_of_example : find_entry opened 300 ≡ ok (entry_of 300 entries)
find_entry-entry_of_example =
    find_entry-entry_of opened entries 300
      (reader_of-Decodes one_byte pairs blobs pairs-Serializes pairs-Fits) entries-IsSorted

opened-IsOpen : IsOpen opened
opened-IsOpen = (open_snapshot-IsOpen (file_of pairs blobs) opened open_run).1

find_loop-enough_example :
    (found : Option IndexEntry) × (find_loop opened 9 3 0 3 ≡ ok found)
    × (find_loop opened 9 64 0 3 ≡ ok found)
find_loop-enough_example =
    find_loop-enough opened 9 3 64 0 3 opened-IsOpen (omega arith) (omega arith) (omega arith)

-- The second entry: one byte at offset 41.
abbrev second_entry : IndexEntry
second_entry = record { hash = 9; offset = 41; length = 1 }

second_found : find_entry opened 9 ≡ ok (some second_entry)
unfolding find_entry read_index_entry checked_slice parse_entry from_le_bytes write_header
    write_entries write_entry
second_found = refl

-- The hash 9 is found, and its entry has an end in range.
get-ne-panic_example : get one_byte opened 9 ≢ panic
get-ne-panic_example = get-ne-panic one_byte opened 9 opened-IsOpen (λ e h.
    let same : second_entry ≡ e = cc second_found in
    subst (λ x. x.offset + x.length < u64_mod) same (omega arith))
