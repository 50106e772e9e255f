-- ===== src/Tests/IndexRuns.antt =====
-- The exact index: runs, and the theorems at concrete inputs.
use bittice.Prelude.{
  any_of, retain, codes, Str, ℕ, ◌≡◌, refl, false, ◌||◌, ◌==◌, if◌then◌else◌, none, some, List, [],
  ◌∷◌, lookup, arith, ok,
}
use bittice.Canonical.{hash}
use bittice.Snapshot.Written.{reader_of}
use bittice.Snapshot.RoundTrip.{IsAscending, Shows, reader_of-Shows}
use bittice.ExactIndex.Delta.{Bitmaps, DeltaEntry, replace, removed}
use bittice.ExactIndex.{ExactIndex, get, merge_segment, purge_segments}
use bittice.ExactIndex.View.{IsValid, Answers, get-Answers, view}
use bittice.ExactIndex.Update.{merge_segment-rows, row_at, merged_row}
use bittice.ExactIndex.Purge.{Purges, purge_segments-Purges}
use bittice.ExactIndex.Purge.Value.{is_gone, purged, purged-free}
use bittice.ExactIndex.Merge.{IsDistinct}
use bittice.ExactIndex.Save.{
  saved_entries, write_and_reopen, Disk, sort_by_key, insert_sorted, merged_entries, take_delta,
  all_items,
}
use bittice.ExactIndex.Saved.{saved_entries-view, Saves, write_and_reopen-Saves}
use bittice.Tests.Crates.{rows, rows-IsRoaring, tokens, tokens-IsLawful, store, store-IsLru, ascii}

-- The value "a" has the hash 97: rows 1 of segment 0. The value "b" has rows in two segments.
abbrev pairs : List (ℕ × Bitmaps rows)
pairs = (97, (0, 1 ∷ []) ∷ []) ∷ (98, (0, 2 ∷ []) ∷ (1, 3 ∷ []) ∷ []) ∷ []

abbrev blobs : List (List ℕ)
blobs = (0 ∷ 3 ∷ []) ∷ (0 ∷ 5 ∷ 2 ∷ 7 ∷ []) ∷ []

pairs-Shows : Shows tokens (reader_of pairs blobs) pairs
pairs-Shows =
    reader_of-Shows tokens tokens-IsLawful pairs blobs (refl, (refl, tt))
      (record { hashes = omega arith; blobs = omega arith; total = omega arith }) (omega arith)

-- Over that snapshot: "b" is removed, and "c" is new.
abbrev delta : List (ℕ × DeltaEntry (Bitmaps rows))
delta = (98, removed) ∷ (99, replace ((1, 4 ∷ []) ∷ [])) ∷ []

abbrev index : ExactIndex rows store
index = record {
  snapshot = some (reader_of pairs blobs);
  path = some (codes "index");
  delta = delta;
  cache = [];
}

index-IsValid : IsValid tokens index pairs
unfolding lookup
index-IsValid = record { backed = pairs-Shows; coherent = λ h v free hit. cc }

get-Answers_example :
    Answers tokens store-IsLru index pairs
      (hash ascii (codes "a"))
      (get ascii tokens index (codes "a"))
get-Answers_example = get-Answers tokens store-IsLru ascii index pairs (codes "a") index-IsValid

abbrev new_rows : Bitmaps rows
new_rows = (2, 9 ∷ []) ∷ []

abbrev values : List (Str × List ℕ)
values = ((codes "a"), 6 ∷ []) ∷ ((codes "c"), 7 ∷ 8 ∷ []) ∷ []

merge_segment-rows_example :
    (idx' : ExactIndex rows store) × (merge_segment ascii tokens index 1 values ≡ ok idx')
    × IsValid tokens idx' pairs
    × ((h seg row : ℕ)
        → row_at tokens store-IsLru ascii pairs idx' h seg row ≡ (
            row_at tokens store-IsLru ascii pairs index h seg row
            || (if 1 == seg then merged_row rows ascii values h row else false)))
merge_segment-rows_example =
    merge_segment-rows tokens store-IsLru ascii pairs rows-IsRoaring index 1 values index-IsValid

pairs-IsAscending : IsAscending pairs
pairs-IsAscending = omega arith

purge_segments-Purges_example :
    Purges tokens store-IsLru index pairs (0 ∷ []) (purge_segments ascii tokens index (0 ∷ []))
purge_segments-Purges_example =
    purge_segments-Purges tokens store-IsLru index pairs (0 ∷ []) index-IsValid pairs-IsAscending
      ascii

abbrev both_segments : Bitmaps rows
both_segments = (0, 2 ∷ []) ∷ (1, 3 ∷ []) ∷ []

abbrev one_segment : Bitmaps rows
one_segment = (1, 3 ∷ []) ∷ []

purged_run : purged (0 ∷ []) (some both_segments) ≡ some one_segment
unfolding retain any_of
purged_run = refl

clean_segment : any_of (is_gone (0 ∷ [])) one_segment ≡ false
clean_segment = purged-free (0 ∷ []) (some both_segments) one_segment purged_run

delta-IsDistinct : IsDistinct delta
delta-IsDistinct = omega arith

saved_entries-view_example :
    (entries : List (ℕ × Bitmaps rows)) × (saved_entries tokens index.snapshot delta ≡ ok entries)
    × IsAscending entries
    × ((h : ℕ) → lookup h entries ≡ view delta pairs h)
saved_entries-view_example =
    saved_entries-view tokens delta pairs delta-IsDistinct pairs-IsAscending index.snapshot
      pairs-Shows

abbrev merged : List (ℕ × Bitmaps rows)
merged = (97, (0, 1 ∷ []) ∷ []) ∷ (99, (1, 4 ∷ []) ∷ []) ∷ []

abbrev merged_blobs : List (List ℕ)
merged_blobs = (0 ∷ 3 ∷ []) ∷ (2 ∷ 9 ∷ []) ∷ []

save_run : saved_entries tokens index.snapshot delta ≡ ok merged
unfolding saved_entries all_items merged_entries sort_by_key insert_sorted take_delta
save_run = rw pairs-Shows.items refl

abbrev no_files : Disk
no_files path = none

write_and_reopen-Saves_example :
    Saves tokens store-IsLru tokens-IsLawful index pairs merged
      (codes "index")
      no_files
      (write_and_reopen tokens index (codes "index") no_files)
write_and_reopen-Saves_example =
    write_and_reopen-Saves tokens store-IsLru tokens-IsLawful index pairs merged merged_blobs
      (codes "index") no_files index-IsValid pairs-IsAscending delta-IsDistinct save_run
      (refl, (refl, tt)) (record { hashes = omega arith; blobs = omega arith; total = omega arith })
