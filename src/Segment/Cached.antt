-- ===== src/Segment/Cached.antt =====
-- The search by the files of a segment, through its cache of bitmaps (src/core/storage/segment.rs). The
-- cache is the field `bitmap_cache` of the struct, which a search changes.
use bittice.Prelude.{Str, find, set, Option, none, some, List, [], ◌∷◌, if◌then◌else◌}
use bittice.Bitmaps.{Roaring}
use bittice.Filter.{LogicalOp, Filter, StdText}
use bittice.Segment.{
  ValueBitmaps, Segment, or_nil, as_u32, valid_filters, any_skips, bitmap_matches_for_filter,
  combine, less_deleted,
}

module _ (r : Roaring) where
  abbrev pub BitmapCache : Type 0
  BitmapCache = List (Str × ValueBitmaps r)

  -- The bitmaps of a column as its file has them, or none where there is no file.
  abbrev pub in_file : Str → Segment r → ValueBitmaps r
  in_file field s = or_nil (find field s.bitmap_files)

  abbrev pub cached_or :
      Option (ValueBitmaps r) → Str → Segment r → BitmapCache → ValueBitmaps r × BitmapCache
  cached_or (some cached) field s cache = (cached, cache)
  cached_or none field s cache = (in_file field s, set field (in_file field s) cache)

  -- `Segment::get_bitmaps_cached`: what the cache has, or else what the file has, which is cached.
  unfoldable pub get_bitmaps_cached : Str → Segment r → BitmapCache → ValueBitmaps r × BitmapCache
  unfolding find set
  get_bitmaps_cached field s cache = cached_or (find field cache) field s cache

  module _ (std : StdText) where
    -- The loop over the filters after the first, on the result so far.
    unfoldable pub search_cached :
        LogicalOp → Segment r → List Filter → r.Bitmap → BitmapCache → r.Bitmap × BitmapCache
    unfolding get_bitmaps_cached bitmap_matches_for_filter
    search_cached op s [] result cache = (result, cache)
    search_cached op s (f ∷ fs) result cache =
        let got = get_bitmaps_cached f.field s cache in
        search_cached op s fs (combine std r op result (bitmap_matches_for_filter std r got.0 f))
          got.1

    unfoldable pub search_filters :
        LogicalOp → Segment r → List Filter → BitmapCache → r.Bitmap × BitmapCache
    unfolding search_cached less_deleted any_skips
    search_filters op s [] cache = (less_deleted std r s (r.range (as_u32 s.record_count)), cache)
    search_filters op s (f ∷ fs) cache =
        let got = get_bitmaps_cached f.field s cache in
        let found = search_cached op s fs (bitmap_matches_for_filter std r got.0 f) got.1 in
        if any_skips std s.min_max (f ∷ fs)
        then (r.empty, cache)
        else (less_deleted std r s found.0, found.1)

    -- `Segment::search_thread_safe`, with the cache that it leaves.
    unfoldable pub search_thread_safe :
        List Filter → LogicalOp → Segment r → BitmapCache → r.Bitmap × BitmapCache
    unfolding search_filters valid_filters
    search_thread_safe filters op s cache = search_filters op s (valid_filters filters) cache
