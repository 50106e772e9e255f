-- ===== src/Segment/Files.antt =====
-- The bitmaps in the files of a segment, and the search by them and the cache (src/core/storage/segment.rs).
use mathlib.Core.Option.{some-injective}
use bittice.Prelude.{
  Bool, true, false, Option-cases, Str, bytes_eq, bytes_eq→eq, find, set, find-set, HasDistinctKeys,
  ◌≡◌, refl, sym, ap, ◌∙◌, if◌then◌else◌, Option, none, some, List, [], ◌∷◌, inl, inr, Bool-cases,
}
use bittice.Bitmaps.{Roaring}
use bittice.Filter.{LogicalOp, Filter, StdText}
use bittice.Segment.{
  ValueBitmaps, Segment, SegmentWriter, or_nil, write_bitmaps, persist_bitmaps, valid_filters,
  any_skips, bitmap_matches_for_filter, combine, search_rest, search_valid, less_deleted, search,
}
use bittice.Segment.Cached.{
  BitmapCache, in_file, get_bitmaps_cached, search_cached, search_filters, search_thread_safe,
}

-- The bitmaps of a column after they have been written: those in memory, or else those that were there.
abbrev pub or_before : {A : Type 0} → Option A → Option A → Option A
or_before none before = before
or_before (some a) before = some a

module _ (r : Roaring) where
  find-write_bitmaps :
      (col : Str) (ms files : List (Str × ValueBitmaps r))
      → HasDistinctKeys ms
      → find col (write_bitmaps r ms files) ≡ or_before (find col ms) (find col files)
  unfolding write_bitmaps find
  find-write_bitmaps col [] files d = refl
  find-write_bitmaps col ((c, m) ∷ ms) files (HasDistinctKeys.one_more fresh d) =
      find-write_bitmaps col ms (set c m files) d
      ∙ ap (or_before (find col ms)) (find-set c col m files)
      ∙ elim (Bool-cases (bytes_eq c col)) [
        | inl same ↦ rw same (
            ap (λ o. or_before o (some m))
              (ap (λ k. find k ms) (sym (bytes_eq→eq c col same)) ∙ fresh))
        | inr other ↦ rw other refl
      ]

  -- Every column in the cache is there as its file has it.
  abbrev pub IsCurrent : Segment r → BitmapCache r → Type 0
  IsCurrent s cache =
      (field : Str) (m : ValueBitmaps r) → find field cache ≡ some m → m ≡ in_file r field s

  get_bitmaps_cached-IsCurrent :
      (field : Str) (s : Segment r) (cache : BitmapCache r)
      → IsCurrent s cache
      → ((get_bitmaps_cached r field s cache).0 ≡ in_file r field s)
        × IsCurrent s (get_bitmaps_cached r field s cache).1
  unfolding get_bitmaps_cached
  get_bitmaps_cached-IsCurrent field s cache current = elim (Option-cases (find field cache)) [
    | inr (m, hit) ↦ rw hit (current field m hit, current)
    | inl miss ↦ rw miss (
      refl,
      λ col m found.
          read col m (bytes_eq field col) refl
            (sym (find-set field col (in_file r field s) cache) ∙ found),
    )
  ]
    where
      read :
          (col : Str) (m : ValueBitmaps r) (hit : Bool)
          → bytes_eq field col ≡ hit
          → (if hit then some (in_file r field s) else find col cache) ≡ some m
          → m ≡ in_file r col s
      read col m true same e =
          sym (some-injective (in_file r field s) m e)
          ∙ ap (λ c. in_file r c s) (bytes_eq→eq field col same)
      read col m false other e = current col m e

  module _ (std : StdText) where
    search_rest-same :
        (op : LogicalOp) (a b : List (Str × ValueBitmaps r)) (fs : List Filter) (result : r.Bitmap)
        → ((col : Str) → or_nil (find col a) ≡ or_nil (find col b))
        → search_rest std r op a fs result ≡ search_rest std r op b fs result
    unfolding search_rest
    search_rest-same op a b [] result same = refl
    search_rest-same op a b (f ∷ fs) result same =
        ap
          (λ m.
            search_rest std r op a fs
              (combine std r op result (bitmap_matches_for_filter std r m f)))
          (same f.field)
        ∙ search_rest-same op a b fs _ same

    search_valid-same :
        (op : LogicalOp) (s : Segment r) (files a b : List (Str × ValueBitmaps r))
        (fs : List Filter)
        → ((col : Str) → or_nil (find col a) ≡ or_nil (find col b))
        → search_valid std r op (record s { bitmap_files = files }) a fs
          ≡ search_valid std r op s b fs
    unfolding search_valid less_deleted
    search_valid-same op s files a b [] same = refl
    search_valid-same op s files a b (f ∷ fs) same =
        ap
          (λ result.
            if any_skips std s.min_max (f ∷ fs) then r.empty else less_deleted std r s result)
          (ap (λ m. search_rest std r op a fs (bitmap_matches_for_filter std r m f)) (same f.field)
            ∙ search_rest-same op a b fs _ same)

    search_cached-IsCurrent :
        (op : LogicalOp) (s : Segment r) (fs : List Filter) (result : r.Bitmap)
        (cache : BitmapCache r)
        → IsCurrent s cache
        → ((search_cached r std op s fs result cache).0
            ≡ search_rest std r op s.bitmap_files fs result)
          × IsCurrent s (search_cached r std op s fs result cache).1
    unfolding search_cached search_rest
    search_cached-IsCurrent op s [] result cache current = (refl, current)
    search_cached-IsCurrent op s (f ∷ fs) result cache current =
        let (same, next) = get_bitmaps_cached-IsCurrent f.field s cache current in
        let (found, after) =
          search_cached-IsCurrent op s fs
            (combine std r op result
              (bitmap_matches_for_filter std r (get_bitmaps_cached r f.field s cache).0 f))
            (get_bitmaps_cached r f.field s cache).1 next in
        (
          found
              ∙ ap
                  (λ m.
                    search_rest std r op s.bitmap_files fs
                      (combine std r op result (bitmap_matches_for_filter std r m f)))
                  same,
          after,
        )

    search_filters-IsCurrent :
        (op : LogicalOp) (s : Segment r) (fs : List Filter) (cache : BitmapCache r)
        → IsCurrent s cache
        → ((search_filters r std op s fs cache).0 ≡ search_valid std r op s s.bitmap_files fs)
          × IsCurrent s (search_filters r std op s fs cache).1
    unfolding search_filters search_valid
    search_filters-IsCurrent op s [] cache current = (refl, current)
    search_filters-IsCurrent op s (f ∷ fs) cache current =
        elim (Bool-cases (any_skips std s.min_max (f ∷ fs))) [
          | inl skipped ↦ rw skipped (refl, current)
          | inr searched ↦
              let got = get_bitmaps_cached r f.field s cache in
              let (same, next) = get_bitmaps_cached-IsCurrent f.field s cache current in
              let (found, after) =
                search_cached-IsCurrent op s fs (bitmap_matches_for_filter std r got.0 f) got.1
                  next in
              rw searched (
                ap (less_deleted std r s) (
                    found
                    ∙ ap
                        (λ m.
                          search_rest std r op s.bitmap_files fs
                            (bitmap_matches_for_filter std r m f))
                        same),
                after,
              )
        ]

    search_valid-persist_bitmaps :
        (fs : List Filter) (op : LogicalOp) (w : SegmentWriter r)
        → HasDistinctKeys w.bitmaps
        → ((col : Str) → find col w.bitmaps ≡ none → find col w.segment.bitmap_files ≡ none)
        → search_valid std r op
            (persist_bitmaps r w).segment
            (persist_bitmaps r w).segment.bitmap_files
            fs
          ≡ search_valid std r op w.segment w.bitmaps fs
    unfolding persist_bitmaps
    search_valid-persist_bitmaps fs op w d only =
        let files = write_bitmaps r w.bitmaps w.segment.bitmap_files in
        search_valid-same op w.segment files files w.bitmaps fs (λ col. ap or_nil (
          find-write_bitmaps col w.bitmaps w.segment.bitmap_files d
          ∙ same_column col (find col w.bitmaps) refl))
      where
        same_column :
            (col : Str) (found : Option (ValueBitmaps r))
            → find col w.bitmaps ≡ found
            → or_before found (find col w.segment.bitmap_files) ≡ found
        same_column col none e = only col e
        same_column col (some m) e = refl

    -- Once the bitmaps of a segment have been written to its files, a search by the files gives the bitmap
    -- that the search of the writer gives, for the same filters and operator, where a column has one
    -- entry in the writer's map, and a file only if it has an entry, and where every column that is
    -- cached is cached as its file now is; and the search leaves the cache so.
    pub search_thread_safe-persist_bitmaps :
        (filters : List Filter) (op : LogicalOp) (w : SegmentWriter r) (cache : BitmapCache r)
        → HasDistinctKeys w.bitmaps
        → ((col : Str) → find col w.bitmaps ≡ none → find col w.segment.bitmap_files ≡ none)
        → IsCurrent (persist_bitmaps r w).segment cache
        → ((search_thread_safe r std filters op (persist_bitmaps r w).segment cache).0
            ≡ search std r filters op w)
          × IsCurrent
              (persist_bitmaps r w).segment
              (search_thread_safe r std filters op (persist_bitmaps r w).segment cache).1
    unfolding search_thread_safe search
    search_thread_safe-persist_bitmaps filters op w cache d only current =
        let fs = valid_filters filters in
        let (found, after) =
          search_filters-IsCurrent op (persist_bitmaps r w).segment fs cache current in
        (found ∙ search_valid-persist_bitmaps fs op w d only, after)
