-- ===== src/Segment/Cache.antt =====
-- The cache of memory-mapped files of a segment (src/core/storage/segment.rs): `get_mmap_pair` and
-- `invalidate_mmap_cache`. A map `M` of a column's two files stands for the pair of maps.
use bittice.Prelude.{
  Str, bytes_eq, bytes_eq_iff, bytes_eq→eq, bytes_eq_refl, find, set, find-set, ℕ, ◌+◌, ◌≤◌, ◌<◌,
  ◌≡◌, refl, sym, ap, ◌∙◌, Bool, true, false, not, ◌&&◌, ◌||◌, leb, if◌then◌else◌, Option, none,
  some, List, [], ◌∷◌, ◌++◌, length, arith, inl, inr, Bool-cases,
}

pub record MmapCache (M : Type 0) : Type 0 where
  pub cache : List (Str × M)
  pub order : List Str

abbrev pub mmap_cache_max_entries : ℕ
mmap_cache_max_entries = 64

-- `order.retain(|k| k != field)`
unfoldable pub retain_other : Str → List Str → List Str
retain_other field [] = []
retain_other field (k ∷ ks) =
    let rest = retain_other field ks in if bytes_eq k field then rest else k ∷ rest

abbrev pub has_key : Str → List Str → Bool
has_key k [] = false
has_key k (j ∷ ks) = bytes_eq j k || has_key k ks

has_key-snoc :
    (k field : Str) (ks : List Str)
    → has_key k (ks ++ field ∷ []) ≡ (has_key k ks || bytes_eq field k)
has_key-snoc k field [] = ground arith
has_key-snoc k field (j ∷ ks) = ground (arith, has_key-snoc k field ks)

has_key-retain :
    (k field : Str) (ks : List Str)
    → has_key k (retain_other field ks) ≡ (has_key k ks && not (bytes_eq k field))
unfolding retain_other
has_key-retain k field [] = refl
has_key-retain k field (j ∷ ks) =
    ground (
      arith,
      has_key-retain k field ks,
      bytes_eq_iff j k,
      bytes_eq_iff j field,
      bytes_eq_iff k field,
    )

has_key-touch :
    (k field : Str) (ks : List Str)
    → has_key k ks ≡ true
    → has_key k (retain_other field ks ++ field ∷ []) ≡ true
has_key-touch k field ks h = ground (
  arith,
  h,
  has_key-snoc k field (retain_other field ks),
  has_key-retain k field ks,
  bytes_eq_iff k field,
  bytes_eq_iff field k,
)

module _ {M : Type 0} where
  -- `cache.remove(key)`
  unfoldable pub erase : Str → List (Str × M) → List (Str × M)
  erase key [] = []
  erase key ((k, m) ∷ c) = let rest = erase key c in if bytes_eq k key then rest else (k, m) ∷ rest

  -- The `while` loop, over the keys in the order in which they would go.
  unfoldable pub evict : List Str → List (Str × M) → MmapCache M
  unfolding erase
  evict [] cache = record { cache = cache; order = [] }
  evict (key ∷ order) cache =
      let rest = evict order (erase key cache) in
      if leb mmap_cache_max_entries (length cache)
      then rest
      else record { cache = cache; order = key ∷ order }

  abbrev touch : Str → MmapCache M → MmapCache M
  touch field c = record c { order = retain_other field c.order ++ field ∷ [] }

  -- After the cache has missed: `return Err` where the files are not found, or the entry is made.
  unfoldable pub load_pair : Str → MmapCache M → Option M → Option M × MmapCache M
  unfolding evict
  load_pair field c none = (none, c)
  load_pair field c (some m) =
      let kept = evict c.order c.cache in
      (some m, record { cache = set field m kept.cache; order = kept.order ++ field ∷ [] })

  unfoldable pub cached_pair :
      (Str → Option M) → Str → MmapCache M → Option M → Option M × MmapCache M
  unfolding retain_other load_pair
  cached_pair files field c (some m) = (some m, touch field c)
  cached_pair files field c none = load_pair field c (files field)

  -- The answer, or `none` where the files are not found, and the cache after the call. `files` is what
  -- mapping the files of a column gives.
  unfoldable pub get_mmap_pair : (Str → Option M) → Str → MmapCache M → Option M × MmapCache M
  unfolding cached_pair
  get_mmap_pair files field c = cached_pair files field c (find field c.cache)

  unfoldable pub invalidate_mmap_cache : MmapCache M
  invalidate_mmap_cache = record { cache = []; order = [] }

  -- What the cache holds is what the files give; it has at most 64 entries, each of them in the order,
  -- so that it can be evicted.
  pub record IsCoherent (files : Str → Option M) (c : MmapCache M) : Type 0 where
    pub current : (field : Str) (m : M) → find field c.cache ≡ some m → files field ≡ some m
    pub bounded : length c.cache ≤ mmap_cache_max_entries
    pub ordered : (field : Str) (m : M) → find field c.cache ≡ some m → has_key field c.order ≡ true

  find-erase :
      (key k : Str) (c : List (Str × M))
      → find k (erase key c) ≡ (if bytes_eq key k then none else find k c)
  unfolding find erase
  find-erase key k [] = ground arith
  find-erase key k ((j, m) ∷ c) =
      ground (arith, bytes_eq_iff key k, bytes_eq_iff j k, bytes_eq_iff j key, find-erase key k c)

  length-set : (key : Str) (m : M) (c : List (Str × M)) → length (set key m c) ≤ length c + 1
  unfolding set
  length-set key m [] = omega arith
  length-set key m ((j, n) ∷ c) = ground (arith, length-set key m c)

  -- every entry of the cache can be evicted
  abbrev IsOrdered : List (Str × M) → List Str → Type 0
  IsOrdered c order = (field : Str) (m : M) → find field c ≡ some m → has_key field order ≡ true

  record Evicted (c : List (Str × M)) (kept : MmapCache M) : Type 0 where
    subset : (field : Str) (m : M) → find field kept.cache ≡ some m → find field c ≡ some m
    room : length kept.cache < mmap_cache_max_entries
    ordered : IsOrdered kept.cache kept.order

  erase-IsOrdered :
      (key : Str) (order : List Str) (c : List (Str × M))
      → IsOrdered c (key ∷ order)
      → IsOrdered (erase key c) order
  erase-IsOrdered key order c h field m found =
      ground (arith, find-erase key field c, h field m, found)

  evict-Evicted :
      (order : List Str) (c : List (Str × M)) → IsOrdered c order → Evicted c (evict order c)
  unfolding evict find
  evict-Evicted [] [] h = record { subset = λ f m e. e; room = omega arith; ordered = h }
  evict-Evicted [] ((k, m) ∷ c) h =
      let gone : false ≡ true = h k m (rw (bytes_eq_refl k) refl) in absurd cc
  evict-Evicted (key ∷ order) c h = elim (Bool-cases (leb mmap_cache_max_entries (length c))) [
    | inl full ↦ rw full (
        let rest = evict-Evicted order (erase key c) (erase-IsOrdered key order c h) in
        record {
          subset = λ f m e. ground (arith, rest.subset f m e, find-erase key f c);
          room = rest.room;
          ordered = rest.ordered;
        })
    | inr small ↦
        rw small (record { subset = λ f m e. e; room = ground (arith, small); ordered = h })
  ]

  module _ (files : Str → Option M) (field : Str) (c : MmapCache M) (v : IsCoherent files c) where
    -- a call whose answer and cache after it are right
    abbrev IsRight : Option M × MmapCache M → Type 0
    IsRight (answer, after) = (answer ≡ files field) × IsCoherent files after

    load_pair-IsRight : (found : Option M) → files field ≡ found → IsRight (load_pair field c found)
    unfolding load_pair
    load_pair-IsRight none e = (sym e, v)
    load_pair-IsRight (some m) e =
        let kept = evict-Evicted c.order c.cache v.ordered in
        (
          sym e,
          record {
            current = λ k n found. elim (Bool-cases (bytes_eq field k)) [
              | inl same ↦
                  let here : n ≡ m =
                    ground (arith, found, same, find-set field k m (evict c.order c.cache).cache) in
                  ap files (sym (bytes_eq→eq field k same)) ∙ e ∙ ap some (sym here)
              | inr other ↦ v.current k n (
                  kept.subset k n (
                    ground (arith, found, other, find-set field k m (evict c.order c.cache).cache)))
            ];
            bounded = omega (arith, length-set field m (evict c.order c.cache).cache, kept.room);
            ordered = λ k n found. ground (
              arith,
              found,
              find-set field k m (evict c.order c.cache).cache,
              kept.ordered k n,
              has_key-snoc k field (evict c.order c.cache).order,
            );
          },
        )

    cached_pair-IsRight :
        (hit : Option M) → find field c.cache ≡ hit → IsRight (cached_pair files field c hit)
    unfolding cached_pair
    cached_pair-IsRight none e = load_pair-IsRight (files field) refl
    cached_pair-IsRight (some m) e = (
      sym (v.current field m e),
      record {
        current = v.current;
        bounded = v.bounded;
        ordered = λ k n found. has_key-touch k field c.order (v.ordered k n found);
      },
    )

  -- A call of `get_mmap_pair` answers what mapping the column's files gives, whether it comes from the
  -- cache or not, if the cache holds what the files give, at most 64 entries, and no entry that the
  -- order lacks; and it leaves such a cache.
  pub get_mmap_pair-IsCoherent :
      (files : Str → Option M) (field : Str) (c : MmapCache M)
      → IsCoherent files c
      → ((get_mmap_pair files field c).0 ≡ files field)
        × IsCoherent files (get_mmap_pair files field c).1
  unfolding get_mmap_pair
  get_mmap_pair-IsCoherent files field c v =
      cached_pair-IsRight files field c v (find field c.cache) refl
