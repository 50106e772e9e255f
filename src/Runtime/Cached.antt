-- ===== src/Runtime/Cached.antt =====
-- What the cache of responses returns, and how large it gets (src/server/response_cache.rs).
use bittice.Prelude.{
  ℕ, ◌+◌, ◌-◌, ◌≤◌, ◌<◌, Str, Bool, true, false, ◌&&◌, leb, ltb, Option, none, some, List, [], ◌∷◌,
  if◌then◌else◌, length, bytes_eq, bytes_eq_refl, find, set, find-set, arith, ◌≡◌, refl, ◌∙◌, inl,
  inr, Bool-cases, ◌⊎◌,
}
use bittice.Runtime.ResponseCache.{
  CacheEntry, Store, ResponseCache, is_cacheable_op, enabled, cache_key, remove_entry, oldest_from,
  drop_oldest, put, get, fresh_or_removed, with_store, IsBounded,
}

module _ (Value : Type 0) where
  length-set :
      (k : Str) (e : CacheEntry Value) (m : Store Value) → length (set k e m) ≤ length m + 1
  unfolding set
  length-set k e [] = omega arith
  length-set k e ((j, w) ∷ m) = ground (arith, length-set k e m)

  length-remove_entry : (k : Str) (m : Store Value) → length (remove_entry Value k m) ≤ length m
  unfolding remove_entry
  length-remove_entry k [] = omega arith
  length-remove_entry k ((j, e) ∷ m) = ground (arith, length-remove_entry k m)

  -- A key of the store.
  abbrev IsKey : Str → Store Value → Type 0
  IsKey k [] = ⊥
  IsKey k ((j, e) ∷ m) = (bytes_eq j k ≡ true) ⊎ IsKey k m

  length-remove_entry_lt :
      (k : Str) (m : Store Value) → IsKey k m → length (remove_entry Value k m) < length m
  unfolding remove_entry
  length-remove_entry_lt k [] is_key = absurd is_key
  length-remove_entry_lt k ((j, e) ∷ m) (inl same) =
      rw same (omega (arith, length-remove_entry k m))
  length-remove_entry_lt k ((j, e) ∷ m) (inr later) =
      ground (arith, length-remove_entry k m, length-remove_entry_lt k m later)

  oldest_from-IsKey :
      (best : Str × CacheEntry Value) (m : Store Value)
      → IsKey (oldest_from Value best m) (best ∷ m)
  unfolding oldest_from
  oldest_from-IsKey best [] = inl (bytes_eq_refl best.0)
  oldest_from-IsKey best (x ∷ m) =
      pick (ltb x.1.inserted best.1.inserted) (oldest_from-IsKey x m) (oldest_from-IsKey best m)
    where
      skip : (k : Str) → IsKey k (best ∷ m) → IsKey k (best ∷ x ∷ m)
      skip k (inl first) = inl first
      skip k (inr later) = inr (inr later)

      pick :
          (older : Bool)
          → IsKey (oldest_from Value x m) (x ∷ m)
          → IsKey (oldest_from Value best m) (best ∷ m)
          → IsKey (if older then oldest_from Value x m else oldest_from Value best m) (best ∷ x ∷ m)
      pick true in_rest in_same = inr in_rest
      pick false in_rest in_same = skip (oldest_from Value best m) in_same

  length-drop_oldest : (m : Store Value) → length (drop_oldest Value m) ≤ length m - 1
  unfolding drop_oldest
  length-drop_oldest [] = omega arith
  length-drop_oldest (x ∷ m) =
      omega (arith, length-remove_entry_lt (oldest_from Value x m) (x ∷ m) (oldest_from-IsKey x m))

  -- For every cache of at most `max_entries` entries, or one where that is 0, and every response that is
  -- put into it: the cache afterwards is within this bound.
  pub put-IsBounded :
      (now : ℕ) (op_name : Str) (params : List (Str × Str)) (body : Value) (c : ResponseCache Value)
      → IsBounded Value c
      → IsBounded Value (put Value now op_name params body c)
  unfolding put
  put-IsBounded now op_name params body c small =
      elim (Bool-cases (is_cacheable_op Value op_name c)) [
        | inl cached ↦ rw cached (stored (Bool-cases (leb c.max_entries (length c.store))))
        | inr never ↦ rw never small
      ]
    where
      key : Str
      key = cache_key Value op_name params

      entry : CacheEntry Value
      entry = record { body = body; inserted = now }

      stored :
          ((leb c.max_entries (length c.store)) ≡ true)
            ⊎ ((leb c.max_entries (length c.store)) ≡ false)
          → length (
              set key entry
                (if leb c.max_entries (length c.store) then drop_oldest Value c.store else c.store))
            ≤ (if leb 1 c.max_entries then c.max_entries else 1)
      stored (inl full) = rw full (
          ground (
            arith,
            full,
            small,
            length-drop_oldest c.store,
            length-set key entry (drop_oldest Value c.store),
          ))
      stored (inr room) = rw room (ground (arith, room, small, length-set key entry c.store))

  with_store-is_cacheable_op :
      (op_name : Str) (c : ResponseCache Value) (m : Store Value)
      → is_cacheable_op Value op_name (with_store Value c m) ≡ is_cacheable_op Value op_name c
  unfolding is_cacheable_op enabled
  with_store-is_cacheable_op op_name c m = refl

  get_found :
      (later : ℕ) (op_name : Str) (params : List (Str × Str)) (e : CacheEntry Value)
      (c : ResponseCache Value)
      → is_cacheable_op Value op_name c ≡ true
      → find (cache_key Value op_name params) c.store ≡ some e
      → (get Value later op_name params c).0
        ≡ (if leb (later - e.inserted) c.ttl then some e.body else none)
  unfolding get fresh_or_removed
  get_found later op_name params e c cached found =
      rw (cached, found) (aged (later - e.inserted) c.ttl)
    where
      gone : ResponseCache Value
      gone = with_store Value c (remove_entry Value (cache_key Value op_name params) c.store)

      aged :
          (age ttl : ℕ)
          → (if◌then◌else◌ {A = Option Value × ResponseCache Value}
              (ltb ttl age)
              (none, gone)
              (some e.body, c)).0
            ≡ (if leb age ttl then some e.body else none)
      aged age ttl = ground arith

  put_get :
      (now later : ℕ) (op_name : Str) (params : List (Str × Str)) (body : Value)
      (c : ResponseCache Value) (m : Store Value)
      → is_cacheable_op Value op_name c ≡ true
      → (get Value later op_name params (
          with_store Value c
            (set (cache_key Value op_name params) (record { body = body; inserted = now }) m))).0
        ≡ (if leb (later - now) c.ttl then some body else none)
  put_get now later op_name params body c m cached =
      let key : Str = cache_key Value op_name params in
      let entry : CacheEntry Value = record { body = body; inserted = now } in
      get_found later op_name params entry (with_store Value c (set key entry m))
        (with_store-is_cacheable_op op_name c (set key entry m) ∙ cached)
        (find-set key key entry m ∙ rw (bytes_eq_refl key) refl)

  -- A response that was put into the cache at `now` and is asked for at `later` with the same operation
  -- and parameters, with nothing in between: it is returned if the operation is cacheable and the time
  -- since then is at most the time to live, and else nothing is.
  pub get-put :
      (now later : ℕ) (op_name : Str) (params : List (Str × Str)) (body : Value)
      (c : ResponseCache Value)
      → (get Value later op_name params (put Value now op_name params body c)).0
        ≡ (if is_cacheable_op Value op_name c && leb (later - now) c.ttl then some body else none)
  unfolding put get
  get-put now later op_name params body c = elim (Bool-cases (is_cacheable_op Value op_name c)) [
    | inl cached ↦ rw cached (put_get now later op_name params body c _ cached)
    | inr never ↦ rw (never, never) refl
  ]
