-- ===== src/Runtime/ResponseCache.antt =====
-- The cache of responses (src/server/response_cache.rs). Instants are numbers of a clock, and a response
-- is of any type. A map of parameters is the list of its pairs, in the order of the keys.
use bittice.Prelude.{
  is_nil, ℕ, ◌-◌, ◌≤◌, Str, codes, Bool, not, ◌&&◌, ◌==◌, leb, ltb, Option, none, some, List, [],
  ◌∷◌, ◌++◌, if◌then◌else◌, length, bytes_eq, find, set, any_of,
}

module _ (Value : Type 0) where
  pub record CacheEntry : Type 0 where
    pub body : Value
    pub inserted : ℕ

  abbrev pub Store : Type 0
  Store = List (Str × CacheEntry)

  pub record ResponseCache : Type 0 where
    pub ttl : ℕ
    pub ops : List Str
    pub max_entries : ℕ
    pub store : Store

  unfoldable pub enabled : ResponseCache → Bool
  enabled c = not (c.ttl == 0) && not (is_nil c.ops)

  unfoldable pub is_cacheable_op : Str → ResponseCache → Bool
  unfolding any_of enabled
  is_cacheable_op op_name c = enabled c && any_of (λ op. bytes_eq op op_name) c.ops

  -- `qs.join("&")` of the pairs.
  unfoldable pub query_text : List (Str × Str) → Str
  query_text [] = []
  query_text ((k, v) ∷ []) = k ++ (codes "=" ++ v)
  query_text ((k, v) ∷ next ∷ pairs) =
      k ++ (codes "=" ++ (v ++ (codes "&" ++ query_text (next ∷ pairs))))

  unfoldable pub cache_key : Str → List (Str × Str) → Str
  unfolding query_text
  cache_key op_name params = op_name ++ (codes "?" ++ query_text params)

  unfoldable pub remove_entry : Str → Store → Store
  remove_entry k [] = []
  remove_entry k ((j, e) ∷ m) =
      let rest = remove_entry k m in if bytes_eq j k then rest else (j, e) ∷ rest

  -- `min_by_key(|(_, v)| v.inserted)`: the first of the oldest entries.
  unfoldable pub oldest_from : Str × CacheEntry → Store → Str
  oldest_from best [] = best.0
  oldest_from best (x ∷ m) =
      let same = oldest_from best m in
      let older = oldest_from x m in if ltb x.1.inserted best.1.inserted then older else same

  unfoldable pub drop_oldest : Store → Store
  unfolding oldest_from remove_entry
  drop_oldest [] = []
  drop_oldest (x ∷ m) = remove_entry (oldest_from x m) (x ∷ m)

  abbrev pub with_store : ResponseCache → Store → ResponseCache
  with_store c store = record {
    ttl = c.ttl;
    ops = c.ops;
    max_entries = c.max_entries;
    store = store;
  }

  unfoldable pub put : ℕ → Str → List (Str × Str) → Value → ResponseCache → ResponseCache
  unfolding is_cacheable_op cache_key drop_oldest set
  put now op_name params body c =
      let room = if leb c.max_entries (length c.store) then drop_oldest c.store else c.store in
      if not (is_cacheable_op op_name c)
      then c
      else with_store c
          (set (cache_key op_name params) (record { body = body; inserted = now }) room)

  unfoldable pub fresh_or_removed :
      ℕ → Str → ResponseCache → Option CacheEntry → Option Value × ResponseCache
  unfolding remove_entry
  fresh_or_removed now key c none = (none, c)
  fresh_or_removed now key c (some e) =
      if ltb c.ttl (now - e.inserted)
      then (none, with_store c (remove_entry key c.store))
      else (some e.body, c)

  unfoldable pub get : ℕ → Str → List (Str × Str) → ResponseCache → Option Value × ResponseCache
  unfolding is_cacheable_op cache_key find fresh_or_removed
  get now op_name params c =
      let key = cache_key op_name params in
      let found = fresh_or_removed now key c (find key c.store) in
      if not (is_cacheable_op op_name c) then (none, c) else found

  unfoldable pub clear : ResponseCache → ResponseCache
  clear c = with_store c []

  -- The cache has at most `max_entries` entries, or one where that is 0.
  abbrev pub IsBounded : ResponseCache → Type 0
  IsBounded c = length c.store ≤ (if leb 1 c.max_entries then c.max_entries else 1)
