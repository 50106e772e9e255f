-- ===== src/PrimaryIndex/Files.antt =====
-- Loading what was saved, and the older versions of the file.
use bittice.Prelude.{
  bytes_eq, Str, ℕ, suc, ◌+◌, ◌≡◌, ◌≢◌, refl, sym, ◌∙◌, false, ==_refl, none, some, List, [], ◌∷◌,
  ◌++◌, length, All, take, leb, min, ok, err, lookup, insert, lookup-insert, arith, Bool-cases, inl,
  inr, Option-cases,
}
use bittice.Canonical.{Text, hash}
use bittice.Snapshot.Codec.{Bincode, IsLawful}
use bittice.PrimaryIndex.{PrimaryIndex, Location, new, get, insert_raw, len}
use bittice.PrimaryIndex.Keys.{length-insert}
use bittice.PrimaryIndex.File.{
  unsupported_version, primary_idx_magic, version_v1, version_v2, save_primary_index,
  load_primary_index, load_version, load_v1_migrate, migrate_loop, count_collision,
}

module _ (t : Text) (v1 : Bincode (List (Str × Location)))
    (v2 : Bincode (List (ℕ × Location))) where
  -- A file with a header is loaded by its version.
  load_header :
      (version : ℕ) (payload : List ℕ)
      → load_primary_index t v1 v2 (primary_idx_magic ++ ((version ∷ 0 ∷ 0 ∷ 0 ∷ []) ++ payload))
        ≡ load_version t v1 v2 version payload
  unfolding load_primary_index
  load_header version payload =
      let file = primary_idx_magic ++ ((version ∷ 0 ∷ 0 ∷ 0 ∷ []) ++ payload) in
      let whole : min 8 (length file) ≡ 8 = omega arith in rw whole

  -- A file without a header is loaded as version 1.
  load_headless :
      (payload : List ℕ)
      → bytes_eq (take 4 payload) primary_idx_magic ≡ false
      → load_primary_index t v1 v2 payload ≡ load_v1_migrate t v1 payload
  unfolding load_primary_index
  load_headless [] other = refl
  load_headless (a ∷ []) other = refl
  load_headless (a ∷ b ∷ []) other = refl
  load_headless (a ∷ b ∷ c ∷ []) other = refl
  load_headless (a ∷ b ∷ c ∷ d ∷ rest) other =
      elim (Bool-cases (leb 4 (min 8 (length (a ∷ b ∷ c ∷ d ∷ rest))))) [
        | inl long ↦ rw (long, other)
        | inr short ↦ rw short
      ]

  -- With a lawful codec, an index that was saved is loaded again, with the same locations under the same hashes.
  pub load-save_primary_index :
      (lawful : IsLawful v2) (idx : PrimaryIndex) (file : List ℕ)
      → save_primary_index v2 idx ≡ ok file
      → load_primary_index t v1 v2 file ≡ ok idx
  unfolding save_primary_index
  load-save_primary_index lawful idx file h = elim (Option-cases (v2.serialize idx.inner)) [
    | inl none_written ↦ cc (h, none_written)
    | inr (payload, written) ↦
        let same : primary_idx_magic ++ ((version_v2 ∷ 0 ∷ 0 ∷ 0 ∷ []) ++ payload) ≡ file =
          ground (arith, h, written) in
        rw (← same) (
          load_header version_v2 payload
          ∙ unfold load_version in rw (lawful.deserialize-serialize idx.inner payload written))
  ]

  -- A file of version 1 loads as its payload does in a file of the oldest form, without a header,
  -- provided that this does not start with the magic; and a version other than 1 and 2 is refused.
  pub load_older :
      (payload : List ℕ) (version : ℕ)
      → bytes_eq (take 4 payload) primary_idx_magic ≡ false
      → version ≢ version_v1
      → version ≢ version_v2
      → (load_primary_index t v1 v2
            (primary_idx_magic ++ ((version_v1 ∷ 0 ∷ 0 ∷ 0 ∷ []) ++ payload))
          ≡ load_primary_index t v1 v2 payload)
        × (load_primary_index t v1 v2 (primary_idx_magic ++ ((version ∷ 0 ∷ 0 ∷ 0 ∷ []) ++ payload))
            ≡ err (unsupported_version version))
  unfolding load_version
  load_older payload version other no1 no2 = (
    load_header version_v1 payload ∙ sym (load_headless payload other),
    load_header version payload ∙ ground arith,
  )

module _ (t : Text) where
  -- The hash of a key is not among those of the list.
  abbrev IsNew : Str → List (Str × Location) → Type 0
  IsNew pk legacy = All (λ e. hash t e.0 ≢ hash t pk) legacy

  -- The keys of the list have different hashes.
  abbrev pub IsApart : List (Str × Location) → Type 0
  IsApart [] = Unit
  IsApart ((pk, loc) ∷ legacy) = IsNew pk legacy × IsApart legacy

  -- no key of the list is in the index
  abbrev IsFresh : PrimaryIndex → List (Str × Location) → Type 0
  IsFresh idx legacy = All (λ e. get t idx e.0 ≡ none) legacy

  migrate_loop-keeps :
      (idx : PrimaryIndex) (n : ℕ) (legacy : List (Str × Location)) (pk : Str)
      → IsNew pk legacy
      → get t (migrate_loop t idx n legacy).0 pk ≡ get t idx pk
  unfolding migrate_loop get insert_raw
  migrate_loop-keeps idx n [] pk apart = refl
  migrate_loop-keeps idx n ((other, loc) ∷ legacy) pk (ne, apart) =
      migrate_loop-keeps (insert_raw idx (hash t other) loc).0
        (count_collision (insert_raw idx (hash t other) loc).1 n) legacy pk apart
      ∙ (lookup-insert (hash t other) (hash t pk) loc idx.inner ∙ ground arith)

  -- a key that is inserted touches no other hash
  insert_raw-IsFresh :
      (idx : PrimaryIndex) (pk : Str) (loc : Location) (legacy : List (Str × Location))
      → IsNew pk legacy
      → IsFresh idx legacy
      → IsFresh (insert_raw idx (hash t pk) loc).0 legacy
  unfolding get insert_raw
  insert_raw-IsFresh idx pk loc [] ne fresh = tt
  insert_raw-IsFresh idx pk loc ((other, at) ∷ legacy) (apart, ne) (free, fresh) = (
    lookup-insert (hash t pk) (hash t other) loc idx.inner ∙ ground arith,
    insert_raw-IsFresh idx pk loc legacy ne fresh,
  )

  migrate_loop-found :
      (idx : PrimaryIndex) (n : ℕ) (legacy : List (Str × Location))
      → IsApart legacy
      → IsFresh idx legacy
      → All (λ e. get t (migrate_loop t idx n legacy).0 e.0 ≡ some e.1) legacy
        × ((migrate_loop t idx n legacy).1 ≡ n)
        × (len (migrate_loop t idx n legacy).0 ≡ len idx + length legacy)
  unfolding migrate_loop insert_raw len
  migrate_loop-found idx n [] apart fresh = (tt, refl, omega arith)
  migrate_loop-found idx n ((pk, loc) ∷ legacy) (ne, apart) (free, fresh) =
      let idx' : PrimaryIndex = record { inner = insert (hash t pk) loc idx.inner } in
      let empty : lookup (hash t pk) idx.inner ≡ none = unfold get in free in
      let same : count_collision (lookup (hash t pk) idx.inner) n ≡ n = rw empty in
      let (found, collisions, count) =
        migrate_loop-found idx' (count_collision (lookup (hash t pk) idx.inner) n) legacy apart
          (insert_raw-IsFresh idx pk loc legacy ne fresh) in
      (
        (
          migrate_loop-keeps idx' (count_collision (lookup (hash t pk) idx.inner) n) legacy pk ne
              ∙ head,
          found,
        ),
        collisions ∙ same,
        (let long : len idx' ≡ suc (len idx) = length-insert (hash t pk) loc idx.inner ∙ rw empty in
            omega arith),
      )
    where
      head : get t (record { inner = insert (hash t pk) loc idx.inner }) pk ≡ some loc
      head =
          unfold get in
          (lookup-insert (hash t pk) (hash t pk) loc idx.inner ∙ rw (==_refl (hash t pk)))

  -- Loading a payload of version 1, whose keys have different hashes, gives an index with every key of
  -- the payload at its location, and no other entry.
  pub load_v1_migrate-found :
      (v1 : Bincode (List (Str × Location))) (bytes : List ℕ) (legacy : List (Str × Location))
      → v1.deserialize bytes ≡ some legacy
      → IsApart legacy
      → (idx : PrimaryIndex) × (load_v1_migrate t v1 bytes ≡ ok idx)
        × All (λ e. get t idx e.0 ≡ some e.1) legacy
        × (len idx ≡ length legacy)
  unfolding load_v1_migrate get new lookup len
  load_v1_migrate-found v1 bytes legacy decodes apart =
      let (found, collisions, count) = migrate_loop-found new 0 legacy apart (none_in legacy) in
      ((migrate_loop t new 0 legacy).0, rw decodes, found, count ∙ omega arith)
    where
      none_in : (m : List (Str × Location)) → IsFresh new m
      none_in [] = tt
      none_in (x ∷ m) = (refl, none_in m)
