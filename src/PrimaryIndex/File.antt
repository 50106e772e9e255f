-- ===== src/PrimaryIndex/File.antt =====
-- The file of the primary index (src/core/storage/primary_index_io.rs): a header with a version, or
-- none in the oldest files, and a payload by bincode. Log lines are left out.
use bittice.Prelude.{
  bytes_eq, Str, ℕ, suc, ◌-◌, ◌&&◌, ◌==◌, if◌then◌else◌, Option, none, some, List, [], ◌∷◌, ◌++◌,
  length, take, drop, replicate, min, leb, Result, ok, err, ok_or, ◌>>=◌,
}
use bittice.Canonical.{Text, hash}
use bittice.Snapshot.Codec.{Bincode}
use bittice.Snapshot.Format.{index}
use bittice.PrimaryIndex.{PrimaryIndex, Location, new, insert_raw}

abbrev pub primary_idx_magic : List ℕ
primary_idx_magic = b'B' ∷ b'T' ∷ b'P' ∷ b'I' ∷ []

abbrev pub version_v1 : ℕ
version_v1 = 1

abbrev pub version_v2 : ℕ
version_v2 = 2

pub data IndexFileError : Type 0 where
  bad_payload : IndexFileError
  unsupported_version : ℕ → IndexFileError

module _ (codec : Bincode (List (ℕ × Location))) where
  -- `save_primary_index`: the bytes of the file that is renamed into place.
  unfoldable pub save_primary_index : PrimaryIndex → Result IndexFileError (List ℕ)
  save_primary_index idx = do
    payload ← ok_or bad_payload (codec.serialize idx.inner)
    ok (primary_idx_magic ++ ((version_v2 ∷ 0 ∷ 0 ∷ 0 ∷ []) ++ payload))

abbrev pub count_collision : Option Location → ℕ → ℕ
count_collision none n = n
count_collision (some old) n = suc n

module _ (t : Text) where
  -- The loop of `load_v1_migrate`: the index, and the number of collisions.
  unfoldable pub migrate_loop : PrimaryIndex → ℕ → List (Str × Location) → PrimaryIndex × ℕ
  unfolding insert_raw
  migrate_loop idx collisions [] = (idx, collisions)
  migrate_loop idx collisions ((pk, loc) ∷ legacy) =
      let (idx', old) = insert_raw idx (hash t pk) loc in
      migrate_loop idx' (count_collision old collisions) legacy

  module _ (v1 : Bincode (List (Str × Location))) where
    unfoldable pub load_v1_migrate : List ℕ → Result IndexFileError PrimaryIndex
    unfolding migrate_loop new
    load_v1_migrate bytes = do
      legacy ← ok_or bad_payload (v1.deserialize bytes)
      ok (migrate_loop new 0 legacy).0

    module _ (v2 : Bincode (List (ℕ × Location))) where
      -- The match on the version, with what follows the eight bytes that have been read.
      unfoldable pub load_version : ℕ → List ℕ → Result IndexFileError PrimaryIndex
      unfolding load_v1_migrate
      load_version version payload =
          if version == version_v2
          then (do
            inner ← ok_or bad_payload (v2.deserialize payload)
            ok (record { inner = inner }))
          else if version == version_v1
          then load_v1_migrate payload
          else err (unsupported_version version)

      -- `load_primary_index`. A file shorter than eight bytes leaves zeros in the header.
      unfoldable pub load_primary_index : List ℕ → Result IndexFileError PrimaryIndex
      unfolding load_version
      load_primary_index file =
          let n = min 8 (length file) in
          let header = take 8 file ++ replicate (8 - n) 0 in
          if leb 4 n && bytes_eq (take 4 header) primary_idx_magic
          then (do version ← index header 4; load_version version (drop n file))
          else load_v1_migrate file
