-- ===== src/PrimaryIndex.antt =====
-- The primary key index (src/core/storage/primary_index.rs): where the row of a key is, by the key's
-- hash. PrimaryIndex.File is the file that it is kept in.
pub mod Keys
pub mod File
pub mod Files
use bittice.Prelude.{
  is_some, Str, ℕ, suc, ◌+◌, ◌==◌, Bool, true, false, Option, none, some, List, [], ◌∷◌, length,
  lookup, insert, remove,
}
use bittice.Canonical.{Text, hash}

-- A segment and a row in it.
abbrev pub Location : Type 0
Location = ℕ × ℕ

pub record PrimaryIndex : Type 0 where
  pub inner : List (ℕ × Location)

unfoldable pub new : PrimaryIndex
new = record { inner = [] }

-- `insert_raw`: the new index, and the location that it replaces.
unfoldable pub insert_raw : PrimaryIndex → ℕ → Location → PrimaryIndex × Option Location
insert_raw idx h loc = (record { inner = insert h loc idx.inner }, lookup h idx.inner)

unfoldable pub is_empty : PrimaryIndex → Bool
is_empty idx = length idx.inner == 0

unfoldable pub len : PrimaryIndex → ℕ
len idx = length idx.inner

module _ (t : Text) where
  unfoldable pub insert_key : PrimaryIndex → Str → Location → PrimaryIndex × Option Location
  unfolding insert_raw
  insert_key idx pk loc = insert_raw idx (hash t pk) loc

  unfoldable pub get : PrimaryIndex → Str → Option Location
  get idx pk = lookup (hash t pk) idx.inner

  unfoldable pub remove_key : PrimaryIndex → Str → PrimaryIndex × Option Location
  remove_key idx pk =
      (record { inner = remove (hash t pk) idx.inner }, lookup (hash t pk) idx.inner)

  unfoldable pub contains_key : PrimaryIndex → Str → Bool
  contains_key idx pk = is_some (lookup (hash t pk) idx.inner)
