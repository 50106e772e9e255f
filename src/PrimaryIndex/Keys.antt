-- ===== src/PrimaryIndex/Keys.antt =====
-- The index as a map on keys up to Unicode normalization.
use bittice.Prelude.{
  is_some, Str, ℕ, suc, ◌≡◌, refl, ap, ◌∙◌, ◌==◌, ==_refl, if◌then◌else◌, none, some, List, [], ◌∷◌,
  length, lookup, insert, lookup-insert, lookup-remove, arith,
}
use bittice.Canonical.{Text, IsUnicode, hash, hash-nfc}
use bittice.PrimaryIndex.{PrimaryIndex, Location, insert_key, get, remove_key, contains_key, len}

pub length-insert :
    {V : Type 0} (k : ℕ) (v : V) (m : List (ℕ × V))
    → length (insert k v m) ≡ (if is_some (lookup k m) then length m else suc (length m))
unfolding lookup insert
length-insert k v [] = refl
length-insert k v ((j, w) ∷ m) = ground (arith, length-insert k v m)

module _ (t : Text) where
  -- After an insertion every key has what it had, except the keys with the hash of the inserted one,
  -- which have the new location; the call returns what the inserted key had, and the number of
  -- entries grows by one exactly if it had nothing.
  pub get-insert_key :
      (idx : PrimaryIndex) (pk : Str) (loc : Location)
      → ((other : Str)
          → get t (insert_key t idx pk loc).0 other
            ≡ (if hash t pk == hash t other then some loc else get t idx other))
        × ((insert_key t idx pk loc).1 ≡ get t idx pk)
        × (len (insert_key t idx pk loc).0
            ≡ (if contains_key t idx pk then len idx else suc (len idx)))
  unfolding get insert_key len contains_key
  get-insert_key idx pk loc = (
    λ other. lookup-insert (hash t pk) (hash t other) loc idx.inner,
    refl,
    length-insert (hash t pk) loc idx.inner,
  )

  -- After a removal the keys with the hash of the removed one have nothing, and every other key has
  -- what it had; the call returns what the removed key had.
  pub get-remove_key :
      (idx : PrimaryIndex) (pk : Str)
      → ((other : Str)
          → get t (remove_key t idx pk).0 other
            ≡ (if hash t pk == hash t other then none else get t idx other))
        × ((remove_key t idx pk).1 ≡ get t idx pk)
  unfolding get remove_key
  get-remove_key idx pk = (λ other. lookup-remove (hash t pk) (hash t other) idx.inner, refl)

  -- Where normalization behaves as documented, two spellings of a key with the same normal form name the same row: what is inserted under one is
  -- found under the other, and removing the other takes it away from the first.
  pub get-nfc :
      (u : IsUnicode t) (idx : PrimaryIndex) (a b : Str) (loc : Location)
      → t.nfc a ≡ t.nfc b
      → (get t (insert_key t idx a loc).0 b ≡ some loc) × (get t (remove_key t idx b).0 a ≡ none)
  get-nfc u idx a b loc same =
      let eq : hash t a ≡ hash t b = (hash-nfc t u a b same).0 in
      let hit : (hash t a == hash t b) ≡ (hash t b == hash t b) = ap (λ h. h == hash t b) eq in
      let back : (hash t b == hash t a) ≡ (hash t b == hash t b) = ap (λ h. hash t b == h) eq in
      (
        (get-insert_key idx a loc).0 b ∙ rw (hit, ==_refl (hash t b)),
        (get-remove_key idx b).0 a ∙ rw (back, ==_refl (hash t b)),
      )
