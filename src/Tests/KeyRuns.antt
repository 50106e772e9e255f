-- ===== src/Tests/KeyRuns.antt =====
-- The primary index: a small codec, runs, and the theorems at concrete inputs.
use mathlib.Core.Option.{some-injective}
use bittice.Prelude.{
  codes, Str, ℕ, ◌≡◌, refl, sym, ap, ◌∙◌, Option, none, some, List, [], ◌∷◌, ◌++◌, arith, ok, err,
}
use bittice.Bytes.{from_le_bytes}
use bittice.Canonical.{hash, canonical_bytes}
use bittice.Snapshot.Codec.{Bincode, IsLawful}
use bittice.PrimaryIndex.{PrimaryIndex, Location}
use bittice.PrimaryIndex.File.{
  unsupported_version, primary_idx_magic, save_primary_index, load_primary_index, load_version,
}
use bittice.PrimaryIndex.Files.{IsApart, load-save_primary_index}
use bittice.Tests.Crates.{ascii}

-- A hash, a segment and a row, one number for each.
abbrev put : List (ℕ × Location) → List ℕ
put [] = []
put ((h, (s, l)) ∷ m) = h ∷ s ∷ l ∷ put m

abbrev take_entry : ℕ → ℕ → ℕ → Option (List (ℕ × Location)) → Option (List (ℕ × Location))
take_entry h s l none = none
take_entry h s l (some m) = some ((h, (s, l)) ∷ m)

abbrev take_entries : List ℕ → Option (List (ℕ × Location))
take_entries [] = some []
take_entries (h ∷ s ∷ l ∷ bytes) = take_entry h s l (take_entries bytes)
take_entries _ = none

abbrev triples : Bincode (List (ℕ × Location))
triples = record { serialize = λ m. some (put m); deserialize = take_entries }

take_entries-put : (m : List (ℕ × Location)) → take_entries (put m) ≡ some m
take_entries-put [] = refl
take_entries-put ((h, (s, l)) ∷ m) = ap (take_entry h s l) (take_entries-put m)

triples-IsLawful : IsLawful triples
triples-IsLawful = record {
  deserialize-serialize =
      λ m bytes h. ap take_entries (sym (some-injective (put m) bytes h)) ∙ take_entries-put m;
}

-- A payload of one byte holds two keys of that segment.
abbrev old_keys : List ℕ → Option (List (Str × Location))
old_keys (s ∷ []) = some (((codes "a"), (s, 0)) ∷ ((codes "b"), (s, 1)) ∷ [])
old_keys _ = none

abbrev old_format : Bincode (List (Str × Location))
old_format = record { serialize = λ m. none; deserialize = old_keys }

abbrev keys : PrimaryIndex
keys = record { inner = (97, (1, 0)) ∷ (98, (1, 1)) ∷ [] }

abbrev keys_file : List ℕ
keys_file = primary_idx_magic ++ (2 ∷ 0 ∷ 0 ∷ 0 ∷ 97 ∷ 1 ∷ 0 ∷ 98 ∷ 1 ∷ 1 ∷ [])

save_run : save_primary_index triples keys ≡ ok keys_file
unfolding save_primary_index
save_run = refl

-- A header of four bytes reads as version 0.
short_run :
    load_primary_index ascii old_format triples primary_idx_magic ≡ err (unsupported_version 0)
unfolding load_primary_index load_version
short_run = refl

load-save_primary_index_example : load_primary_index ascii old_format triples keys_file ≡ ok keys
load-save_primary_index_example =
    load-save_primary_index ascii old_format triples triples-IsLawful keys keys_file save_run

abbrev five_keys : List (Str × Location)
five_keys = ((codes "a"), (5, 0)) ∷ ((codes "b"), (5, 1)) ∷ []

apart : IsApart ascii five_keys
unfolding hash canonical_bytes from_le_bytes
apart = (((λ h. omega (arith, h)), tt), (tt, tt))
