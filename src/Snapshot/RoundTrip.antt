-- ===== src/Snapshot/RoundTrip.antt =====
-- A snapshot that was written from ascending hashes is read back as the map that it was written from.
use bittice.Prelude.{ℕ, ◌+◌, ◌<◌, ◌≡◌, refl, List, [], ◌∷◌, length, All, ok, lookup, map}
use bittice.Snapshot.Codec.{Bincode, IsLawful}
use bittice.Snapshot.Format.{IndexEntry, header_size}
use bittice.Snapshot.Writer.{start, write_exact_index_v3}
use bittice.Snapshot.Reader.{SnapshotReader, open_snapshot, get, iter_entries}
use bittice.Snapshot.Sorted.{IsSorted}
use bittice.Snapshot.Layout.{index_of, Serializes, Fits, write_blobs}
use bittice.Snapshot.Written.{file_of, reader_of, write-file_of, open-file_of}
use bittice.Snapshot.Decoded.{reader_of-Decodes}
use bittice.Snapshot.Contents.{get-lookup, iter_entries-map, reader_of-Points}

-- The writer's precondition: the hashes strictly ascend.
abbrev pub IsAscending {ℓ} : {V : Type ℓ} → List (ℕ × V) → Type 0
IsAscending [] = Unit
IsAscending (x ∷ es) = All (λ y. x.0 < y.0) es × IsAscending es

index_of-All {ℓ} :
    {V : Type ℓ} (c : Bincode V) (k off : ℕ) (es : List (ℕ × V)) (bs : List (List ℕ))
    → Serializes c es bs
    → All (λ y. k < y.0) es
    → All (λ (e : IndexEntry). k < e.hash) (index_of off es bs)
index_of-All c k off [] [] s a = tt
index_of-All c k off [] (b ∷ bs) s a = absurd s
index_of-All c k off (x ∷ es) [] s a = absurd s
index_of-All c k off ((h, v) ∷ es) (b ∷ bs) s a =
    (a.0, index_of-All c k (off + length b) es bs s.1 a.1)

index_of-IsSorted {ℓ} :
    {V : Type ℓ} (c : Bincode V) (off : ℕ) (es : List (ℕ × V)) (bs : List (List ℕ))
    → Serializes c es bs
    → IsAscending es
    → IsSorted (index_of off es bs)
index_of-IsSorted c off [] [] s a = tt
index_of-IsSorted c off [] (b ∷ bs) s a = absurd s
index_of-IsSorted c off (x ∷ es) [] s a = absurd s
index_of-IsSorted c off ((h, v) ∷ es) (b ∷ bs) s a = (
  index_of-All c h (off + length b) es bs s.1 a.0,
  index_of-IsSorted c (off + length b) es bs s.1 a.1,
)

module _ {ℓ} {V : Type ℓ} (c : Bincode V) where
  -- The reader shows exactly the pairs `es`: by hash, and by iteration.
  pub record Shows (r : SnapshotReader) (es : List (ℕ × V)) : Type ℓ where
    pub lookups : (hash : ℕ) → get c r hash ≡ ok (lookup hash es)
    pub items : iter_entries c r ≡ map ok es
    pub count : r.num_entries ≡ length es

  pub reader_of-Shows :
      (lawful : IsLawful c) (es : List (ℕ × V)) (bs : List (List ℕ))
      → Serializes c es bs
      → Fits es bs
      → IsAscending es
      → Shows (reader_of es bs) es
  reader_of-Shows lawful es bs s fits ascending = record {
    lookups = λ hash.
        get-lookup c (reader_of es bs) hash (reader_of-Decodes c es bs s fits)
          (index_of-IsSorted c header_size es bs s ascending)
          (reader_of-Points c lawful es bs s fits);
    items =
        iter_entries-map c (reader_of es bs) (reader_of-Decodes c es bs s fits)
          (reader_of-Points c lawful es bs s fits);
    count = refl;
  }

  -- With a lawful codec, for pairs in strictly ascending hash order whose values serialize to `bs`, and that fit the
  -- format's integers, the writer succeeds, the file that it returns opens, every lookup in the
  -- opened file returns what the list of pairs has for the hash (none for an absent hash), and
  -- iteration returns the pairs in order.
  pub write-open-Shows :
      (lawful : IsLawful c) (es : List (ℕ × V)) (bs : List (List ℕ))
      → Serializes c es bs
      → Fits es bs
      → IsAscending es
      → (file : List ℕ) × (warnings : ℕ) × (write_exact_index_v3 c es ≡ ok (file, warnings))
        × (r : SnapshotReader) × (open_snapshot file ≡ ok r)
        × Shows r es
  write-open-Shows lawful es bs s fits ascending = (
    file_of es bs,
    (write_blobs start es bs).warnings,
    write-file_of es bs c s fits,
    reader_of es bs,
    open-file_of es bs c s fits,
    reader_of-Shows lawful es bs s fits ascending,
  )
