-- ===== src/Snapshot/Contents.antt =====
-- Lookups and iteration over a snapshot whose index entries point at serialized values.
use native.Mathlib.Nat.{mod-eq_of_lt, add-zero}
use mathlib.Core.Path.{subst}
use mathlib.Core.Option.{some-injective}
use bittice.Prelude.{
  ℕ, suc, ◌+◌, ◌≤◌, ◌<◌, ◌≡◌, refl, ap, ap₂, sym, ◌∙◌, some, List, [], ◌∷◌, ◌++◌, append_assoc,
  length, length-append, get_elem?, slice, ◌==◌, slice-append, arith, ok, lookup, Bool-cases, inl,
  inr, map,
}
use bittice.Bytes.{u64_mod}
use bittice.Snapshot.Codec.{Bincode, IsLawful}
use bittice.Snapshot.Format.{IndexEntry, header_size, write_header}
use bittice.Snapshot.Format.RoundTrip.{length-write_header}
use bittice.Snapshot.Writer.{write_entries}
use bittice.Snapshot.Reader.{
  SnapshotReader, checked_slice, read_index_entry, read_bitmaps, get, iter_entry, iter_from,
  iter_entries, get_found,
}
use bittice.Snapshot.Sorted.{IsSorted, entry_of}
use bittice.Snapshot.Search.{Decodes, find_entry-entry_of, get_elem?-lt-length}
use bittice.Snapshot.Layout.{concat, index_of, Serializes, Fits}
use bittice.Snapshot.Written.{header_of, reader_of, length-file_of}
use bittice.Snapshot.Decoded.{checked_slice-within}

module _ {ℓ} {V : Type ℓ} (c : Bincode V) where
  -- Each index entry has the hash of its value, and what it points to deserializes to the value.
  pub data Points (r : SnapshotReader) : List (ℕ × V) → List IndexEntry → Type ℓ where
    nil : Points r [] []
    cons :
        {h : ℕ} {v : V} {e : IndexEntry} {es : List (ℕ × V)} {idx : List IndexEntry}
        → e.hash ≡ h
        → read_bitmaps c r e ≡ ok v
        → Points r es idx
        → Points r ((h, v) ∷ es) (e ∷ idx)

module _ {ℓ} {V : Type ℓ} (c : Bincode V) (r : SnapshotReader) where
  -- The entry that the scan finds leads to the value that the map has.
  entry_of-lookup :
      {es : List (ℕ × V)} {idx : List IndexEntry} (hash : ℕ)
      → Points c r es idx
      → get_found c r (entry_of hash idx) ≡ ok (lookup hash es)
  unfolding entry_of lookup get_found
  entry_of-lookup hash nil = refl
  entry_of-lookup hash (cons {h = k} {v = v} {e = e} {es = es} {idx = idx} same reads p) =
      elim (Bool-cases (k == hash)) [
        | inl hit ↦ simp (same, hit, reads)
        | inr miss ↦ simp (same, miss) (entry_of-lookup hash p)
      ]

  -- On a sorted snapshot `get` is the lookup in what was written.
  pub get-lookup :
      {es : List (ℕ × V)} {idx : List IndexEntry} (hash : ℕ)
      → Decodes r idx
      → IsSorted idx
      → Points c r es idx
      → get c r hash ≡ ok (lookup hash es)
  unfolding get
  get-lookup {es} {idx} hash d sorted p =
      rw (find_entry-entry_of r idx hash d sorted) (entry_of-lookup hash p)

  iter_from-map :
      {es : List (ℕ × V)} {idx : List IndexEntry} (i : ℕ)
      → Points c r es idx
      → ((j : ℕ) (e : IndexEntry) → get_elem? idx j ≡ some e → read_index_entry r (i + j) ≡ ok e)
      → iter_from c r i (length idx) ≡ map ok es
  unfolding iter_from iter_entry
  iter_from-map i nil reads = refl
  iter_from-map i (cons {h = k} {v = v} {e = e} {es = es} {idx = idx} same value p) reads =
      ap₂ (λ x y. x ∷ y) (simp (first, value, same))
        (iter_from-map (i + 1) p
          (λ j f h. ap (read_index_entry r) (omega arith) ∙ reads (suc j) f h))
    where
      first : read_index_entry r i ≡ ok e
      first = ap (read_index_entry r) (sym (add-zero i)) ∙ reads 0 e refl

  -- Iteration yields every value that was written, in the order of the index.
  pub iter_entries-map :
      {es : List (ℕ × V)} {idx : List IndexEntry}
      → Decodes r idx
      → Points c r es idx
      → iter_entries c r ≡ map ok es
  unfolding iter_entries
  iter_entries-map {es} {idx} d p =
      ap (iter_from c r 0) d.num_entries
      ∙ iter_from-map 0 p (λ j e h.
        let (f, reads, at) = d.reads j (get_elem?-lt-length idx j e h) in
        ap (read_index_entry r) (omega arith) ∙ reads ∙ ap ok (some-injective f e (sym at ∙ h)))

-- The index entries of a file point at the serialized values, wherever the row of values stands.
index_of-Points {ℓ} :
    {V : Type ℓ} (c : Bincode V) (lawful : IsLawful c) (r : SnapshotReader) (pre tail : List ℕ)
    (es : List (ℕ × V)) (bs : List (List ℕ))
    → Serializes c es bs
    → r.mmap ≡ pre ++ (concat bs ++ tail)
    → length r.mmap < u64_mod
    → Points c r es (index_of (length pre) es bs)
unfolding read_bitmaps
index_of-Points c lawful r pre tail [] [] s eq small = nil
index_of-Points c lawful r pre tail [] (b ∷ bs) s eq small = absurd s
index_of-Points c lawful r pre tail (x ∷ es) [] s eq small = absurd s
index_of-Points c lawful r pre tail ((k, v) ∷ es) (b ∷ bs) s eq small =
    cons refl (rw (mod-eq_of_lt fits, within) (rw (lawful.deserialize-serialize v b s.0))) (
      let rest : Points c r es (index_of (length (pre ++ b)) es bs) =
        index_of-Points c lawful r (pre ++ b) tail es bs s.1
          (eq
            ∙ ap (λ t. pre ++ t) (append_assoc b (concat bs) tail)
            ∙ sym (append_assoc pre b (concat bs ++ tail)))
          small in
      subst (λ n. Points c r es (index_of n es bs)) (length-append pre b) rest)
  where
    row : r.mmap ≡ pre ++ (b ++ (concat bs ++ tail))
    row = eq ∙ ap (λ t. pre ++ t) (append_assoc b (concat bs) tail)

    long : length pre + length b ≤ length r.mmap
    long = omega (
      arith,
      ap length row,
      length-append pre (b ++ (concat bs ++ tail)),
      length-append b (concat bs ++ tail),
    )

    fits : length pre + length b < u64_mod
    fits = omega (arith, long)

    within : checked_slice r.mmap (length pre) (length pre + length b) ≡ ok b
    within =
        checked_slice-within r.mmap (length pre) (length pre + length b) (omega arith) long
        ∙ ap (λ m. ok (slice (length pre) (length pre + length b) m)) row
        ∙ ap ok
            (slice-append (length pre) (length pre + length b) pre b (concat bs ++ tail) refl refl)

-- What the reader makes of a written file points at what was written.
pub reader_of-Points {ℓ} :
    {V : Type ℓ} (c : Bincode V) (lawful : IsLawful c) (es : List (ℕ × V)) (bs : List (List ℕ))
    → Serializes c es bs
    → Fits es bs
    → Points c (reader_of es bs) es (index_of header_size es bs)
reader_of-Points c lawful es bs s fits = rw (length-write_header (header_of es bs)) at (
    index_of-Points c lawful (reader_of es bs) (write_header (header_of es bs))
      (write_entries (index_of header_size es bs)) es bs s refl
      (omega (arith, length-file_of es bs c s, fits.total)))
