-- ===== src/Snapshot/Decoded.antt =====
-- Reading the sections of a written file: the index entries, and the bytes that they point to.
use mathlib.Core.Path.{ap₂}
use mathlib.Core.Option.{some-injective}
use native.Mathlib.Nat.{mod-eq_of_lt}
use bittice.Prelude.{
  ℕ, zero, suc, ◌+◌, ◌*◌, ◌≤◌, ◌<◌, ◌≡◌, refl, ap, sym, ◌∙◌, some, List, [], ◌∷◌, ◌++◌,
  append_assoc, length, length-append, get_elem?, slice, slice-append, All, arith, ok, le→ltb,
}
use bittice.Bytes.{u32_mod, u64_mod, u128_mod}
use bittice.Snapshot.Codec.{Bincode}
use bittice.Snapshot.Format.{
  IndexEntry, EntryFits, parse_entry, write_entry, write_header, header_size, index_entry_size,
}
use bittice.Snapshot.Format.RoundTrip.{length-write_header, length-write_entry, parse-write_entry}
use bittice.Snapshot.Writer.{write_entries}
use bittice.Snapshot.Reader.{checked_slice, read_index_entry}
use bittice.Snapshot.Sorted.{All-get_elem?}
use bittice.Snapshot.Search.{Decodes}
use bittice.Snapshot.Layout.{concat, index_of, Serializes, Fits, length-index_of}
use bittice.Snapshot.Written.{header_of, file_of, reader_of, length-file_of}

-- A slice within the file is returned.
pub checked_slice-within :
    (mmap : List ℕ) (start end : ℕ)
    → start ≤ end
    → end ≤ length mmap
    → checked_slice mmap start end ≡ ok (slice start end mmap)
unfolding checked_slice
checked_slice-within mmap start end h k = rw (le→ltb (length mmap) end k, le→ltb end start h)

-- The bytes of the entry at `i`.
entries_slice :
    (pre : List ℕ) (es : List IndexEntry) (i : ℕ) (e : IndexEntry)
    → get_elem? es i ≡ some e
    → slice
        (length pre + i * index_entry_size)
        (length pre + i * index_entry_size + index_entry_size)
        (pre ++ write_entries es)
      ≡ write_entry e
unfolding write_entries
entries_slice pre [] i e h = cc
entries_slice pre (x ∷ es) zero e h =
    slice-append (length pre + 0) (length pre + 0 + index_entry_size) pre (write_entry x)
      (write_entries es) (omega arith) (omega (arith, length-write_entry x))
    ∙ ap write_entry (some-injective x e h)
entries_slice pre (x ∷ es) (suc i) e h =
    let shift : length (pre ++ write_entry x) ≡ length pre + index_entry_size =
      omega (arith, length-append pre (write_entry x), length-write_entry x) in
    rw (← append_assoc pre (write_entry x) (write_entries es)) (
      ap₂ (λ a b. slice a b ((pre ++ write_entry x) ++ write_entries es)) (omega (arith, shift))
        (omega (arith, shift))
      ∙ entries_slice (pre ++ write_entry x) es i e h)

get_elem?-within :
    (es : List IndexEntry) (i : ℕ) → i < length es → (e : IndexEntry) × (get_elem? es i ≡ some e)
get_elem?-within [] i h = absurd (omega arith)
get_elem?-within (x ∷ es) zero h = (x, refl)
get_elem?-within (x ∷ es) (suc i) h = get_elem?-within es i (omega arith)

index_of-EntryFits {ℓ} :
    {V : Type ℓ} (c : Bincode V) (off : ℕ) (es : List (ℕ × V)) (bs : List (List ℕ))
    → Serializes c es bs
    → All (λ e. e.0 < u128_mod) es
    → All (λ b. length b < u32_mod) bs
    → off + length (concat bs) < u64_mod
    → All EntryFits (index_of off es bs)
index_of-EntryFits c off [] [] s hs small fits = tt
index_of-EntryFits c off [] (b ∷ bs) s hs small fits = absurd s
index_of-EntryFits c off (x ∷ es) [] s hs small fits = absurd s
index_of-EntryFits c off ((k, v) ∷ es) (b ∷ bs) s hs small fits =
    let total = length-append b (concat bs) in
    (
      record { hash = hs.0; offset = omega arith; length = small.0 },
      index_of-EntryFits c (off + length b) es bs s.1 hs.1 small.1 (omega (arith, total)),
    )

module _ {ℓ} {V : Type ℓ} (c : Bincode V) (es : List (ℕ × V)) (bs : List (List ℕ))
    (s : Serializes c es bs) (fits : Fits es bs) where
  -- everything that stands in front of the index section
  abbrev front : List ℕ
  front = write_header (header_of es bs) ++ concat bs

  length-front : length front ≡ header_size + length (concat bs)
  length-front = omega (
    arith,
    length-append (write_header (header_of es bs)) (concat bs),
    length-write_header (header_of es bs),
  )

  read_entry :
      (i : ℕ) (e : IndexEntry)
      → i < length es
      → get_elem? (index_of header_size es bs) i ≡ some e
      → read_index_entry (reader_of es bs) i ≡ ok e
  unfolding read_index_entry
  read_entry i e lt h = rw (mod-eq_of_lt low, mod-eq_of_lt high, within) (ap ok parsed)
    where
      first : ℕ
      first = header_size + length (concat bs) + i * index_entry_size

      low : first < u64_mod
      low = omega (arith, fits.total)

      high : first + index_entry_size < u64_mod
      high = omega (arith, fits.total)

      sliced : slice first (first + index_entry_size) (file_of es bs) ≡ write_entry e
      sliced =
          ap (slice first (first + index_entry_size)) (
            sym (
              append_assoc (write_header (header_of es bs)) (concat bs)
                (write_entries (index_of header_size es bs))))
          ∙ (rw length-front at (entries_slice front (index_of header_size es bs) i e h))

      within : checked_slice (file_of es bs) first (first + index_entry_size) ≡ ok (write_entry e)
      within =
          checked_slice-within (file_of es bs) first (first + index_entry_size) (omega arith)
            (omega (arith, length-file_of es bs c s))
          ∙ ap ok sliced

      parsed : parse_entry (write_entry e) ≡ e
      parsed = parse-write_entry e (
          All-get_elem? EntryFits (index_of header_size es bs) i e
            (index_of-EntryFits c header_size es bs s fits.hashes fits.blobs
              (omega (arith, fits.total)))
            h)

  -- The index section of a written file decodes to the entries that were written.
  pub reader_of-Decodes : Decodes (reader_of es bs) (index_of header_size es bs)
  reader_of-Decodes = record {
    num_entries = sym (length-index_of c header_size es bs s);
    reads = λ i lt.
        let (e, h) = get_elem?-within (index_of header_size es bs) i lt in
        (e, read_entry i e (omega (arith, length-index_of c header_size es bs s)) h, h);
  }
