-- ===== src/Snapshot/Written.antt =====
-- A written file opens, and its index section decodes to the entries that were written.
use bittice.Prelude.{
  ℕ, ◌+◌, ◌*◌, ◌≡◌, refl, sym, List, [], ◌++◌, append-nil, length, length-append, take, take-append,
  arith, ok,
}
use bittice.Snapshot.Codec.{Bincode}
use bittice.Snapshot.Format.{
  V3Header, HeaderFits, parse_header, write_header, header_size, index_entry_size,
  exact_idx_version_v3,
}
use bittice.Snapshot.Format.RoundTrip.{length-write_header, parse-write_header}
use bittice.Snapshot.Writer.{WriteState, start, write_entries, finish_file, write_exact_index_v3}
use bittice.Snapshot.Reader.{SnapshotReader, open_snapshot}
use bittice.Snapshot.Layout.{
  concat, index_of, Serializes, Fits, length-write_entries, length-index_of, write_blobs,
  write_loop-Serializes, write_blobs-Wrote, Wrote,
}

module _ {ℓ} {V : Type ℓ} (es : List (ℕ × V)) (bs : List (List ℕ)) where
  abbrev pub header_of : V3Header
  header_of = record {
    version = exact_idx_version_v3;
    num_entries = length es;
    bitmaps_section_offset = header_size;
    index_section_offset = header_size + length (concat bs);
  }

  -- The file for the values `es` whose bytes are `bs`.
  abbrev pub file_of : List ℕ
  file_of = write_header header_of ++ (concat bs ++ write_entries (index_of header_size es bs))

  abbrev pub reader_of : SnapshotReader
  reader_of = record {
    mmap = file_of;
    num_entries = length es;
    bitmaps_section_offset = header_size;
    index_section_offset = header_size + length (concat bs);
  }

  pub header_of-HeaderFits : Fits es bs → HeaderFits header_of
  header_of-HeaderFits fits = record {
    version = refl;
    num_entries = omega (arith, fits.total);
    bitmaps_section_offset = omega arith;
    index_section_offset = omega (arith, fits.total);
  }

  pub length-file_of :
      (c : Bincode V)
      → Serializes c es bs
      → length file_of ≡ header_size + length (concat bs) + index_entry_size * length es
  length-file_of c s = omega (
    arith,
    length-append (write_header header_of)
        (concat bs ++ write_entries (index_of header_size es bs)),
    length-write_header header_of,
    length-append (concat bs) (write_entries (index_of header_size es bs)),
    length-write_entries (index_of header_size es bs),
    length-index_of c header_size es bs s,
  )

  finish-file_of :
      (t : WriteState) → Wrote start t es bs → Fits es bs → finish_file t ≡ ok (file_of, t.warnings)
  unfolding finish_file
  finish-file_of t w fits = rw w.out (ground (arith, w.index_entries, fits.total))

  -- The writer produces that file from values that serialize and fit.
  pub write-file_of :
      (c : Bincode V)
      → Serializes c es bs
      → Fits es bs
      → write_exact_index_v3 c es ≡ ok (file_of, (write_blobs start es bs).warnings)
  unfolding write_exact_index_v3
  write-file_of c s fits = rw (write_loop-Serializes c start es bs s) (
      finish-file_of (write_blobs start es bs)
        (write_blobs-Wrote c start es bs s fits.blobs (omega (arith, fits.total))
          (omega (arith, fits.total)))
        fits)

  parse-file_of : Fits es bs → parse_header (take header_size file_of) ≡ ok header_of
  parse-file_of fits =
      rw
        (take-append header_size (write_header header_of)
          (concat bs ++ write_entries (index_of header_size es bs))
          (sym (length-write_header header_of)))
        (rw (append-nil (write_header header_of)) at
          (parse-write_header header_of [] (header_of-HeaderFits fits)))

  -- The reader opens that file.
  pub open-file_of :
      (c : Bincode V) → Serializes c es bs → Fits es bs → open_snapshot file_of ≡ ok reader_of
  unfolding open_snapshot
  open-file_of c s fits = ground (arith, parse-file_of fits, length-file_of c s, fits.total)
