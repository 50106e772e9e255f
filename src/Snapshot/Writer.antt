-- ===== src/Snapshot/Writer.antt =====
-- The writer (src/core/storage/exact_index_v3/writer.rs), as the release build runs it: input that
-- is out of order is logged and written all the same.
use bittice.Prelude.{
  ℕ, ◌+◌, ◌-◌, ◌*◌, ◌%◌, Bool, false, Option, none, some, List, [], ◌∷◌, ◌++◌, ltb, leb,
  if◌then◌else◌, length, drop, replicate, Result, ok, ok_or, ◌>>=◌,
}
use bittice.Bytes.{u32_mod, u64_mod}
use bittice.Snapshot.Codec.{Bincode}
use bittice.Snapshot.Format.{
  IndexEntry, FormatError, invalid_num_entries, bincode_error, checked_add, write_header,
  write_entry, header_size, index_entry_size, exact_idx_version_v3,
}

-- The local variables of the loop. `out` is what the buffered writer has received, the
-- placeholder of the header first; `warnings` counts the log lines about unsorted input.
pub record WriteState : Type 0 where
  pub out : List ℕ
  pub index_entries : List IndexEntry
  pub current_offset : ℕ
  pub num_entries : ℕ
  pub prev_hash : Option ℕ
  pub warnings : ℕ

abbrev pub start : WriteState
start = record {
  out = replicate header_size 0;
  index_entries = [];
  current_offset = header_size;
  num_entries = 0;
  prev_hash = none;
  warnings = 0;
}

-- `if let Some(prev) = prev_hash { if hash <= prev { warn } }`
abbrev pub is_unsorted : Option ℕ → ℕ → Bool
is_unsorted none hash = false
is_unsorted (some prev) hash = leb hash prev

-- One round of the loop, after the bitmaps have been serialized.
unfoldable pub write_blob : WriteState → ℕ → List ℕ → WriteState
write_blob s hash serialized = record {
  out = s.out ++ serialized;
  index_entries =
      s.index_entries
      ++ record { hash = hash; offset = s.current_offset; length = length serialized % u32_mod }
        ∷ [];
  current_offset = (s.current_offset + length serialized) % u64_mod;
  num_entries = (s.num_entries + 1) % u64_mod;
  prev_hash = some hash;
  warnings = if is_unsorted s.prev_hash hash then s.warnings + 1 else s.warnings;
}

-- The index section: the entries one after the other.
unfoldable pub write_entries : List IndexEntry → List ℕ
write_entries [] = []
write_entries (e ∷ es) = write_entry e ++ write_entries es

abbrev pub saturating_mul : ℕ → ℕ → ℕ
saturating_mul a b = if ltb (a * b) u64_mod then a * b else u64_mod - 1

-- What follows the loop: the index section, the size check, and the header over its placeholder.
unfoldable pub finish_file : WriteState → Result FormatError (List ℕ × ℕ)
finish_file s = do
  let index_section_offset = s.current_offset
  let out = s.out ++ write_entries s.index_entries
  expected_file_size ←
      ok_or (invalid_num_entries s.num_entries 0)
        (checked_add index_section_offset (saturating_mul s.num_entries index_entry_size))
  let header = write_header (record {
    version = exact_idx_version_v3;
    num_entries = s.num_entries;
    bitmaps_section_offset = header_size;
    index_section_offset = index_section_offset;
  })
  ok (header ++ drop header_size out, s.warnings)

module _ {ℓ} {V : Type ℓ} (c : Bincode V) where
  unfoldable pub write_loop : WriteState → List (ℕ × V) → Result FormatError WriteState
  write_loop s [] = ok s
  write_loop s ((hash, bitmaps) ∷ rest) = do
    serialized ← ok_or bincode_error (c.serialize bitmaps)
    write_loop (write_blob s hash serialized) rest

  -- `write_exact_index_v3`: the bytes of the file that is renamed into place, and the number of
  -- warnings.
  unfoldable pub write_exact_index_v3 : List (ℕ × V) → Result FormatError (List ℕ × ℕ)
  write_exact_index_v3 entries = do s ← write_loop start entries; finish_file s
