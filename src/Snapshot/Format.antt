-- ===== src/Snapshot/Format.antt =====
-- The header and the index entries (src/core/storage/exact_index_v3/format.rs).
-- A byte slice is a list of numbers; `u64`, `u32` and `u128` fields are numbers below their modulus.
pub mod RoundTrip
use bittice.Prelude.{
  ℕ, suc, ◌+◌, ◌*◌, ◌<◌, ◌≡◌, Bool, true, false, not, ◌&&◌, Option, none, some, List, [], ◌∷◌, ◌++◌,
  ltb, ◌==◌, if◌then◌else◌, length, bytes_eq, get_elem?, slice, Result, ok, err, panic, ok_or,
  ◌>>=◌,
}
use bittice.Bytes.{u32_mod, u64_mod, u128_mod, to_le_bytes, from_le_bytes}

abbrev pub exact_idx_magic : List ℕ
exact_idx_magic = b'B' ∷ b'T' ∷ b'X' ∷ b'I' ∷ []

abbrev pub exact_idx_version_v3 : ℕ
exact_idx_version_v3 = 3

abbrev pub header_size : ℕ
header_size = 40

abbrev pub index_entry_size : ℕ
index_entry_size = 28

pub record V3Header : Type 0 where
  pub version : ℕ
  pub num_entries : ℕ
  pub bitmaps_section_offset : ℕ
  pub index_section_offset : ℕ

pub record IndexEntry : Type 0 where
  pub hash : ℕ
  pub offset : ℕ
  pub length : ℕ

-- `io_error` and `bincode_error` stand without the foreign error that they wrap.
pub data FormatError : Type 0 where
  too_short : ℕ → ℕ → FormatError
  bad_magic : List ℕ → FormatError
  unsupported_version : ℕ → FormatError
  invalid_num_entries : ℕ → ℕ → FormatError
  io_error : FormatError
  bincode_error : FormatError

-- `bytes[i]`, which panics out of bounds.
abbrev pub index {ℓ} : {E : Type ℓ} → List ℕ → ℕ → Result E ℕ
index bytes i = elim (get_elem? bytes i) [ none ↦ panic | some b ↦ ok b ]

-- `u64::checked_mul` and `u64::checked_add`.
abbrev pub checked_mul : ℕ → ℕ → Option ℕ
checked_mul a b = if ltb (a * b) u64_mod then some (a * b) else none

abbrev pub checked_add : ℕ → ℕ → Option ℕ
checked_add a b = if ltb (a + b) u64_mod then some (a + b) else none

-- `V3Header::parse`.
unfoldable pub parse_header : List ℕ → Result FormatError V3Header
parse_header bytes =
    if ltb (length bytes) header_size
    then err (too_short header_size (length bytes))
    else (let magic = slice 0 4 bytes in
        if not (bytes_eq magic exact_idx_magic) then err (bad_magic magic) else do
          version ← index bytes 4
          if not (version == exact_idx_version_v3) then err (unsupported_version version) else do
            let num_entries = from_le_bytes (slice 8 16 bytes)
            let bitmaps_section_offset = from_le_bytes (slice 16 24 bytes)
            let index_section_offset = from_le_bytes (slice 24 32 bytes)
            size ←
                ok_or (invalid_num_entries num_entries 0) (checked_mul num_entries index_entry_size)
            ok (record {
              version = version;
              num_entries = num_entries;
              bitmaps_section_offset = bitmaps_section_offset;
              index_section_offset = index_section_offset;
            }))

-- `V3Header::write`: the bytes that it hands to the writer.
unfoldable pub write_header : V3Header → List ℕ
unfolding to_le_bytes
write_header h =
    exact_idx_magic
    ++ ((h.version ∷ 0 ∷ 0 ∷ 0 ∷ [])
        ++ (to_le_bytes 8 h.num_entries
            ++ (to_le_bytes 8 h.bitmaps_section_offset
                ++ (to_le_bytes 8 h.index_section_offset ++ to_le_bytes 8 0))))

-- `IndexEntry::parse`, on the 28 bytes of an entry.
unfoldable pub parse_entry : List ℕ → IndexEntry
parse_entry bytes = record {
  hash = from_le_bytes (slice 0 16 bytes);
  offset = from_le_bytes (slice 16 24 bytes);
  length = from_le_bytes (slice 24 28 bytes);
}

-- `IndexEntry::write`.
unfoldable pub write_entry : IndexEntry → List ℕ
unfolding to_le_bytes
write_entry e = to_le_bytes 16 e.hash ++ (to_le_bytes 8 e.offset ++ to_le_bytes 4 e.length)

-- What the field types of the two records hold.
pub record HeaderFits (h : V3Header) : Type 0 where
  pub version : h.version ≡ exact_idx_version_v3
  pub num_entries : h.num_entries * index_entry_size < u64_mod
  pub bitmaps_section_offset : h.bitmaps_section_offset < u64_mod
  pub index_section_offset : h.index_section_offset < u64_mod

pub record EntryFits (e : IndexEntry) : Type 0 where
  pub hash : e.hash < u128_mod
  pub offset : e.offset < u64_mod
  pub length : e.length < u32_mod
