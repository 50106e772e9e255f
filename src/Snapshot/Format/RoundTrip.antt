-- ===== src/Snapshot/Format/RoundTrip.antt =====
-- Headers and index entries are read back as they were written.
use bittice.Prelude.{ℕ, ◌+◌, ◌<◌, ◌≡◌, refl, List, ◌++◌, length, arith, ok, ltb, le→ltb, false}
use bittice.Bytes.{
  u32_mod, u64_mod, u128_mod, to_le_bytes, from_le_bytes, from_le_bytes-to_le_bytes,
}
use bittice.Snapshot.Format.{
  V3Header, IndexEntry, parse_header, write_header, parse_entry, write_entry, HeaderFits, EntryFits,
  header_size, index_entry_size,
}

pub length-write_header : (h : V3Header) → length (write_header h) ≡ header_size
unfolding write_header
length-write_header h = refl

pub length-write_entry : (e : IndexEntry) → length (write_entry e) ≡ index_entry_size
unfolding write_entry
length-write_entry e = refl

-- A `u64`, a `u128` and a `u32` are read back from their bytes.
u64_field : (v : ℕ) → v < u64_mod → from_le_bytes (to_le_bytes 8 v) ≡ v
u64_field v h = from_le_bytes-to_le_bytes 8 v (omega arith)

u128_field : (v : ℕ) → v < u128_mod → from_le_bytes (to_le_bytes 16 v) ≡ v
u128_field v h = from_le_bytes-to_le_bytes 16 v (omega arith)

u32_field : (v : ℕ) → v < u32_mod → from_le_bytes (to_le_bytes 4 v) ≡ v
u32_field v h = from_le_bytes-to_le_bytes 4 v (omega arith)

long_enough : (n : ℕ) → ltb (40 + n) header_size ≡ false
long_enough n = le→ltb (40 + n) header_size (omega arith)

-- Parsing what `write_header` wrote for a header of version 3 whose fields fit their integers, and
-- whose index size fits 64 bits, gives the header back, whatever bytes follow.
pub parse-write_header :
    (h : V3Header) (rest : List ℕ) → HeaderFits h → parse_header (write_header h ++ rest) ≡ ok h
unfolding parse_header write_header
parse-write_header h rest fits = ground (
  arith,
  u64_field h.num_entries (omega arith),
  u64_field h.bitmaps_section_offset fits.bitmaps_section_offset,
  u64_field h.index_section_offset fits.index_section_offset,
)

-- Parsing the bytes written for an entry whose fields fit 128, 64 and 32 bits gives the entry back.
pub parse-write_entry : (e : IndexEntry) → EntryFits e → parse_entry (write_entry e) ≡ e
unfolding parse_entry write_entry
parse-write_entry e fits = λ i. record {
  hash = u128_field e.hash fits.hash i;
  offset = u64_field e.offset fits.offset i;
  length = u32_field e.length fits.length i;
}
