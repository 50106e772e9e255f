-- ===== src/Column.antt =====
-- The files of one column of a segment (src/core/storage/segment.rs): `append_record` on one column,
-- and `read_value_from_mmap`. The values are in the data file, their positions in the offsets file.
pub mod Cells
use bittice.Prelude.{
  ℕ, ◌+◌, ◌*◌, ◌%◌, ◌≡◌, ◌<◌, Option, some, List, [], ◌∷◌, ◌++◌, length, Result, ok, err, panic,
  ok_or, ◌>>=◌,
}
use bittice.Bytes.{u64_mod, to_le_bytes, from_le_bytes}
use bittice.Snapshot.Codec.{Bincode}
use bittice.Snapshot.Format.{FormatError, bincode_error}
use bittice.Snapshot.Reader.{checked_slice}

-- `String`, `String::new`, `str::as_bytes` and `String::from_utf8_lossy`.
pub record Utf8 : Type 1 where
  pub Str : Type 0
  pub empty : Str
  pub as_bytes : Str → List ℕ
  pub from_utf8_lossy : List ℕ → Str

-- The documented behaviour: the bytes of a text decode to the text, and bincode writes a text as the
-- number of its bytes, in eight bytes, and then the bytes, which fit in memory.
pub record IsText (u : Utf8) (codec : Bincode u.Str) : Type 0 where
  pub decodes : (s : u.Str) → u.from_utf8_lossy (u.as_bytes s) ≡ s
  pub layout :
      (s : u.Str) → codec.serialize s ≡ some (to_le_bytes 8 (length (u.as_bytes s)) ++ u.as_bytes s)

-- What the two writers of a column have received, and the offset of the next value.
pub record Column : Type 0 where
  pub dat : List ℕ
  pub offsets : List ℕ
  pub current_offset : ℕ

abbrev pub new_column : Column
new_column = record { dat = []; offsets = []; current_offset = 0 }

module _ (u : Utf8) (codec : Bincode u.Str) where
  -- One round of `append_record`, on the files of its column.
  unfoldable pub append_value : Column → u.Str → Result FormatError Column
  append_value c val = do
    encoded ← ok_or bincode_error (codec.serialize val)
    let len = length encoded
    ok (record {
      dat = c.dat ++ encoded;
      offsets = c.offsets ++ to_le_bytes 8 c.current_offset;
      current_offset = (c.current_offset + len) % u64_mod;
    })

  -- The values of the column in the order of the rows.
  unfoldable pub append_values : Column → List u.Str → Result FormatError Column
  unfolding append_value
  append_values c [] = ok c
  append_values c (val ∷ vals) = do c' ← append_value c val; append_values c' vals

-- `return String::new()` where a test of the bounds fails.
abbrev pub empty_on_error : {S : Type 0} → S → Result FormatError S → Result FormatError S
empty_on_error empty (ok s) = ok s
empty_on_error empty (err e) = ok empty
empty_on_error empty panic = panic

module _ (u : Utf8) where
  unfoldable pub read_cell : List ℕ → List ℕ → ℕ → Result FormatError u.Str
  read_cell dat offsets local_id = do
    position ← checked_slice offsets (local_id * 8) (local_id * 8 + 8)
    let start_pos = from_le_bytes position
    let body = (start_pos + 8) % u64_mod
    size ← checked_slice dat start_pos body
    bytes ← checked_slice dat body ((body + from_le_bytes size) % u64_mod)
    ok (u.from_utf8_lossy bytes)

  -- `Segment::read_value_from_mmap`.
  unfoldable pub read_value_from_mmap : List ℕ → List ℕ → ℕ → Result FormatError u.Str
  unfolding read_cell
  read_value_from_mmap dat offsets local_id =
      empty_on_error u.empty (read_cell dat offsets local_id)
