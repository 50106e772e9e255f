-- ===== src/Tests/ColumnRuns.antt =====
-- Columns: texts as lists of bytes, a run, and the theorem at a concrete input.
use bittice.Prelude.{ℕ, ◌≡◌, refl, some, List, [], ◌∷◌, ◌++◌, length, drop, get_elem?, arith, ok}
use bittice.Bytes.{to_le_bytes, from_le_bytes}
use bittice.Snapshot.Codec.{Bincode}
use bittice.Snapshot.Reader.{checked_slice}
use bittice.Column.{
  Utf8, IsText, Column, new_column, append_value, append_values, read_cell, read_value_from_mmap,
}
use bittice.Column.Cells.{value_or, read-append_values}

abbrev bytes_only : Utf8
bytes_only = record { Str = List ℕ; empty = []; as_bytes = λ s. s; from_utf8_lossy = λ b. b }

abbrev framed : Bincode (List ℕ)
framed = record {
  serialize = λ s. some (to_le_bytes 8 (length s) ++ s);
  deserialize = λ b. some (drop 8 b);
}

framed-IsText : IsText bytes_only framed
framed-IsText = record { decodes = λ s. refl; layout = λ s. refl }

abbrev values : List (List ℕ)
values = (65 ∷ 66 ∷ []) ∷ [] ∷ (67 ∷ []) ∷ []

read-append_values_example :
    (c : Column) × (append_values bytes_only framed new_column values ≡ ok c)
    × ((i : ℕ)
        → read_value_from_mmap bytes_only c.dat c.offsets i ≡ ok (value_or [] (get_elem? values i)))
read-append_values_example = read-append_values bytes_only framed framed-IsText values (omega arith)

-- A column that a row has no value for is one value short, and later rows read the values of others.
abbrev two_rows : Column
two_rows = record {
  dat = 1 ∷ 0 ∷ 0 ∷ 0 ∷ 0 ∷ 0 ∷ 0 ∷ 0 ∷ 65 ∷ [];
  offsets = 0 ∷ 0 ∷ 0 ∷ 0 ∷ 0 ∷ 0 ∷ 0 ∷ 0 ∷ [];
  current_offset = 9;
}

skipped_run :
    (append_value bytes_only framed new_column (65 ∷ []) ≡ ok two_rows)
    × (read_value_from_mmap bytes_only two_rows.dat two_rows.offsets 0 ≡ ok (65 ∷ []))
    × (read_value_from_mmap bytes_only two_rows.dat two_rows.offsets 1 ≡ ok [])
unfolding append_value read_value_from_mmap read_cell checked_slice to_le_bytes from_le_bytes
skipped_run = (refl, refl, refl)
