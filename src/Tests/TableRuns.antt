-- ===== src/Tests/TableRuns.antt =====
-- A table of people, by their names: runs, and the theorems at concrete inputs.
use mathlib.Core.Path.{subst}
use bittice.Prelude.{
  Str, codes, bytes_eq, find, HasDistinctKeys, ℕ, ◌≡◌, refl, ◌||◌, Bool, ◌==◌, Option, none, some,
  List, [], ◌∷◌, ◌++◌, length, take, drop, zero, suc, ap, sym, ◌+◌, ◌∙◌, le→ltb, ◌<◌, ◌^◌, Result,
  ok, lookup, insert as insert_entry, arith, inl, inr, Bool-cases,
}
use bittice.Snapshot.Codec.{Bincode}
use bittice.Wal.{WalOperation, WalError, append}
use bittice.Canonical.{hash, canonical_bytes}
use bittice.Bytes.{from_le_bytes}
use bittice.PrimaryIndex.{Location, get, insert_key}
use bittice.Segment.{Row, new, new_writer}
use bittice.Segment.Rows.{HasFields, new-IsIndexed}
use bittice.Table.{
  find_sealed, Table, Json, insert, delete, pk_columns, row_pk_value, normalize_keys, segment_of,
}
use bittice.Table.Live.{IsTable, live_hash}
use bittice.Table.Changes.{CanSerialize, Changed, IsFound}
use bittice.Table.Updates.{insert-Changed}
use bittice.Table.Deletes.{delete-Changed}
use bittice.Table.Recovery.{replay_delete}
use bittice.Table.Recovery.Replayed.{replay_delete-Changed, IsOf}
use bittice.Table.Rotation.{flush_active_segment}
use bittice.Table.Rotation.Sealed.{flush_active_segment-IsTable}
use bittice.Tests.Crates.{rows, rows-IsRoaring, ascii}

-- An operation is its kind, its numbers, the length of its key, and then its key and its row.
abbrev write_op : WalOperation → Option (List ℕ)
write_op (WalOperation.insert key row_bytes) = some (0 ∷ length key ∷ key ++ row_bytes)
write_op (WalOperation.delete key seg_id local_id) = some (1 ∷ seg_id ∷ local_id ∷ key)
write_op (WalOperation.update key row_bytes seg_id local_id) =
    some (2 ∷ seg_id ∷ local_id ∷ length key ∷ key ++ row_bytes)

abbrev read_op : List ℕ → Option WalOperation
read_op (zero ∷ n ∷ bytes) = some (WalOperation.insert (take n bytes) (drop n bytes))
read_op (suc zero ∷ s ∷ l ∷ bytes) = some (WalOperation.delete bytes s l)
read_op (suc (suc k) ∷ s ∷ l ∷ n ∷ bytes) =
    some (WalOperation.update (take n bytes) (drop n bytes) s l)
read_op _ = none

abbrev ops : Bincode WalOperation
ops = record { serialize = write_op; deserialize = read_op }

ops-CanSerialize : CanSerialize ops
ops-CanSerialize (WalOperation.insert key row_bytes) = (_, refl)
ops-CanSerialize (WalOperation.delete key seg_id local_id) = (_, refl)
ops-CanSerialize (WalOperation.update key row_bytes seg_id local_id) = (_, refl)

-- A row is the values of its fields, one after the other.
abbrev values : Row → List ℕ
values [] = []
values ((k, v) ∷ row) = v ++ values row

abbrev names : Json
names = record { to_vec = values; from_slice = λ bytes. (codes "name", bytes) ∷ [] }

abbrev fields : Str → Bool
fields col = bytes_eq (codes "name") col || bytes_eq (codes "city") col

abbrev person : Str → Str → Row
person name city = (codes "name", name) ∷ (codes "city", city) ∷ []

person-HasFields : (name city : Str) → HasFields fields (person name city)
unfolding find
person-HasFields name city = record {
  distinct = HasDistinctKeys.one_more refl (HasDistinctKeys.one_more refl HasDistinctKeys.none_yet);
  present = λ col h. elim (Bool-cases (bytes_eq (codes "name") col)) [
    | inl is_name ↦ (name, rw is_name refl)
    | inr other ↦ (city, ground (arith, h, other))
  ];
  absent = λ col h. ground (arith, h);
}

abbrev people : Table rows
people = record {
  active_segment = new_writer rows (new rows 3);
  immutable_segments = [];
  wal = record { buffer = []; file = [] };
  primary_index = record { inner = [] };
  primary_key_columns = codes "name" ∷ [];
  primary_key = codes "name";
  original_fields = codes "name" ∷ codes "city" ∷ [];
  active_segment_id = 3;
  flush_count_since_index_save = 0;
}

no_rows : (loc : Location) → live_hash ascii [] people loc ≡ none
unfolding segment_of new_writer new
no_rows (seg_id, i) = elim (Bool-cases (3 == seg_id)) [
  | inl same ↦ rw (same, le→ltb i 0 (omega arith)) refl
  | inr other ↦ rw other refl
]

people-IsTable : IsTable ascii [] fields people
unfolding pk_columns new_writer new lookup
people-IsTable = record {
  indexed = new-IsIndexed rows-IsRoaring fields 3;
  keyed = λ c is_key. ground (arith, is_key);
  marked = λ i above. refl;
  synced = λ h loc. ((λ e. cc), (λ live. let dead = no_rows loc in absurd cc));
}

abbrev after : Result WalError (Table rows) → Table rows
after (ok t) = t
after _ = people

abbrev with_ana : Table rows
with_ana = after (insert ascii ops names [] [] (person (codes "ana") (codes "lima")) people)

ana_inserted : (get ascii with_ana.primary_index (codes "ana")) ≡ some (3, 0)
unfolding insert get new_writer new hash lookup pk_columns append insert_key insert_entry
    from_le_bytes canonical_bytes find
ana_inserted = refl

people_room : people.active_segment.segment.record_count < 2 ^ 32
unfolding new_writer new
people_room = omega arith

insert-Changed_example :
    (t' : Table rows) × (insert ascii ops names [] [] (person (codes "ana") (codes "lima")) people
      ≡ ok t')
    × Changed ascii [] fields
        (row_pk_value ascii []
          (pk_columns people)
          (normalize_keys ascii (pk_columns people) (person (codes "ana") (codes "lima"))))
        IsFound
        people
        t'
insert-Changed_example =
    insert-Changed ascii [] rows-IsRoaring ops names ops-CanSerialize fields [] []
      (person (codes "ana") (codes "lima")) people people-IsTable
      (person-HasFields (codes "ana") (codes "lima")) people_room

with_ana-IsTable : IsTable ascii [] fields with_ana
with_ana-IsTable =
    let (t', done, changed) =
      insert-Changed ascii [] rows-IsRoaring ops names ops-CanSerialize fields [] []
        (person (codes "ana") (codes "lima")) people people-IsTable
        (person-HasFields (codes "ana") (codes "lima")) people_room in
    subst (IsTable ascii [] fields) (ap after (sym done)) changed.valid

delete-Changed_example :
    (t' : Table rows) × (delete ascii ops (codes "ana") with_ana ≡ ok t')
    × Changed ascii [] fields (codes "ana") (λ found. found ≡ none) with_ana t'
delete-Changed_example =
    delete-Changed ascii [] rows-IsRoaring ops ops-CanSerialize fields (codes "ana") with_ana
      with_ana-IsTable

with_ana_count : with_ana.active_segment.segment.record_count ≡ 1
unfolding insert get new_writer new hash lookup pk_columns append insert_key insert_entry
    from_le_bytes canonical_bytes find
with_ana_count = refl

ana_at : live_hash ascii [] with_ana (3, 0) ≡ some (hash ascii (codes "ana"))
ana_at = (with_ana-IsTable.synced (hash ascii (codes "ana")) (3, 0)).0 (unfold get in ana_inserted)

ana-IsOf : IsOf ascii [] rows-IsRoaring fields (hash ascii (codes "ana")) (3, 0) with_ana
ana-IsOf h live = let same : some h ≡ some (hash ascii (codes "ana")) = sym live ∙ ana_at in cc

replay_delete-Changed_example :
    Changed ascii [] fields
      (codes "ana")
      (λ found. found ≡ none)
      with_ana
      (replay_delete ascii (codes "ana") (3, 0) with_ana)
replay_delete-Changed_example =
    replay_delete-Changed ascii [] rows-IsRoaring fields (codes "ana") (3, 0) with_ana
      with_ana-IsTable (λ active. omega (arith, with_ana_count)) ana-IsOf

next_free : segment_of (with_ana.active_segment_id + 1) with_ana ≡ none
unfolding insert get new_writer new hash lookup pk_columns append insert_key insert_entry
    from_le_bytes canonical_bytes find segment_of
next_free = refl

active_free : find_sealed with_ana.active_segment.segment.id with_ana.immutable_segments ≡ none
unfolding insert get new_writer new hash lookup pk_columns append insert_key insert_entry
    from_le_bytes canonical_bytes find find_sealed
active_free = refl

flush_active_segment-IsTable_example :
    (t' : Table rows) × (flush_active_segment 5 10 with_ana ≡ some t')
    × IsTable ascii [] fields t'
    × (t'.primary_index ≡ with_ana.primary_index)
    × ((loc : Location) → live_hash ascii [] t' loc ≡ live_hash ascii [] with_ana loc)
flush_active_segment-IsTable_example =
    flush_active_segment-IsTable ascii [] rows-IsRoaring 5 10 fields with_ana (omega arith)
      with_ana-IsTable next_free active_free
