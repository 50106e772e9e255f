-- ===== src/Table/Updates.antt =====
-- `insert` keeps the index and the rows in step (src/core/storage/table.rs).
use mathlib.Core.Path.{subst}
use bittice.Prelude.{
  is_nil, Str, ℕ, ◌^◌, ◌<◌, ◌≡◌, refl, ap, ap₂, ◌∙◌, ◌==◌, ==_refl, Bool, false, if◌then◌else◌,
  Option, none, some, lookup, lookup-insert, ok, arith, inl, inr, Bool-cases,
}
use bittice.Bitmaps.{Roaring, IsRoaring}
use bittice.Canonical.{Text, hash}
use bittice.Snapshot.Codec.{Bincode}
use bittice.Wal.{WalOperation}
use bittice.PrimaryIndex.{PrimaryIndex, Location, get, insert_key}
use bittice.Segment.{Row, as_u32, append_record}
use bittice.Segment.Rows.{HasFields, as_u32_small, id-append_record}
use bittice.Table.{
  Table, Json, pk_columns, resolve_row_pk, row_pk_value, normalize_keys, tombstone, get_row_as_map,
  is_same_row, append_row, replace_row, insert_at, insert,
}
use bittice.Table.Keys.{resolve-row_pk_value, normalize_keys-HasFields}
use bittice.Table.Rows.{read_value-append_new}
use bittice.Table.Live.{IsTable}
use bittice.Table.Tombstone.{
  IsTableBut, IsTable-IsTableBut, tombstone-IsTableBut, index-tombstone, pk_columns-tombstone,
  count-tombstone,
}
use bittice.Table.Insert.{appended, appended-IsTable}
use bittice.Table.Flush.{IsSame, get_row_as_map-IsSame}
use bittice.Table.Changes.{CanSerialize, append_ok, Changed, IsFound, other_keys, before-Changed}

pk_columns-nonempty : {r : Roaring} (t : Table r) → is_nil (pk_columns t) ≡ false
unfolding pk_columns
pk_columns-nonempty t = ground arith

module _ (text : Text) (uuid_key : Str) {r : Roaring} (laws : IsRoaring r)
    (codec : Bincode WalOperation) (json : Json) (can : CanSerialize codec)
    (fields : Str → Bool) where
  module _ (uuid : Str) (row : Row) (t : Table r)
      (v : IsTableBut text uuid_key laws fields
        (hash text (row_pk_value text uuid (pk_columns t) row))
        t)
      (has : HasFields fields row) (room : t.active_segment.segment.record_count < 2 ^ 32) where
    abbrev row_id : Str
    row_id = row_pk_value text uuid (pk_columns t) row

    abbrev written_loc : Location
    written_loc = (
      (append_record r row t.active_segment).segment.id,
      as_u32 t.active_segment.segment.record_count,
    )

    abbrev new_index : PrimaryIndex
    new_index = (insert_key text t.primary_index row_id written_loc).0

    new_index-lookup :
        (h : ℕ)
        → lookup h new_index.inner ≡ (
            if hash text row_id == h
            then some (t.active_segment.segment.id, t.active_segment.segment.record_count)
            else lookup h t.primary_index.inner)
    unfolding insert_key
    new_index-lookup h =
        lookup-insert (hash text row_id) h written_loc t.primary_index.inner
        ∙ ap₂ (λ a b. if hash text row_id == h then some (a, b) else lookup h t.primary_index.inner)
            (id-append_record row t.active_segment)
            (as_u32_small t.active_segment.segment.record_count room)

    new_row-key :
        resolve_row_pk text uuid_key
          (pk_columns t)
          (append_record r row t.active_segment).segment
          t.active_segment.segment.record_count
        ≡ some row_id
    new_row-key =
        resolve-row_pk_value text uuid uuid_key (pk_columns t) _
          t.active_segment.segment.record_count row (pk_columns-nonempty t)
          (λ c is_key.
            read_value-append_new fields row t.active_segment v.indexed has room c
              (v.keyed c is_key))

    append_row-Changed :
        (t' : Table r) × (append_row text codec json row_id row t ≡ ok t')
        × Changed text uuid_key fields row_id IsFound t t'
    unfolding append_row
    append_row-Changed =
        let (w, logged) =
          append_ok codec can t.wal (WalOperation.insert row_id (json.to_vec row)) in
        (
          appended t w row new_index,
          rw logged refl,
          record {
            valid =
                appended-IsTable text uuid_key laws t fields row row_id w new_index v has room
                  new_row-key new_index-lookup;
            here = (
              (t.active_segment.segment.id, t.active_segment.segment.record_count),
              unfold get in
                  (new_index-lookup (hash text row_id) ∙ rw (==_refl (hash text row_id)) refl),
            );
            others =
                other_keys text uuid_key fields row_id t (appended t w row new_index)
                  (λ k differs. unfold get in (new_index-lookup (hash text k) ∙ rw differs refl));
          },
        )

  -- the same, for a key that is that of the row
  append_at :
      (uuid id : Str) (row : Row) (t : Table r)
      → row_pk_value text uuid (pk_columns t) row ≡ id
      → IsTableBut text uuid_key laws fields (hash text id) t
      → HasFields fields row
      → t.active_segment.segment.record_count < 2 ^ 32
      → (t' : Table r) × (append_row text codec json id row t ≡ ok t')
        × Changed text uuid_key fields id IsFound t t'
  append_at uuid id row t key v has room =
      subst
        (λ k.
          IsTableBut text uuid_key laws fields (hash text k) t
          → (t' : Table r) × (append_row text codec json k row t ≡ ok t')
            × Changed text uuid_key fields k IsFound t t')
        key (λ v'. append_row-Changed uuid row t v' has room) v

  module _ (uuid uuid_read : Str) (row : Row) (t : Table r) (v : IsTable text uuid_key fields t)
      (has : HasFields fields row) (room : t.active_segment.segment.record_count < 2 ^ 32) where
    abbrev key : Str
    key = row_pk_value text uuid (pk_columns t) row

    replace_row-Changed :
        (loc : Location) (existing : Option Row) (t1 : Table r)
        → get text t.primary_index key ≡ some loc
        → IsSame text uuid_key laws fields t v t1
        → (t' : Table r) × (replace_row text codec json key row loc (existing, t1) ≡ ok t')
          × Changed text uuid_key fields key IsFound t t'
    unfolding replace_row get
    replace_row-Changed loc existing t1 at same =
        let at1 : lookup (hash text key) t1.primary_index.inner ≡ some loc =
          ap (λ idx. lookup (hash text key) idx.inner) same.index ∙ at in
        elim (Bool-cases (is_same_row existing row)) [
          | inl applied ↦ (
            t1,
            rw applied refl,
            record {
              valid = same.valid;
              here = (loc, at1);
              others =
                  other_keys text uuid_key fields key t t1
                    (λ k differs. ap (λ idx. get text idx k) same.index);
            },
          )
          | inr differs ↦
              let t2 = tombstone loc t1 in
              let (t', done, changed) =
                append_at uuid key row t2
                  (ap (λ cols. row_pk_value text uuid cols row)
                    (pk_columns-tombstone text uuid_key laws loc t1 ∙ same.keys))
                  (tombstone-IsTableBut text uuid_key laws fields (hash text key) loc t1 same.valid
                    at1)
                  has (rw (count-tombstone text uuid_key laws loc t1, same.count) room) in
              (
                t',
                rw differs done,
                before-Changed text uuid_key fields key IsFound t t2 t'
                    (index-tombstone text uuid_key laws loc t1 ∙ same.index) changed,
              )
        ]

    insert_at-Changed :
        (found : Option Location)
        → get text t.primary_index key ≡ found
        → (t' : Table r) × (insert_at text codec json uuid_read key row t found ≡ ok t')
          × Changed text uuid_key fields key IsFound t t'
    unfolding insert_at
    insert_at-Changed none missing =
        append_at uuid key row t refl
          (IsTable-IsTableBut text uuid_key laws fields (hash text key) t v (unfold get in missing))
          has room
    insert_at-Changed (some loc) at =
        replace_row-Changed loc (get_row_as_map text uuid_read key t).0
          (get_row_as_map text uuid_read key t).1 at
          (get_row_as_map-IsSame text uuid_key laws fields t v uuid_read key)

  -- `insert` of a row with the table's fields, into an active segment of fewer than 2^32 rows, succeeds, if
  -- bincode writes every operation, the bitmaps behave as documented, and the index has under each hash
  -- exactly the row that is not deleted and whose key has the hash. After it the index is so again, with
  -- the key of the row, after normalization, in it: a row that the new one replaces is deleted, and no
  -- second row with the hash is live. Keys with other hashes have the row that they had.
  pub insert-Changed :
      (uuid uuid_read : Str) (row_data : Row) (t : Table r)
      → IsTable text uuid_key fields t
      → HasFields fields row_data
      → t.active_segment.segment.record_count < 2 ^ 32
      → (t' : Table r) × (insert text codec json uuid uuid_read row_data t ≡ ok t')
        × Changed text uuid_key fields
            (row_pk_value text uuid (pk_columns t) (normalize_keys text (pk_columns t) row_data))
            IsFound
            t
            t'
  unfolding insert
  insert-Changed uuid uuid_read row_data t v has room =
      insert_at-Changed uuid uuid_read (normalize_keys text (pk_columns t) row_data) t v
        (normalize_keys-HasFields text fields (pk_columns t) row_data has) room _ refl
