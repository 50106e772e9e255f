-- ===== src/Table/Deletes.antt =====
-- `delete` keeps the index and the rows in step (src/core/storage/table.rs).
use bittice.Prelude.{
  Str, ◌≡◌, refl, sym, ap, ◌∙◌, ◌==◌, Bool, if◌then◌else◌, Option, none, some, lookup, ok,
}
use bittice.Bitmaps.{Roaring, IsRoaring}
use bittice.Canonical.{Text, hash}
use bittice.Snapshot.Codec.{Bincode}
use bittice.Wal.{WalOperation}
use bittice.PrimaryIndex.{PrimaryIndex, Location, get, remove_key}
use bittice.Table.{Table, tombstone, delete_at, delete}
use bittice.Table.Live.{IsTable}
use bittice.Table.Tombstone.{IsTable-IsTableBut, tombstone-IsTableBut, index-tombstone}
use bittice.Table.Changes.{CanSerialize, append_ok, Changed}
use bittice.Table.Removal.{without-IsTable, tombstone-with, index_without, removed, without-Changed}

module _ (text : Text) (uuid_key : Str) {r : Roaring} (laws : IsRoaring r)
    (codec : Bincode WalOperation) (can : CanSerialize codec) (fields : Str → Bool) where
  module _ (id : Str) (t : Table r) (v : IsTable text uuid_key fields t) where
    abbrev without : PrimaryIndex
    without = index_without text uuid_key laws fields id t v

    delete_at-Changed :
        (found : Option Location)
        → get text t.primary_index id ≡ found
        → (t' : Table r) × (delete_at text codec id (record t { primary_index = without }) found
            ≡ ok t')
          × Changed text uuid_key fields id (λ at. at ≡ none) t t'
    unfolding delete_at get
    delete_at-Changed none missing =
        let t' : Table r = record t { primary_index = without } in
        (
          t',
          refl,
          without-Changed text uuid_key laws fields id t v t' refl (
              without-IsTable text uuid_key laws fields (hash text id) t without t.wal
                (IsTable-IsTableBut text uuid_key laws fields (hash text id) t v missing)
                (removed text uuid_key laws fields id t v)),
        )
    delete_at-Changed (some (seg_id, l)) at =
        let (w, logged) = append_ok codec can t.wal (WalOperation.delete id seg_id l) in
        let marked = tombstone (seg_id, l) t in
        let t' : Table r = record marked { primary_index = without; wal = w } in
        (
          t',
          rw logged (ap ok (tombstone-with text uuid_key laws fields (seg_id, l) t without w)),
          without-Changed text uuid_key laws fields id t v t' refl (
              without-IsTable text uuid_key laws fields (hash text id) marked without w
                (tombstone-IsTableBut text uuid_key laws fields (hash text id) (seg_id, l) t v at)
                (λ h.
                  (removed text uuid_key laws fields id t v) h
                  ∙ ap (λ idx. if hash text id == h then none else lookup h idx.inner)
                      (sym (index-tombstone text uuid_key laws (seg_id, l) t)))),
        )

  -- `delete` of a key succeeds, if bincode writes every operation, the bitmaps behave as documented, and
  -- the index has under each hash exactly the row that is not deleted and whose key has the hash. After
  -- it the index is so again, without the key: its row is deleted. Keys with other hashes have the row
  -- that they had.
  pub delete-Changed :
      (id : Str) (t : Table r)
      → IsTable text uuid_key fields t
      → (t' : Table r) × (delete text codec id t ≡ ok t')
        × Changed text uuid_key fields id (λ found. found ≡ none) t t'
  unfolding delete remove_key get
  delete-Changed id t v = delete_at-Changed id t v (get text t.primary_index id) refl
