-- ===== src/Table/Removal.antt =====
-- A table whose index has lost a key (src/core/storage/table.rs).
use mathlib.Core.Path.{subst}
use bittice.Prelude.{
  Str, ℕ, ◌≡◌, refl, sym, ap, ◌∙◌, ◌==◌, ==_refl, ==_iff, ◌↔◌, Bool, if◌then◌else◌, none, some,
  lookup, lookup-remove, arith, inl, inr, Bool-cases,
}
use bittice.Bitmaps.{Roaring, IsRoaring}
use bittice.Canonical.{Text, hash}
use bittice.Wal.{Wal}
use bittice.PrimaryIndex.{PrimaryIndex, Location, get, remove_key}
use bittice.Table.{Table, pk_columns, tombstone, segment_of}
use bittice.Table.Live.{live_hash, IsTable}
use bittice.Table.Tombstone.{IsTableBut}
use bittice.Table.Changes.{Changed, other_keys}

module _ (text : Text) (uuid_key : Str) {r : Roaring} (laws : IsRoaring r)
    (fields : Str → Bool) where
  -- an index without the hash, for a table without a row of the hash
  pub without-IsTable :
      (hid : ℕ) (t : Table r) (idx : PrimaryIndex) (w : Wal)
      → IsTableBut text uuid_key laws fields hid t
      → ((h : ℕ) → lookup h idx.inner ≡ (if hid == h then none else lookup h t.primary_index.inner))
      → IsTable text uuid_key fields (record t { primary_index = idx; wal = w })
  unfolding segment_of pk_columns
  without-IsTable hid t idx w v removed = record {
    indexed = v.indexed;
    keyed = v.keyed;
    marked = v.marked;
    synced = λ h loc.
        subst (λ found. (found ≡ some loc) ↔ (live_hash text uuid_key t loc ≡ some h))
          (sym (removed h))
          (elim (Bool-cases (hid == h)) [
            | inl same ↦ rw same (
              (λ e. absurd cc),
              (λ live. absurd (v.gone loc (live ∙ ap some (sym ((==_iff hid h).0 same))))),
            )
            | inr differs ↦ rw differs (v.synced h loc (ground (arith, differs)))
          ]);
  }

  pub tombstone-with :
      (loc : Location) (t : Table r) (idx : PrimaryIndex) (w : Wal)
      → tombstone loc (record t { primary_index = idx; wal = w })
        ≡ record (tombstone loc t) { primary_index = idx; wal = w }
  unfolding tombstone
  tombstone-with (id, l) t idx w = elim (Bool-cases (t.active_segment.segment.id == id)) [
    | inl here ↦ rw here refl
    | inr later ↦ rw later refl
  ]

  module _ (id : Str) (t : Table r) (v : IsTable text uuid_key fields t) where
    abbrev pub index_without : PrimaryIndex
    index_without = (remove_key text t.primary_index id).0

    pub removed :
        (h : ℕ)
        → lookup h index_without.inner
          ≡ (if hash text id == h then none else lookup h t.primary_index.inner)
    unfolding remove_key
    removed h = lookup-remove (hash text id) h t.primary_index.inner

    -- the lookups of keys after the removal
    pub without-Changed :
        (t' : Table r)
        → t'.primary_index ≡ index_without
        → IsTable text uuid_key fields t'
        → Changed text uuid_key fields id (λ found. found ≡ none) t t'
    unfolding get
    without-Changed t' index valid = record {
      valid = valid;
      here =
          ap (λ idx. lookup (hash text id) idx.inner) index
          ∙ removed (hash text id)
          ∙ rw (==_refl (hash text id)) refl;
      others = other_keys text uuid_key fields id t t' (λ k differs.
          ap (λ idx. lookup (hash text k) idx.inner) index
          ∙ removed (hash text k)
          ∙ rw differs refl);
    }
