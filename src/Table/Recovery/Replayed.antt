-- ===== src/Table/Recovery/Replayed.antt =====
-- Replaying a deletion (src/core/storage/table.rs).
use bittice.Prelude.{
  Str, ℕ, ◌≡◌, refl, sym, ap, ◌∙◌, ◌==◌, Bool, false, if◌then◌else◌, Option, none, some, lookup,
  arith, inl, inr, Bool-cases, Option-cases,
}
use mathlib.Core.Path.{subst}
use bittice.Bitmaps.{Roaring, IsRoaring}
use bittice.Canonical.{Text, hash}
use bittice.PrimaryIndex.{PrimaryIndex, Location, remove_key}
use bittice.Table.{Table, tombstone}
use bittice.Table.Live.{live_hash, IsTable, loc_eq}
use bittice.Table.Tombstone.{
  IsTableBut, IsTable-IsTableBut, tombstone-IsTableBut, index-tombstone, dead-IsTable, IsBelow,
  loc_eq→eq,
}
use bittice.Table.Changes.{Changed}
use bittice.Table.Removal.{without-IsTable, tombstone-with, index_without, removed, without-Changed}
use bittice.Table.Recovery.{tombstone_moved, replay_delete}

loc_eq_sym : (a b : Location) → loc_eq a b ≡ loc_eq b a
loc_eq_sym (a, i) (b, j) = ground arith

module _ (text : Text) (uuid_key : Str) {r : Roaring} (laws : IsRoaring r)
    (fields : Str → Bool) where
  -- no row of another key is live at the logged location
  abbrev pub IsOf : ℕ → Location → Table r → Type 0
  IsOf hid logged t = (h : ℕ) → live_hash text uuid_key t logged ≡ some h → h ≡ hid

  module _ (id : Str) (logged : Location) (t : Table r) (v : IsTable text uuid_key fields t)
      (below : IsBelow text uuid_key laws logged t) (own : IsOf (hash text id) logged t) where
    abbrev hid : ℕ
    hid = hash text id

    abbrev without : PrimaryIndex
    without = index_without text uuid_key laws fields id t v

    -- if the index has another location or none, no row is live at the logged one
    dead_there :
        (found : Option Location)
        → lookup hid t.primary_index.inner ≡ found
        → ((loc : Location) → found ≡ some loc → loc_eq logged loc ≡ false)
        → live_hash text uuid_key t logged ≡ none
    dead_there found at other = elim (Option-cases (live_hash text uuid_key t logged)) [
      | inl dead ↦ dead
      | inr (h, live) ↦
          let mine : lookup hid t.primary_index.inner ≡ some logged =
            (v.synced hid logged).1 (live ∙ ap some (own h live)) in
          let clash : loc_eq logged logged ≡ false = other logged (sym at ∙ mine) in
          absurd (ground (arith, clash))
    ]

    -- the tombstones, on the table that has lost the key
    marked-Changed :
        (m : Table r)
        → m.primary_index ≡ t.primary_index
        → IsTableBut text uuid_key laws fields hid m
        → Changed text uuid_key fields id
            (λ at. at ≡ none)
            t
            (record m { primary_index = without; wal = t.wal })
    marked-Changed m same but =
        without-Changed text uuid_key laws fields id t v
          (record m { primary_index = without; wal = t.wal }) refl
          (without-IsTable text uuid_key laws fields hid m without t.wal but (λ h.
            removed text uuid_key laws fields id t v h
            ∙ ap (λ idx. if hid == h then none else lookup h idx.inner) (sym same)))

    first_mark :
        tombstone logged (record t { primary_index = without })
        ≡ record (tombstone logged t) { primary_index = without; wal = t.wal }
    first_mark = tombstone-with text uuid_key laws fields logged t without t.wal

    tombstone_moved-Changed :
        (found : Option Location)
        → lookup hid t.primary_index.inner ≡ found
        → Changed text uuid_key fields id
            (λ at. at ≡ none)
            t
            (tombstone_moved text logged found
              (tombstone logged (record t { primary_index = without })))
    unfolding tombstone_moved
    tombstone_moved-Changed none at =
        subst (Changed text uuid_key fields id (λ o. o ≡ none) t) (sym first_mark) (
          marked-Changed (tombstone logged t) (index-tombstone text uuid_key laws logged t) (
            IsTable-IsTableBut text uuid_key laws fields hid (tombstone logged t)
              (dead-IsTable text uuid_key laws fields logged t v below
                (dead_there none at (λ loc e. absurd cc)))
              (ap (λ idx. lookup hid idx.inner) (index-tombstone text uuid_key laws logged t)
                ∙ at)))
    tombstone_moved-Changed (some loc) at = elim (Bool-cases (loc_eq loc logged)) [
      | inl same ↦ rw same (
          subst (Changed text uuid_key fields id (λ o. o ≡ none) t) (sym first_mark) (
            marked-Changed (tombstone logged t) (index-tombstone text uuid_key laws logged t) (
              tombstone-IsTableBut text uuid_key laws fields hid logged t v
                (at ∙ ap some (loc_eq→eq loc logged same)))))
      | inr moved ↦
          let dead = dead_there (some loc) at (λ other e.
            let same : loc ≡ other = cc in
            ap (loc_eq logged) (sym same) ∙ loc_eq_sym logged loc ∙ moved) in
          let m1 = tombstone logged t in
          let index1 = index-tombstone text uuid_key laws logged t in
          let v1 = dead-IsTable text uuid_key laws fields logged t v below dead in
          rw moved (
            subst (Changed text uuid_key fields id (λ o. o ≡ none) t)
              (sym (
                ap (tombstone loc) first_mark
                ∙ tombstone-with text uuid_key laws fields loc m1 without t.wal))
              (marked-Changed (tombstone loc m1)
                (index-tombstone text uuid_key laws loc m1 ∙ index1)
                (tombstone-IsTableBut text uuid_key laws fields hid loc m1 v1
                  (ap (λ idx. lookup hid idx.inner) index1 ∙ at))))
    ]

  -- Replaying a logged deletion of a key, in a table whose index has under each hash exactly the row that
  -- is not deleted and whose key has the hash, if the bitmaps behave as documented, the logged location
  -- is below the count where it is in the active segment, and no row of a key with another hash is live
  -- there: the index is so again, without the normalized key, whose row is deleted wherever it is now,
  -- at the logged location or where an earlier step of the replay has put it. Keys with other hashes
  -- have the row that they had.
  pub replay_delete-Changed :
      (id : Str) (logged : Location) (t : Table r)
      → IsTable text uuid_key fields t
      → IsBelow text uuid_key laws logged t
      → IsOf (hash text (text.nfc id)) logged t
      → Changed text uuid_key fields
          (text.nfc id)
          (λ found. found ≡ none)
          t
          (replay_delete text id logged t)
  unfolding replay_delete remove_key
  replay_delete-Changed id logged t v below own =
      tombstone_moved-Changed (text.nfc id) logged t v below own
        (lookup (hash text (text.nfc id)) t.primary_index.inner) refl
