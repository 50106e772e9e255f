-- ===== src/Table/Live.antt =====
-- The rows that are not deleted, and the index of their keys (src/core/storage/table.rs).
use bittice.Prelude.{
  Str, ℕ, ◌≤◌, ◌≡◌, refl, ap₂, ◌∙◌, ◌↔◌, ◌==◌, Bool, true, false, not, ◌&&◌, ltb, if◌then◌else◌,
  Option, none, some, List, [], ◌∷◌, lookup, arith, inl, inr, Bool-cases,
}
use bittice.Bitmaps.{Roaring, IsRoaring}
use bittice.Canonical.{Text, hash}
use bittice.PrimaryIndex.{Location}
use bittice.Segment.{Segment, mark_deleted, persist_deleted_bitmap}
use bittice.Segment.Rows.{IsIndexed}
use bittice.Table.{
  Table, read_value, pk_columns, resolve_row_pk, segment_of, find_sealed, tombstone, mark_sealed,
  mark_and_persist,
}
use bittice.Table.Keys.{has_col, resolve-same}

abbrev pub hash_of : Text → Option Str → Option ℕ
hash_of text none = none
hash_of text (some k) = some (hash text k)

abbrev pub loc_eq : Location → Location → Bool
loc_eq (a, i) (b, j) = (a == b) && (i == j)

module _ (text : Text) (uuid : Str) {r : Roaring} where
  -- The hash of the key of the row, if the segment has the row and it is not deleted.
  abbrev pub live_in : List Str → Option (Segment r) → ℕ → Option ℕ
  live_in cols none i = none
  live_in cols (some s) i =
      if ltb i s.record_count && not (r.contains s.deleted_bitmap i)
      then hash_of text (resolve_row_pk text uuid cols s i)
      else none

  abbrev pub live_hash : Table r → Location → Option ℕ
  live_hash t (seg_id, i) = live_in (pk_columns t) (segment_of seg_id t) i

  -- The index has, under each hash, the row that is not deleted and whose key has the hash, and nothing
  -- else: no two such rows have keys with the same hash.
  abbrev pub IsSynced : Table r → Type 0
  IsSynced t =
      (h : ℕ) (loc : Location)
      → (lookup h t.primary_index.inner ≡ some loc) ↔ (live_hash t loc ≡ some h)

  -- A table whose rows have the fields `fields`, the columns of the key among them.
  pub record IsTable (fields : Str → Bool) (t : Table r) : Type 0 where
    pub indexed : IsIndexed r fields t.active_segment
    pub keyed : (c : Str) → has_col c (pk_columns t) ≡ true → fields c ≡ true
    pub marked :
        (i : ℕ)
        → t.active_segment.segment.record_count ≤ i
        → r.contains t.active_segment.segment.deleted_bitmap i ≡ false
    pub synced : IsSynced t

  module _ (laws : IsRoaring r) where
    -- a segment with the same rows and tombstones
    pub live_in-same :
        (cols : List Str) (s s' : Segment r) (i : ℕ)
        → ltb i s.record_count ≡ ltb i s'.record_count
        → r.contains s.deleted_bitmap i ≡ r.contains s'.deleted_bitmap i
        → ((c : Str) → read_value s i c ≡ read_value s' i c)
        → live_in cols (some s) i ≡ live_in cols (some s') i
    live_in-same cols s s' i count deleted values =
        ap₂ (λ b o. if b then hash_of text o else none) (ap₂ (λ b c. b && not c) count deleted)
          (resolve-same text uuid cols s s' i values)

    live_in-persist :
        (cols : List Str) (s : Segment r) (i : ℕ)
        → live_in cols (some (persist_deleted_bitmap r s)) i ≡ live_in cols (some s) i
    unfolding persist_deleted_bitmap read_value
    live_in-persist cols s i = elim (Bool-cases (r.is_empty s.deleted_bitmap)) [
      | inl nothing ↦ rw nothing refl
      | inr some_rows ↦ rw some_rows (
          live_in-same cols (record s { deleted_file = some s.deleted_bitmap }) s i refl refl
            (λ c. refl))
    ]

    live_in-mark :
        (cols : List Str) (s : Segment r) (l i : ℕ)
        → live_in cols (some (mark_and_persist l s)) i
          ≡ (if l == i then none else live_in cols (some s) i)
    unfolding mark_and_persist mark_deleted read_value
    live_in-mark cols s l i =
        live_in-persist cols (mark_deleted r l s) i
        ∙ ap₂ (λ b o. if ltb i s.record_count && not b then hash_of text o else none)
            (laws.contains-insert l i s.deleted_bitmap)
            (resolve-same text uuid cols (mark_deleted r l s) s i (λ c. refl))
        ∙ ground arith

    pub id-mark : (l : ℕ) (s : Segment r) → (mark_and_persist l s).id ≡ s.id
    unfolding mark_and_persist mark_deleted persist_deleted_bitmap
    id-mark l s = elim (Bool-cases (r.is_empty (r.insert l s.deleted_bitmap))) [
      | inl nothing ↦ rw nothing refl
      | inr some_rows ↦ rw some_rows refl
    ]

    find_sealed-mark :
        (cols : List Str) (id l other i : ℕ) (ss : List (Segment r))
        → live_in cols (find_sealed other (mark_sealed id l ss)) i
          ≡ (if (id == other) && (l == i) then none else live_in cols (find_sealed other ss) i)
    unfolding find_sealed mark_sealed
    find_sealed-mark cols id l other i [] = ground arith
    find_sealed-mark cols id l other i (s ∷ ss) = elim (Bool-cases (s.id == id)) [
      | inl here ↦ elim (Bool-cases (s.id == other)) [
        | inl same ↦
            rw (here, id-mark l s, same) (live_in-mark cols s l i ∙ ground (arith, here, same))
        | inr different ↦ rw (here, id-mark l s, different) (ground (arith, here, different))
      ]
      | inr later ↦ elim (Bool-cases (s.id == other)) [
        | inl same ↦ rw (later, same) (ground (arith, later, same))
        | inr different ↦ rw (later, different) (find_sealed-mark cols id l other i ss)
      ]
    ]

    -- A tombstone takes away its row and no other.
    pub live_hash-tombstone :
        (t : Table r) (loc other : Location)
        → live_hash (tombstone loc t) other ≡ (if loc_eq loc other then none else live_hash t other)
    unfolding tombstone segment_of pk_columns
    live_hash-tombstone t (id, l) (other, i) =
        elim (Bool-cases (t.active_segment.segment.id == id)) [
          | inl here ↦ elim (Bool-cases (t.active_segment.segment.id == other)) [
            | inl same ↦
                rw (here, id-mark l t.active_segment.segment, same)
                  (live_in-mark (pk_columns t) t.active_segment.segment l i
                    ∙ ground (arith, here, same))
            | inr different ↦
                rw (here, id-mark l t.active_segment.segment, different)
                  (ground (arith, here, different))
          ]
          | inr later ↦ elim (Bool-cases (t.active_segment.segment.id == other)) [
            | inl same ↦ rw (later, same) (ground (arith, later, same))
            | inr different ↦
                rw (later, different)
                  (find_sealed-mark (pk_columns t) id l other i t.immutable_segments)
          ]
        ]
