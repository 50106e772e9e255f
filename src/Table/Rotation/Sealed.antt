-- ===== src/Table/Rotation/Sealed.antt =====
-- What sealing a segment keeps (src/core/storage/table.rs).
use mathlib.Core.Path.{subst}
use bittice.Prelude.{
  Str, ℕ, ◌+◌, ◌%◌, ◌^◌, ◌<◌, ◌≡◌, refl, sym, ap, ◌∙◌, ◌↔◌, ◌==◌, ==_iff, Bool, true, false, ltb,
  leb, le→ltb, if◌then◌else◌, Option, none, some, List, [], ◌∷◌, ◌++◌, lookup, find, get_elem?,
  arith, inl, inr, Bool-cases,
}
use bittice.Bitmaps.{Roaring, IsRoaring}
use bittice.Canonical.{Text}
use bittice.PrimaryIndex.{Location}
use bittice.Segment.{
  or_nil, Segment, SegmentWriter, new, new_writer, flush, flush_dirty, persist_bitmaps,
  persist_deleted_bitmap,
}
use bittice.Segment.Rows.{new-IsIndexed}
use bittice.Table.{Table, pk_columns, read_value, segment_of, find_sealed, or_empty}
use bittice.Table.Keys.{has_col}
use bittice.Table.Live.{live_in, live_in-same, live_hash, IsTable}
use bittice.Table.Rotation.{persist_all, seal, count_flush, rotate, flush_active_segment}

-- The segment has the rows and the tombstones of the other.
record Kept {r : Roaring} (s s' : Segment r) : Type 0 where
  id : s'.id ≡ s.id
  count : s'.record_count ≡ s.record_count
  deleted : s'.deleted_bitmap ≡ s.deleted_bitmap
  columns : s'.columns ≡ s.columns

module _ (text : Text) (uuid : Str) {r : Roaring} (laws : IsRoaring r) where
  live_in-Kept :
      (cols : List Str) (s s' : Segment r) (i : ℕ)
      → Kept s s'
      → live_in text uuid cols (some s') i ≡ live_in text uuid cols (some s) i
  unfolding read_value
  live_in-Kept cols s s' i k =
      live_in-same text uuid laws cols s' s i (ap (ltb i) k.count)
        (ap (λ b. r.contains b i) k.deleted) (λ c. ap (λ m. read_columns m c) k.columns)
    where
      read_columns : List (Str × List Str) → Str → Str
      read_columns m c = or_empty (get_elem? (or_nil (find c m)) i)

  persist-Kept : (s : Segment r) → Kept s (persist_deleted_bitmap r s)
  unfolding persist_deleted_bitmap
  persist-Kept s = elim (Bool-cases (r.is_empty s.deleted_bitmap)) [
    | inl nothing ↦ rw nothing (record { id = refl; count = refl; deleted = refl; columns = refl })
    | inr some_rows ↦
        rw some_rows (record { id = refl; count = refl; deleted = refl; columns = refl })
  ]

  flush_dirty-Kept :
      (interval : ℕ) (w : SegmentWriter r) → Kept w.segment (flush_dirty r interval w).segment
  unfolding flush_dirty persist_bitmaps
  flush_dirty-Kept interval w =
      let k = persist-Kept w.segment in
      elim (Bool-cases (((w.flush_count + 1) % 2 ^ 32) % interval == 0)) [
        | inl due ↦
            rw due (record { id = k.id; count = k.count; deleted = k.deleted; columns = k.columns })
        | inr not_due ↦ rw not_due k
      ]

  -- flushing a writer succeeds and keeps its rows
  flush-Kept :
      (interval : ℕ) (w : SegmentWriter r)
      → 0 < interval
      → (w' : SegmentWriter r) × (flush r interval w ≡ some w') × Kept w.segment w'.segment
  unfolding flush
  flush-Kept interval w positive = elim (Bool-cases w.dirty) [
    | inl dirty ↦
        let not_zero : (interval == 0) ≡ false = ground (arith, positive) in
        (flush_dirty r interval w, rw (dirty, not_zero) refl, flush_dirty-Kept interval w)
    | inr clean ↦
        (w, rw clean refl, record { id = refl; count = refl; deleted = refl; columns = refl })
  ]

  persist_one-Kept :
      (s : Segment r)
      → Kept s (if r.is_empty s.deleted_bitmap then s else persist_deleted_bitmap r s)
  persist_one-Kept s = elim (Bool-cases (r.is_empty s.deleted_bitmap)) [
    | inl nothing ↦ rw nothing (record { id = refl; count = refl; deleted = refl; columns = refl })
    | inr some_rows ↦ rw some_rows (persist-Kept s)
  ]

  find_sealed-persist_all :
      (cols : List Str) (id i : ℕ) (ss : List (Segment r))
      → live_in text uuid cols (find_sealed id (persist_all ss)) i
        ≡ live_in text uuid cols (find_sealed id ss) i
  unfolding find_sealed persist_all
  find_sealed-persist_all cols id i [] = refl
  find_sealed-persist_all cols id i (s ∷ ss) =
      let k = persist_one-Kept s in
      elim (Bool-cases (s.id == id)) [
        | inl here ↦ rw (k.id, here) (live_in-Kept cols s _ i k)
        | inr later ↦ rw (k.id, later) (find_sealed-persist_all cols id i ss)
      ]

  -- the sealed segment is found after the others
  abbrev or_last : List Str → ℕ → ℕ → Segment r → Option (Segment r) → Option ℕ
  or_last cols id i s (some x) = live_in text uuid cols (some x) i
  or_last cols id i s none = if s.id == id then live_in text uuid cols (some s) i else none

  find_sealed-append :
      (cols : List Str) (id i : ℕ) (s : Segment r) (ss : List (Segment r))
      → live_in text uuid cols (find_sealed id (ss ++ s ∷ [])) i
        ≡ or_last cols id i s (find_sealed id ss)
  unfolding find_sealed
  find_sealed-append cols id i s [] = ground arith
  find_sealed-append cols id i s (x ∷ ss) = elim (Bool-cases (x.id == id)) [
    | inl here ↦ rw here refl
    | inr later ↦ rw later (find_sealed-append cols id i s ss)
  ]

  module _ (fields : Str → Bool) (t : Table r) (v : IsTable text uuid fields t)
      (next_free : segment_of (t.active_segment_id + 1) t ≡ none)
      (active_free : find_sealed t.active_segment.segment.id t.immutable_segments ≡ none)
      (save_interval : ℕ) (w : SegmentWriter r)
      (kept : Kept t.active_segment.segment w.segment) where
    -- what `count_flush` leaves
    counted_keys : pk_columns (rotate save_interval w t) ≡ pk_columns t
    unfolding rotate count_flush pk_columns
    counted_keys =
        elim (Bool-cases (leb save_interval ((t.flush_count_since_index_save + 1) % 2 ^ 32))) [
          | inl due ↦ rw due refl
          | inr not_due ↦ rw not_due refl
        ]

    counted_index : (rotate save_interval w t).primary_index ≡ t.primary_index
    unfolding rotate count_flush
    counted_index =
        elim (Bool-cases (leb save_interval ((t.flush_count_since_index_save + 1) % 2 ^ 32))) [
          | inl due ↦ rw due refl
          | inr not_due ↦ rw not_due refl
        ]

    seal-Kept : Kept t.active_segment.segment (seal w)
    unfolding seal persist_bitmaps
    seal-Kept = record {
      id = kept.id;
      count = kept.count;
      deleted = kept.deleted;
      columns = kept.columns;
    }

    -- the rows that are found in the active segment or else in the sealed ones
    or_active : List Str → ℕ → ℕ → Bool → Option (Segment r) → Option ℕ
    or_active cols seg_id i true found = live_in text uuid cols (some t.active_segment.segment) i
    or_active cols seg_id i false found = live_in text uuid cols found i

    or_last-active :
        (seg_id i : ℕ) (active : Bool) (found : Option (Segment r))
        → (t.active_segment.segment.id == seg_id) ≡ active
        → (active ≡ true → found ≡ none)
        → or_last (pk_columns t) seg_id i (seal w) found
          ≡ or_active (pk_columns t) seg_id i active found
    unfolding or_active
    or_last-active seg_id i true (some s) e free = let clash = free refl in absurd cc
    or_last-active seg_id i false (some s) e free = refl
    or_last-active seg_id i true none e free =
        ap (λ b. if b then live_in text uuid (pk_columns t) (some (seal w)) i else none)
          (ap (λ k. k == seg_id) seal-Kept.id ∙ e)
        ∙ live_in-Kept (pk_columns t) t.active_segment.segment (seal w) i seal-Kept
    or_last-active seg_id i false none e free =
        ap (λ b. if b then live_in text uuid (pk_columns t) (some (seal w)) i else none)
          (ap (λ k. k == seg_id) seal-Kept.id ∙ e)

    -- the rows of the segment of an id, which is not the new segment
    sealed_rows :
        (seg_id i : ℕ)
        → live_in text uuid
            (pk_columns t)
            (find_sealed seg_id (persist_all (t.immutable_segments ++ seal w ∷ [])))
            i
          ≡ live_hash text uuid t (seg_id, i)
    unfolding segment_of or_active
    sealed_rows seg_id i =
        find_sealed-persist_all (pk_columns t) seg_id i (t.immutable_segments ++ seal w ∷ [])
        ∙ find_sealed-append (pk_columns t) seg_id i (seal w) t.immutable_segments
        ∙ or_last-active seg_id i (t.active_segment.segment.id == seg_id)
            (find_sealed seg_id t.immutable_segments) refl
            (λ active.
              ap (λ k. find_sealed k t.immutable_segments)
                (sym ((==_iff t.active_segment.segment.id seg_id).0 active))
              ∙ active_free)
        ∙ elim (Bool-cases (t.active_segment.segment.id == seg_id)) [
          | inl active ↦ rw active refl
          | inr other ↦ rw other refl
        ]

    -- the new segment has no rows
    new_rows :
        (seg_id i : ℕ) (next : Bool)
        → (t.active_segment_id + 1 == seg_id) ≡ next
        → live_in text uuid
            (pk_columns t)
            (if next
              then some (new r (t.active_segment_id + 1))
              else find_sealed seg_id (persist_all (t.immutable_segments ++ seal w ∷ [])))
            i
          ≡ live_hash text uuid t (seg_id, i)
    unfolding new
    new_rows seg_id i true e = rw (le→ltb i 0 (omega arith)) (
        sym (
          ap (λ k. live_in text uuid (pk_columns t) (segment_of k t) i)
            (sym ((==_iff (t.active_segment_id + 1) seg_id).0 e))
          ∙ ap (λ s. live_in text uuid (pk_columns t) s i) next_free))
    new_rows seg_id i false e = sealed_rows seg_id i

    live_hash-rotate :
        (loc : Location)
        → live_hash text uuid (rotate save_interval w t) loc ≡ live_hash text uuid t loc
    live_hash-rotate (seg_id, i) =
        ap (λ cols. live_in text uuid cols (segment_of seg_id (rotate save_interval w t)) i)
          counted_keys
        ∙ (unfold rotate new_writer new segment_of in
            new_rows seg_id i (t.active_segment_id + 1 == seg_id) refl)

    rotate-IsTable : IsTable text uuid fields (rotate save_interval w t)
    rotate-IsTable = record {
      indexed = unfold rotate in new-IsIndexed laws fields (t.active_segment_id + 1);
      keyed = λ c has. v.keyed c (ap (has_col c) (sym counted_keys) ∙ has);
      marked = λ i above. unfold rotate new_writer new in laws.contains-empty i;
      synced = λ h loc.
          subst
            (λ idx.
              (lookup h idx.inner ≡ some loc)
              ↔ (live_hash text uuid (rotate save_interval w t) loc ≡ some h))
            (sym counted_index)
            (subst (λ live. (lookup h t.primary_index.inner ≡ some loc) ↔ (live ≡ some h))
              (sym (live_hash-rotate loc)) (v.synced h loc));
    }

  -- `flush_active_segment` in a table whose index has under each hash exactly the row that is not deleted
  -- and whose key has the hash, if the interval for the bitmaps is not zero, the bitmaps behave as
  -- documented, no segment has the next id yet, and no sealed segment has the id of the active one:
  -- it succeeds, every row is where it was with the key and the tombstone that it had, no row is added,
  -- and the index has the same entries, so that the table is again such a table.
  pub flush_active_segment-IsTable :
      (bitmap_interval save_interval : ℕ) (fields : Str → Bool) (t : Table r)
      → 0 < bitmap_interval
      → IsTable text uuid fields t
      → segment_of (t.active_segment_id + 1) t ≡ none
      → find_sealed t.active_segment.segment.id t.immutable_segments ≡ none
      → (t' : Table r) × (flush_active_segment bitmap_interval save_interval t ≡ some t')
        × IsTable text uuid fields t'
        × (t'.primary_index ≡ t.primary_index)
        × ((loc : Location) → live_hash text uuid t' loc ≡ live_hash text uuid t loc)
  unfolding flush_active_segment
  flush_active_segment-IsTable bi si fields t positive v next_free active_free =
      elim (Bool-cases (t.active_segment.segment.record_count == 0)) [
        | inl empty ↦ (t, rw empty refl, v, refl, λ loc. refl)
        | inr rows ↦
            let (w, flushed, kept) = flush-Kept bi t.active_segment positive in
            (
              rotate si w t,
              rw (rows, flushed) refl,
              rotate-IsTable fields t v next_free active_free si w kept,
              counted_index fields t v next_free active_free si w kept,
              live_hash-rotate fields t v next_free active_free si w kept,
            )
      ]
