-- ===== src/Table/Tombstone.antt =====
-- Tombstones in a table (src/core/storage/table.rs).
use mathlib.Core.Path.{subst}
use bittice.Prelude.{
  Str, ℕ, ◌≤◌, ◌<◌, ◌≡◌, refl, sym, ap, ◌∙◌, ◌↔◌, ◌≢◌, ◌==◌, Bool, true, false, ltb, ltb→lt,
  if◌then◌else◌, none, some, List, lookup, arith, inl, inr, Bool-cases,
}
use bittice.Bitmaps.{Roaring, IsRoaring}
use bittice.Canonical.{Text}
use bittice.PrimaryIndex.{Location}
use bittice.Segment.{Segment, SegmentWriter, mark_deleted, persist_deleted_bitmap}
use bittice.Segment.Rows.{IsIndexed}
use bittice.Table.{Table, pk_columns, segment_of, find_sealed, tombstone, mark_and_persist}
use bittice.Table.Keys.{has_col}
use bittice.Table.Live.{live_in, live_hash, IsTable, loc_eq, live_hash-tombstone}

pub loc_eq→eq : (a b : Location) → loc_eq a b ≡ true → a ≡ b
loc_eq→eq (a, i) (b, j) h = ground (arith, h)

pub loc_eq_refl : (a : Location) → loc_eq a a ≡ true
loc_eq_refl (a, i) = ground arith

module _ (text : Text) (uuid : Str) {r : Roaring} (laws : IsRoaring r) where
  -- the columns and the count of the active segment are those of before the tombstone
  pub persist-IsIndexed :
      (fields : Str → Bool) (w : SegmentWriter r)
      → IsIndexed r fields w
      → IsIndexed r fields (record w { segment = persist_deleted_bitmap r w.segment })
  unfolding persist_deleted_bitmap
  persist-IsIndexed fields w v = elim (Bool-cases (r.is_empty w.segment.deleted_bitmap)) [
    | inl nothing ↦ rw nothing (record { count = v.count; columns = v.columns })
    | inr some_rows ↦ rw some_rows (record { count = v.count; columns = v.columns })
  ]

  pub mark-IsIndexed :
      (fields : Str → Bool) (l : ℕ) (w : SegmentWriter r)
      → IsIndexed r fields w
      → IsIndexed r fields (record w { segment = mark_and_persist l w.segment })
  unfolding mark_and_persist mark_deleted
  mark-IsIndexed fields l w v =
      persist-IsIndexed fields (record w { segment = mark_deleted r l w.segment })
        (record { count = v.count; columns = v.columns })

  -- A table but for its rows with one hash.
  pub record IsTableBut (fields : Str → Bool) (hid : ℕ) (t : Table r) : Type 0 where
    pub indexed : IsIndexed r fields t.active_segment
    pub keyed : (c : Str) → has_col c (pk_columns t) ≡ true → fields c ≡ true
    pub marked :
        (i : ℕ)
        → t.active_segment.segment.record_count ≤ i
        → r.contains t.active_segment.segment.deleted_bitmap i ≡ false
    pub synced :
        (h : ℕ) (loc : Location)
        → (h == hid) ≡ false
        → (lookup h t.primary_index.inner ≡ some loc) ↔ (live_hash text uuid t loc ≡ some h)
    pub gone : (loc : Location) → live_hash text uuid t loc ≢ some hid

  -- a table without a row of the hash
  pub IsTable-IsTableBut :
      (fields : Str → Bool) (hid : ℕ) (t : Table r)
      → IsTable text uuid fields t
      → lookup hid t.primary_index.inner ≡ none
      → IsTableBut fields hid t
  IsTable-IsTableBut fields hid t v missing = record {
    indexed = v.indexed;
    keyed = v.keyed;
    marked = v.marked;
    synced = λ h loc other. v.synced h loc;
    gone = λ loc live. let at = (v.synced hid loc).1 live in absurd cc;
  }

  deleted-mark :
      (l : ℕ) (s : Segment r) → (mark_and_persist l s).deleted_bitmap ≡ r.insert l s.deleted_bitmap
  unfolding mark_and_persist mark_deleted persist_deleted_bitmap
  deleted-mark l s = elim (Bool-cases (r.is_empty (r.insert l s.deleted_bitmap))) [
    | inl nothing ↦ rw nothing refl
    | inr some_rows ↦ rw some_rows refl
  ]

  count-mark : (l : ℕ) (s : Segment r) → (mark_and_persist l s).record_count ≡ s.record_count
  unfolding mark_and_persist mark_deleted persist_deleted_bitmap
  count-mark l s = elim (Bool-cases (r.is_empty (r.insert l s.deleted_bitmap))) [
    | inl nothing ↦ rw nothing refl
    | inr some_rows ↦ rw some_rows refl
  ]

  -- what a tombstone leaves as it is
  pub index-tombstone :
      (loc : Location) (t : Table r) → (tombstone loc t).primary_index ≡ t.primary_index
  unfolding tombstone
  index-tombstone (id, l) t = elim (Bool-cases (t.active_segment.segment.id == id)) [
    | inl here ↦ rw here refl
    | inr later ↦ rw later refl
  ]

  pub pk_columns-tombstone :
      (loc : Location) (t : Table r) → pk_columns (tombstone loc t) ≡ pk_columns t
  unfolding tombstone pk_columns
  pk_columns-tombstone (id, l) t = elim (Bool-cases (t.active_segment.segment.id == id)) [
    | inl here ↦ rw here refl
    | inr later ↦ rw later refl
  ]

  pub count-tombstone :
      (loc : Location) (t : Table r)
      → (tombstone loc t).active_segment.segment.record_count
        ≡ t.active_segment.segment.record_count
  unfolding tombstone
  count-tombstone (id, l) t = elim (Bool-cases (t.active_segment.segment.id == id)) [
    | inl here ↦ rw here (count-mark l t.active_segment.segment)
    | inr later ↦ rw later refl
  ]

  tombstone-IsIndexed :
      (fields : Str → Bool) (loc : Location) (t : Table r)
      → IsIndexed r fields t.active_segment
      → IsIndexed r fields (tombstone loc t).active_segment
  unfolding tombstone
  tombstone-IsIndexed fields (id, l) t v = elim (Bool-cases (t.active_segment.segment.id == id)) [
    | inl here ↦ rw here (mark-IsIndexed fields l t.active_segment v)
    | inr later ↦ rw later v
  ]

  -- a row that is not deleted is below the count of its segment
  live_in-bound :
      (cols : List Str) (s : Segment r) (i h : ℕ)
      → live_in text uuid cols (some s) i ≡ some h
      → i < s.record_count
  live_in-bound cols s i h live = elim (Bool-cases (ltb i s.record_count)) [
    | inl below ↦ ltb→lt i s.record_count below
    | inr above ↦
        let nothing : live_in text uuid cols (some s) i ≡ none = rw above refl in absurd cc
  ]

  -- the location is below the count, if it is in the active segment
  abbrev pub IsBelow : Location → Table r → Type 0
  IsBelow (id, l) t =
      (t.active_segment.segment.id == id) ≡ true → l < t.active_segment.segment.record_count

  live-IsBelow :
      (loc : Location) (t : Table r) (h : ℕ) → live_hash text uuid t loc ≡ some h → IsBelow loc t
  unfolding segment_of
  live-IsBelow (id, l) t h live here = live_in-bound (pk_columns t) t.active_segment.segment l h (
      ap
        (λ b.
          live_in text uuid (pk_columns t)
            (if b then some t.active_segment.segment else find_sealed id t.immutable_segments) l)
        (sym here)
      ∙ live)

  tombstone-marked :
      (loc : Location) (t : Table r) (i : ℕ)
      → IsBelow loc t
      → ((j : ℕ)
          → t.active_segment.segment.record_count ≤ j
          → r.contains t.active_segment.segment.deleted_bitmap j ≡ false)
      → t.active_segment.segment.record_count ≤ i
      → r.contains (tombstone loc t).active_segment.segment.deleted_bitmap i ≡ false
  unfolding tombstone
  tombstone-marked (id, l) t i below marked above =
      let s = t.active_segment.segment in
      elim (Bool-cases (s.id == id)) [
        | inl here ↦
            rw (here, deleted-mark l s, laws.contains-insert l i s.deleted_bitmap)
              (ground (arith, below here, marked i above, above))
        | inr later ↦ rw later (marked i above)
      ]

  module _ (fields : Str → Bool) (hid : ℕ) (loc : Location) (t : Table r)
      (v : IsTable text uuid fields t) (at : lookup hid t.primary_index.inner ≡ some loc) where
    others-synced :
        (h : ℕ) (other : Location)
        → (h == hid) ≡ false
        → (lookup h t.primary_index.inner ≡ some other)
          ↔ ((if loc_eq loc other then none else live_hash text uuid t other) ≡ some h)
    others-synced h other differs = elim (Bool-cases (loc_eq loc other)) [
      | inl same ↦ rw same (
        (λ found.
            let here : live_hash text uuid t loc ≡ some h =
              ap (live_hash text uuid t) (loc_eq→eq loc other same) ∙ (v.synced h other).0 found in
            let live : live_hash text uuid t loc ≡ some hid = (v.synced hid loc).0 at in
            let clash : some hid ≡ some h = sym live ∙ here in
            absurd (ground (arith, differs, clash))),
        (λ nothing. absurd cc),
      )
      | inr other_row ↦ rw other_row (v.synced h other)
    ]

    no_other :
        (other : Location)
        → (if loc_eq loc other then none else live_hash text uuid t other) ≡ some hid
        → ⊥
    no_other other found = elim (Bool-cases (loc_eq loc other)) [
      | inl same ↦
          let nothing : none ≡ some hid =
            ap (λ b. if b then none else live_hash text uuid t other) (sym same) ∙ found in
          absurd cc
      | inr different ↦
          let live : live_hash text uuid t other ≡ some hid =
            ap (λ b. if b then none else live_hash text uuid t other) (sym different) ∙ found in
          let e : some loc ≡ some other = sym at ∙ (v.synced hid other).1 live in
          let equal : loc ≡ other = cc in
          let true_here : loc_eq loc other ≡ true = ap (loc_eq loc) (sym equal) ∙ loc_eq_refl loc in
          absurd cc
    ]

  -- the tombstone of the row that the index has for the hash
  pub tombstone-IsTableBut :
      (fields : Str → Bool) (hid : ℕ) (loc : Location) (t : Table r)
      → IsTable text uuid fields t
      → lookup hid t.primary_index.inner ≡ some loc
      → IsTableBut fields hid (tombstone loc t)
  tombstone-IsTableBut fields hid loc t v at =
      let live = (v.synced hid loc).0 at in
      record {
        indexed = tombstone-IsIndexed fields loc t v.indexed;
        keyed = λ c has. v.keyed c (ap (has_col c) (sym (pk_columns-tombstone loc t)) ∙ has);
        marked = λ i above.
            tombstone-marked loc t i (live-IsBelow loc t hid live) v.marked
              (omega (arith, above, count-tombstone loc t));
        synced = λ h other differs.
            subst
              (λ idx.
                (lookup h idx.inner ≡ some other)
                ↔ (live_hash text uuid (tombstone loc t) other ≡ some h))
              (sym (index-tombstone loc t))
              (subst (λ found. (lookup h t.primary_index.inner ≡ some other) ↔ (found ≡ some h))
                (sym (live_hash-tombstone text uuid laws t loc other))
                (others-synced fields hid loc t v at h other differs));
        gone = λ other found.
            no_other fields hid loc t v at other
              (sym (live_hash-tombstone text uuid laws t loc other) ∙ found);
      }

  -- a tombstone where no row is live
  pub dead-IsTable :
      (fields : Str → Bool) (loc : Location) (t : Table r)
      → IsTable text uuid fields t
      → IsBelow loc t
      → live_hash text uuid t loc ≡ none
      → IsTable text uuid fields (tombstone loc t)
  dead-IsTable fields loc t v below dead = record {
    indexed = tombstone-IsIndexed fields loc t v.indexed;
    keyed = λ c has. v.keyed c (ap (has_col c) (sym (pk_columns-tombstone loc t)) ∙ has);
    marked = λ i above.
        tombstone-marked loc t i below v.marked (omega (arith, above, count-tombstone loc t));
    synced = λ h other.
        subst
          (λ idx.
            (lookup h idx.inner ≡ some other)
            ↔ (live_hash text uuid (tombstone loc t) other ≡ some h))
          (sym (index-tombstone loc t))
          (subst (λ found. (lookup h t.primary_index.inner ≡ some other) ↔ (found ≡ some h))
            (sym (same_rows other)) (v.synced h other));
  }
    where
      same_rows :
          (other : Location)
          → live_hash text uuid (tombstone loc t) other ≡ live_hash text uuid t other
      same_rows other =
          live_hash-tombstone text uuid laws t loc other ∙ elim (Bool-cases (loc_eq loc other)) [
            | inl same ↦ rw same (sym dead ∙ ap (live_hash text uuid t) (loc_eq→eq loc other same))
            | inr different ↦ rw different refl
          ]
