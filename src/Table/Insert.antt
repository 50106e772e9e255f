-- ===== src/Table/Insert.antt =====
-- Inserting a row (src/core/storage/table.rs).
use mathlib.Core.Path.{subst}
use bittice.Prelude.{
  Str, ℕ, ◌^◌, ◌<◌, ◌≡◌, refl, sym, ap, ◌∙◌, ◌↔◌, ◌==◌, ==_refl, ==_iff, Bool, true, false, not,
  ◌&&◌, ltb, le→ltb, if◌then◌else◌, none, some, lookup, arith, inl, inr, Bool-cases,
}
use bittice.Bitmaps.{Roaring, IsRoaring}
use bittice.Canonical.{Text, hash}
use bittice.Wal.{Wal}
use bittice.PrimaryIndex.{PrimaryIndex, Location}
use bittice.Segment.{Row, Segment, append_record}
use bittice.Segment.Rows.{
  HasFields, append_record-IsIndexed, count-append_record, deleted-append_record, id-append_record,
}
use bittice.Table.{Table, pk_columns, resolve_row_pk, segment_of}
use bittice.Table.Rows.{read_value-append_old}
use bittice.Table.Live.{live_in, live_in-same, live_hash, IsTable, loc_eq}
use bittice.Table.Tombstone.{IsTableBut, loc_eq→eq, loc_eq_refl}

-- The table after the end of `insert`.
abbrev pub appended : {r : Roaring} → Table r → Wal → Row → PrimaryIndex → Table r
appended {r} t wal row idx = record t {
  wal = wal;
  active_segment = append_record r row t.active_segment;
  primary_index = idx;
}

module _ (text : Text) (uuid : Str) {r : Roaring} (laws : IsRoaring r) (t : Table r)
    (fields : Str → Bool) (row : Row) (id : Str) (wal : Wal) (idx : PrimaryIndex)
    (v : IsTableBut text uuid laws fields (hash text id) t) (has : HasFields fields row)
    (room : t.active_segment.segment.record_count < 2 ^ 32)
    (keyed : resolve_row_pk text uuid
        (pk_columns t)
        (append_record r row t.active_segment).segment
        t.active_segment.segment.record_count
      ≡ some id) where
  abbrev s : Segment r
  s = t.active_segment.segment

  abbrev s' : Segment r
  s' = (append_record r row t.active_segment).segment

  -- where the new row is
  abbrev new_loc : Location
  new_loc = (s.id, s.record_count)

  live_in-append :
      (i : ℕ)
      → live_in text uuid (pk_columns t) (some s') i ≡ (
          if s.record_count == i
          then some (hash text id)
          else live_in text uuid (pk_columns t) (some s) i)
  live_in-append i = elim (Bool-cases (s.record_count == i)) [
    | inl new ↦
        let e : s.record_count ≡ i = (==_iff s.record_count i).0 new in
        let present : (ltb i s'.record_count && not (r.contains s'.deleted_bitmap i)) ≡ true =
          rw (count-append_record row t.active_segment, deleted-append_record row t.active_segment)
            (ground (arith, v.marked i, e)) in
        let key : resolve_row_pk text uuid (pk_columns t) s' i ≡ some id =
          ap (resolve_row_pk text uuid (pk_columns t) s') (sym e) ∙ keyed in
        rw (new, present, key) refl
    | inr old ↦ elim (Bool-cases (ltb i s.record_count)) [
      | inl below ↦ rw old (
          live_in-same text uuid laws (pk_columns t) s' s i
            (rw (count-append_record row t.active_segment) (ground (arith, below)))
            (ap (λ b. r.contains b i) (deleted-append_record row t.active_segment))
            (λ c.
              read_value-append_old fields row t.active_segment v.indexed has room i c
                (ground (arith, below))))
      | inr above ↦
          let beyond : ltb i s'.record_count ≡ false =
            rw (count-append_record row t.active_segment) (ground (arith, above, old)) in
          rw (old, beyond, above) refl
    ]
  ]

  live_hash-append :
      (loc : Location)
      → live_hash text uuid (appended t wal row idx) loc
        ≡ (if loc_eq new_loc loc then some (hash text id) else live_hash text uuid t loc)
  unfolding segment_of pk_columns
  live_hash-append (seg_id, i) = elim (Bool-cases (s.id == seg_id)) [
    | inl here ↦ rw (id-append_record row t.active_segment, here) (live_in-append i)
    | inr other ↦ rw (id-append_record row t.active_segment, other) refl
  ]

  nothing_there : live_hash text uuid t new_loc ≡ none
  unfolding segment_of pk_columns
  nothing_there = rw (==_refl s.id, le→ltb s.record_count s.record_count (omega arith)) refl

  -- an index that has the new row under the hash, and else what it had
  append-synced :
      (h : ℕ) (loc : Location)
      → ((if hash text id == h then some new_loc else lookup h t.primary_index.inner) ≡ some loc)
        ↔ ((if loc_eq new_loc loc then some (hash text id) else live_hash text uuid t loc) ≡ some h)
  append-synced h loc = elim (Bool-cases (hash text id == h)) [
    | inl same ↦
        let hs : hash text id ≡ h = (==_iff (hash text id) h).0 same in
        elim (Bool-cases (loc_eq new_loc loc)) [
          | inl new ↦ rw (same, new) ((λ e. ap some hs), (λ e. ap some (loc_eq→eq new_loc loc new)))
          | inr old ↦
              rw (same, old)
                (
                  (λ e.
                      let there : new_loc ≡ loc = cc in
                      let clash : loc_eq new_loc loc ≡ true =
                        ap (loc_eq new_loc) (sym there) ∙ loc_eq_refl new_loc in
                      absurd cc),
                  (λ e. absurd (v.gone loc (e ∙ ap some (sym hs)))),
                )
        ]
    | inr differs ↦ elim (Bool-cases (loc_eq new_loc loc)) [
      | inl new ↦
          rw (differs, new)
            (
              (λ e.
                  let live : live_hash text uuid t loc ≡ some h =
                    (v.synced h loc (ground (arith, differs))).0 e in
                  let dead : live_hash text uuid t loc ≡ none =
                    ap (live_hash text uuid t) (sym (loc_eq→eq new_loc loc new)) ∙ nothing_there in
                  absurd cc),
              (λ e. let clash : hash text id ≡ h = cc in absurd (ground (arith, differs, clash))),
            )
      | inr old ↦ rw (differs, old) (v.synced h loc (ground (arith, differs)))
    ]
  ]

  pub appended-IsTable :
      ((h : ℕ)
        → lookup h idx.inner
          ≡ (if hash text id == h then some new_loc else lookup h t.primary_index.inner))
      → IsTable text uuid fields (appended t wal row idx)
  unfolding pk_columns
  appended-IsTable entered = record {
    indexed = append_record-IsIndexed laws fields row t.active_segment v.indexed has room;
    keyed = v.keyed;
    marked = λ i above.
        rw (deleted-append_record row t.active_segment)
          (v.marked i (omega (arith, above, count-append_record row t.active_segment)));
    synced = λ h loc.
        subst
          (λ found.
            (found ≡ some loc) ↔ (live_hash text uuid (appended t wal row idx) loc ≡ some h))
          (sym (entered h))
          (subst
            (λ live.
              ((if hash text id == h then some new_loc else lookup h t.primary_index.inner)
                ≡ some loc)
              ↔ (live ≡ some h))
            (sym (live_hash-append loc)) (append-synced h loc));
  }
