-- ===== src/Snapshot/Search.antt =====
-- The binary search of the reader finds what the linear scan finds.
use bittice.Prelude.{
  ℕ, zero, suc, ◌+◌, ◌-◌, ◌/◌, ◌≤◌, ◌<◌, ◌≡◌, ap, sym, ◌∙◌, none, some, List, [], ◌∷◌, ◌==◌, ltb,
  length, get_elem?, arith, ok, inl, inr, Bool-cases, ltb→lt, lt→ltb, le→ltb, compare-cases,
}
use bittice.Snapshot.Format.{IndexEntry}
use bittice.Snapshot.Reader.{SnapshotReader, read_index_entry, find_loop, find_entry}
use bittice.Snapshot.Sorted.{IsSorted, IsSorted-lt, entry_of, entry_of_hit, entry_of_miss}

-- The reader's index section decodes to the entries `es`.
pub record Decodes (r : SnapshotReader) (es : List IndexEntry) : Type 0 where
  pub num_entries : r.num_entries ≡ length es
  pub reads :
      (i : ℕ)
      → i < length es
      → (e : IndexEntry) × (read_index_entry r i ≡ ok e) × (get_elem? es i ≡ some e)

pub get_elem?-lt-length :
    (es : List IndexEntry) (i : ℕ) (e : IndexEntry) → get_elem? es i ≡ some e → i < length es
get_elem?-lt-length [] i e h = cc
get_elem?-lt-length (x ∷ es) zero e h = omega arith
get_elem?-lt-length (x ∷ es) (suc i) e h = omega (arith, get_elem?-lt-length es i e h)

-- The hash lies in no entry outside [lo, hi).
pub record Outside (hash : ℕ) (es : List IndexEntry) (lo hi : ℕ) : Type 0 where
  pub before : (i : ℕ) (e : IndexEntry) → i < lo → get_elem? es i ≡ some e → e.hash < hash
  pub after : (i : ℕ) (e : IndexEntry) → hi ≤ i → get_elem? es i ≡ some e → hash < e.hash

module _ (r : SnapshotReader) (es : List IndexEntry) (hash : ℕ) (d : Decodes r es)
    (sorted : IsSorted es) where
  -- an empty range leaves no entry for the hash
  empty_range : (lo hi : ℕ) → hi ≤ lo → Outside hash es lo hi → entry_of hash es ≡ none
  empty_range lo hi le out = entry_of_miss hash es (λ i e h eq. elim (Bool-cases (ltb i lo)) [
    | inl lt ↦ absurd (omega (arith, out.before i e (ltb→lt i lo lt) h))
    | inr ge ↦ absurd (omega (arith, out.after i e (ground arith) h))
  ])

  raise_lo :
      (lo mid hi : ℕ) (m : IndexEntry)
      → get_elem? es mid ≡ some m
      → m.hash < hash
      → Outside hash es lo hi
      → Outside hash es (mid + 1) hi
  raise_lo lo mid hi m at below out = record {
    before = λ i e lt h. elim (Bool-cases (ltb i mid)) [
      | inl less ↦ omega (arith, IsSorted-lt es i mid e m sorted (ltb→lt i mid less) h at)
      | inr same ↦
          let eq : i ≡ mid = ground arith in
          let both : some e ≡ some m = sym h ∙ ap (get_elem? es) eq ∙ at in ground arith
    ];
    after = out.after;
  }

  lower_hi :
      (lo mid hi : ℕ) (m : IndexEntry)
      → get_elem? es mid ≡ some m
      → hash < m.hash
      → Outside hash es lo hi
      → Outside hash es lo mid
  lower_hi lo mid hi m at above out = record {
    before = out.before;
    after = λ i e le h. elim (Bool-cases (ltb mid i)) [
      | inl more ↦ omega (arith, IsSorted-lt es mid i m e sorted (ltb→lt mid i more) at h)
      | inr same ↦
          let eq : i ≡ mid = ground arith in
          let both : some e ≡ some m = sym h ∙ ap (get_elem? es) eq ∙ at in ground arith
    ];
  }

  -- one round, given what the search of either half returns
  find_round :
      (fuel lo hi : ℕ) (m : IndexEntry)
      → lo < hi
      → read_index_entry r (lo + (hi - lo) / 2) ≡ ok m
      → get_elem? es (lo + (hi - lo) / 2) ≡ some m
      → (m.hash < hash → find_loop r hash fuel (lo + (hi - lo) / 2 + 1) hi ≡ ok (entry_of hash es))
      → (hash < m.hash → find_loop r hash fuel lo (lo + (hi - lo) / 2) ≡ ok (entry_of hash es))
      → find_loop r hash (suc fuel) lo hi ≡ ok (entry_of hash es)
  unfolding find_loop
  find_round fuel lo hi m lt reads at above below = elim (compare-cases m.hash hash) [
    | inl (c, less) ↦ rw (lt→ltb lo hi lt, reads, c) (above less)
    | inr (inl (c, more)) ↦ rw (lt→ltb lo hi lt, reads, c) (below more)
    | inr (inr (c, same)) ↦
        rw (lt→ltb lo hi lt, reads, c, ← same)
          (ap ok (sym (entry_of_hit es (lo + (hi - lo) / 2) m sorted at)))
  ]

  pub find_loop-entry_of :
      (fuel lo hi : ℕ)
      → hi - lo ≤ fuel
      → hi ≤ length es
      → Outside hash es lo hi
      → find_loop r hash fuel lo hi ≡ ok (entry_of hash es)
  unfolding find_loop
  find_loop-entry_of zero lo hi enough fits out =
      let done : hi ≤ lo = omega arith in
      rw (le→ltb lo hi done) (ap ok (sym (empty_range lo hi done out)))
  find_loop-entry_of (suc fuel) lo hi enough fits out = elim (Bool-cases (ltb lo hi)) [
    | inr done ↦ rw done (ap ok (sym (empty_range lo hi (ground arith) out)))
    | inl more ↦
        let lt : lo < hi = ltb→lt lo hi more in
        let mid : ℕ = lo + (hi - lo) / 2 in
        let (m, reads, at) = d.reads mid (omega arith) in
        find_round fuel lo hi m lt reads at
          (λ below.
            find_loop-entry_of fuel (mid + 1) hi (omega arith) fits
              (raise_lo lo mid hi m at below out))
          (λ above.
            find_loop-entry_of fuel lo mid (omega arith) (omega arith)
              (lower_hi lo mid hi m at above out))
  ]

  whole_range : Outside hash es 0 (length es)
  whole_range = record {
    before = λ i e lt h. absurd (omega arith);
    after = λ i e le h. absurd (omega (arith, get_elem?-lt-length es i e h));
  }

  -- On a reader whose index section holds entries in strictly ascending hash order, the binary search
  -- returns what a scan of all entries returns: the entry of the hash, or none if there is none.
  pub find_entry-entry_of : find_entry r hash ≡ ok (entry_of hash es)
  unfolding find_entry
  find_entry-entry_of = elim (Bool-cases (r.num_entries == 0)) [
    | inl empty ↦ rw empty (
        ap ok (sym (empty_range 0 (length es) (let e = d.num_entries in ground arith) whole_range)))
    | inr more ↦ rw more (
        simp d.num_entries
          (find_loop-entry_of (length es) 0 (length es) (omega arith) (omega arith) whole_range))
  ]
