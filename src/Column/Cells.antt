-- ===== src/Column/Cells.antt =====
-- Every value of a column is read back at the row that it was appended for.
use bittice.Prelude.{
  ℕ, zero, suc, ◌+◌, ◌*◌, ◌%◌, ◌≤◌, ◌<◌, ◌≡◌, refl, sym, ap, ◌∙◌, Option, none, some, List, [], ◌∷◌,
  ◌++◌, append_assoc, append-nil, length, length-append, slice-append, get_elem?, le→ltb, lt→ltb,
  ok, arith, inl, inr, ◌⊎◌, Option-cases,
}
use mathlib.Core.Path.{subst}
use mathlib.Core.Option.{some-injective}
use native.Mathlib.Nat.{mod-eq_of_lt}
use bittice.Bytes.{
  u64_mod, to_le_bytes, from_le_bytes, length-to_le_bytes, from_le_bytes-to_le_bytes,
}
use bittice.Snapshot.Codec.{Bincode}
use bittice.Snapshot.Reader.{checked_slice}
use bittice.Column.{
  Utf8, IsText, Column, new_column, append_value, append_values, read_cell, read_value_from_mmap,
}

-- The middle of three pieces, with the piece before it and its own length.
checked_middle :
    (start end : ℕ) (xs ys zs : List ℕ)
    → start ≡ length xs
    → end ≡ length xs + length ys
    → checked_slice (xs ++ (ys ++ zs)) start end ≡ ok ys
unfolding checked_slice
checked_middle start end xs ys zs hs he =
    let total = length-append xs (ys ++ zs) in
    let tail = length-append ys zs in
    rw (
      le→ltb (length (xs ++ (ys ++ zs))) end (omega (arith, total, tail, he)),
      le→ltb end start (omega (arith, hs, he)),
      slice-append start end xs ys zs hs he,
    )

abbrev pub value_or : {S : Type 0} → S → Option S → S
value_or empty none = empty
value_or empty (some s) = s

past_end : {S : Type 0} (vals : List S) (i : ℕ) → get_elem? vals i ≡ none → length vals ≤ i
past_end [] i h = omega arith
past_end (x ∷ vals) zero h = cc
past_end (x ∷ vals) (suc i) h = omega (arith, past_end vals i h)

module _ (u : Utf8) (codec : Bincode u.Str) (text : IsText u codec) where
  abbrev encoded : u.Str → List ℕ
  encoded s = to_le_bytes 8 (length (u.as_bytes s)) ++ u.as_bytes s

  -- Where the value of a row is in the two files.
  record IsAt (c : Column) (i : ℕ) (s : u.Str) : Type 0 where
    before : List ℕ
    after : List ℕ
    offsets_before : List ℕ
    offsets_after : List ℕ
    dat : c.dat ≡ before ++ (encoded s ++ after)
    offsets : c.offsets ≡ offsets_before ++ (to_le_bytes 8 (length before) ++ offsets_after)
    row : i * 8 ≡ length offsets_before

  u64_read : (v : ℕ) → v < u64_mod → from_le_bytes (to_le_bytes 8 v) ≡ v
  u64_read v h = from_le_bytes-to_le_bytes 8 v (omega arith)

  the_lt : (v : ℕ) → v < u64_mod → v < u64_mod
  the_lt v h = h

  read-IsAt :
      (c : Column) (i : ℕ) (s : u.Str)
      → IsAt c i s
      → length c.dat < u64_mod
      → read_value_from_mmap u c.dat c.offsets i ≡ ok s
  unfolding read_value_from_mmap read_cell
  read-IsAt c i s at small =
      let n : ℕ = length at.before in
      let k : ℕ = length (u.as_bytes s) in
      let l1 = ap length at.dat in
      let l2 = length-append at.before (encoded s ++ at.after) in
      let l3 = length-append (encoded s) at.after in
      let l4 = length-append (to_le_bytes 8 k) (u.as_bytes s) in
      let l5 = length-to_le_bytes 8 k in
      let fits : n + 8 + k < u64_mod = omega (arith, l1, l2, l3, l4, l5, small) in
      let flat : c.dat ≡ at.before ++ (to_le_bytes 8 k ++ (u.as_bytes s ++ at.after)) =
        at.dat
        ∙ ap (λ r. at.before ++ r) (append_assoc (to_le_bytes 8 k) (u.as_bytes s) at.after) in
      let split : c.dat ≡ (at.before ++ to_le_bytes 8 k) ++ (u.as_bytes s ++ at.after) =
        flat ∙ sym (append_assoc at.before (to_le_bytes 8 k) (u.as_bytes s ++ at.after)) in
      let position : checked_slice c.offsets (i * 8) (i * 8 + 8) ≡ ok (to_le_bytes 8 n) =
        ap (λ o. checked_slice o (i * 8) (i * 8 + 8)) at.offsets
        ∙ checked_middle (i * 8) (i * 8 + 8) at.offsets_before (to_le_bytes 8 n) at.offsets_after
            at.row (omega (arith, at.row, length-to_le_bytes 8 n)) in
      let size : checked_slice c.dat n (n + 8) ≡ ok (to_le_bytes 8 k) =
        ap (λ d. checked_slice d n (n + 8)) flat
        ∙ checked_middle n (n + 8) at.before (to_le_bytes 8 k) (u.as_bytes s ++ at.after) refl
            (omega (arith, l5)) in
      let bytes : checked_slice c.dat (n + 8) (n + 8 + k) ≡ ok (u.as_bytes s) =
        ap (λ d. checked_slice d (n + 8) (n + 8 + k)) split
        ∙ checked_middle (n + 8) (n + 8 + k) (at.before ++ to_le_bytes 8 k) (u.as_bytes s) at.after
            (omega (arith, l5, length-append at.before (to_le_bytes 8 k)))
            (omega (arith, l5, length-append at.before (to_le_bytes 8 k))) in
      rw (
        position,
        u64_read n (omega (arith, fits)),
        mod-eq_of_lt (the_lt (n + 8) (omega (arith, fits))),
        size,
        u64_read k (omega (arith, fits)),
        mod-eq_of_lt (the_lt (n + 8 + k) fits),
        bytes,
        text.decodes s,
      )

  -- A value stays where it is when another one is appended.
  append-IsAt :
      (c : Column) (i : ℕ) (s : u.Str) (more offset : List ℕ) (next : ℕ)
      → IsAt c i s
      → IsAt
          (record { dat = c.dat ++ more; offsets = c.offsets ++ offset; current_offset = next })
          i
          s
  append-IsAt c i s more offset next at = record {
    before = at.before;
    after = at.after ++ more;
    offsets_before = at.offsets_before;
    offsets_after = at.offsets_after ++ offset;
    dat =
        ap (λ d. d ++ more) at.dat
        ∙ append_assoc at.before (encoded s ++ at.after) more
        ∙ ap (λ r. at.before ++ r) (append_assoc (encoded s) at.after more);
    offsets =
        ap (λ d. d ++ offset) at.offsets
        ∙ append_assoc at.offsets_before (to_le_bytes 8 (length at.before) ++ at.offsets_after)
            offset
        ∙ ap (λ r. at.offsets_before ++ r)
            (append_assoc (to_le_bytes 8 (length at.before)) at.offsets_after offset);
    row = at.row;
  }

  -- The files hold the values of the rows `vals`, and nothing else.
  record Holds (c : Column) (vals : List u.Str) : Type 0 where
    next : c.current_offset ≡ length c.dat
    rows : length c.offsets ≡ length vals * 8
    values : (i : ℕ) (s : u.Str) → get_elem? vals i ≡ some s → IsAt c i s

  -- the bytes that are still to be written
  abbrev pub total_size : List u.Str → ℕ
  total_size [] = 0
  total_size (s ∷ vals) = 8 + length (u.as_bytes s) + total_size vals

  get_elem?-append :
      (vals : List u.Str) (v s : u.Str) (i : ℕ)
      → get_elem? (vals ++ v ∷ []) i ≡ some s
      → (get_elem? vals i ≡ some s) ⊎ ((i ≡ length vals) × (v ≡ s))
  get_elem?-append [] v s zero h = inr (refl, some-injective v s h)
  get_elem?-append [] v s (suc i) h = cc
  get_elem?-append (x ∷ vals) v s zero h = inl h
  get_elem?-append (x ∷ vals) v s (suc i) h = elim (get_elem?-append vals v s i h) [
    | inl old ↦ inl old
    | inr (at, same) ↦ inr (ap suc at, same)
  ]

  append_value-Holds :
      (c : Column) (vals : List u.Str) (v : u.Str)
      → Holds c vals
      → length c.dat + (8 + length (u.as_bytes v)) < u64_mod
      → (c' : Column) × (append_value u codec c v ≡ ok c')
        × Holds c' (vals ++ v ∷ [])
        × (length c'.dat ≡ length c.dat + (8 + length (u.as_bytes v)))
  unfolding append_value
  append_value-Holds c vals v holds small =
      (grown, rw (text.layout v), record { next = next; rows = rows; values = values }, longer)
    where
      grown : Column
      grown = record {
        dat = c.dat ++ encoded v;
        offsets = c.offsets ++ to_le_bytes 8 c.current_offset;
        current_offset = (c.current_offset + length (encoded v)) % u64_mod;
      }

      size : length (encoded v) ≡ 8 + length (u.as_bytes v)
      size =
          length-append (to_le_bytes 8 (length (u.as_bytes v))) (u.as_bytes v)
          ∙ ap (λ n. n + length (u.as_bytes v)) (length-to_le_bytes 8 (length (u.as_bytes v)))

      longer : length (c.dat ++ encoded v) ≡ length c.dat + (8 + length (u.as_bytes v))
      longer = length-append c.dat (encoded v) ∙ ap (λ n. length c.dat + n) size

      next : (c.current_offset + length (encoded v)) % u64_mod ≡ length (c.dat ++ encoded v)
      next =
          let sum : c.current_offset + length (encoded v)
              ≡ length c.dat + (8 + length (u.as_bytes v)) =
            omega (arith, holds.next, size) in
          ap (λ n. n % u64_mod) sum ∙ mod-eq_of_lt small ∙ sym longer

      rows : length (c.offsets ++ to_le_bytes 8 c.current_offset) ≡ length (vals ++ v ∷ []) * 8
      rows = omega (
        arith,
        length-append c.offsets (to_le_bytes 8 c.current_offset),
        length-to_le_bytes 8 c.current_offset,
        length-append vals (v ∷ []),
        holds.rows,
      )

      last : IsAt grown (length vals) v
      last = record {
        before = c.dat;
        after = [];
        offsets_before = c.offsets;
        offsets_after = [];
        dat = ap (λ r. c.dat ++ r) (sym (append-nil (encoded v)));
        offsets =
            ap (λ n. c.offsets ++ to_le_bytes 8 n) holds.next
            ∙ ap (λ r. c.offsets ++ r) (sym (append-nil (to_le_bytes 8 (length c.dat))));
        row = sym holds.rows;
      }

      values : (i : ℕ) (s : u.Str) → get_elem? (vals ++ v ∷ []) i ≡ some s → IsAt grown i s
      values i s h = elim (get_elem?-append vals v s i h) [
        | inl old ↦
            append-IsAt c i s (encoded v) (to_le_bytes 8 c.current_offset)
              ((c.current_offset + length (encoded v)) % u64_mod) (holds.values i s old)
        | inr (at, same) ↦
            subst (λ j. IsAt grown j s) (sym at) (subst (λ x. IsAt grown (length vals) x) same last)
      ]

  append_values-Holds :
      (c : Column) (vals more : List u.Str)
      → Holds c vals
      → length c.dat + total_size more < u64_mod
      → (c' : Column) × (append_values u codec c more ≡ ok c')
        × Holds c' (vals ++ more)
        × (length c'.dat < u64_mod)
  unfolding append_values
  append_values-Holds c vals [] holds small =
      (c, refl, subst (Holds c) (sym (append-nil vals)) holds, omega (arith, small))
  append_values-Holds c vals (v ∷ more) holds small =
      let (mid, first, kept, longer) = append_value-Holds c vals v holds (omega (arith, small)) in
      let (last, rest, held, fits) =
        append_values-Holds mid (vals ++ v ∷ []) more kept (omega (arith, small, longer)) in
      (last, rw first rest, subst (Holds last) (append_assoc vals (v ∷ []) more) held, fits)

  beyond :
      (c : Column) (vals : List u.Str) (i : ℕ)
      → Holds c vals
      → length vals ≤ i
      → read_value_from_mmap u c.dat c.offsets i ≡ ok u.empty
  unfolding read_value_from_mmap read_cell checked_slice
  beyond c vals i holds out =
      let short : length c.offsets < i * 8 + 8 = omega (arith, holds.rows, out) in
      rw (lt→ltb (length c.offsets) (i * 8 + 8) short)

  -- Where bincode writes a text behind its length, appending values to a new column, whose sizes with eight bytes each are less than 2 ^ 64 in all,
  -- succeeds; then every row reads back the value that was appended for it, and a row past the last one
  -- reads as the empty text.
  pub read-append_values :
      (vals : List u.Str)
      → total_size vals < u64_mod
      → (c : Column) × (append_values u codec new_column vals ≡ ok c)
        × ((i : ℕ)
            → read_value_from_mmap u c.dat c.offsets i ≡ ok (value_or u.empty (get_elem? vals i)))
  read-append_values vals small =
      let start : Holds new_column [] = record { next = refl; rows = refl; values = λ i s h. cc } in
      let (c, done, holds, fits) =
        append_values-Holds new_column [] vals start (omega (arith, small)) in
      (
        c,
        done,
        λ i. elim (Option-cases (get_elem? vals i)) [
          | inr (s, at) ↦ rw at (read-IsAt c i s (holds.values i s at) fits)
          | inl past ↦ rw past (beyond c vals i holds (past_end vals i past))
        ],
      )
