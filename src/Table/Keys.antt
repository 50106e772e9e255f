-- ===== src/Table/Keys.antt =====
-- Primary keys: the key of a row is the key that is read back from its segment (src/core/storage/table.rs).
use bittice.Prelude.{
  is_nil, Str, codes, bytes_eq, bytes_eq_iff, bytes_eq→eq, find, set, find-set, set-HasDistinctKeys,
  ℕ, ◌≡◌, refl, sym, ap, ap₂, ◌∙◌, Bool, true, false, ◌||◌, if◌then◌else◌, Option, none, some, List,
  [], ◌∷◌, arith, inl, inr, Bool-cases, Option-cases,
}
use bittice.Bitmaps.{Roaring}
use bittice.Canonical.{Text}
use bittice.Segment.{Row, Segment}
use bittice.Segment.Rows.{HasFields}
use bittice.Table.{
  is_pk, join, pk_parts, row_pk_value, normalize_keys, key_row, read_value, resolve_row_pk,
}

-- The column is in the list.
abbrev pub has_col : Str → List Str → Bool
has_col c [] = false
has_col c (d ∷ cols) = bytes_eq d c || has_col c cols

module _ (text : Text) where
  -- a value in place of the one that is there
  set-HasFields :
      (fields : Str → Bool) (c v w : Str) (row : Row)
      → find c row ≡ some v
      → HasFields fields row
      → HasFields fields (set c w row)
  set-HasFields fields c v w row at h = record {
    distinct = set-HasDistinctKeys c w row h.distinct;
    present = λ col known. elim (Bool-cases (bytes_eq c col)) [
      | inl same ↦ (w, find-set c col w row ∙ rw same refl)
      | inr other ↦
          ((h.present col known).0, find-set c col w row ∙ rw other (h.present col known).1)
    ];
    absent = λ col unknown. elim (Bool-cases (bytes_eq c col)) [
      | inl same ↦
          let gone : none ≡ some v =
            sym (h.absent col unknown) ∙ ap (λ k. find k row) (sym (bytes_eq→eq c col same)) ∙ at in
          absurd cc
      | inr other ↦ find-set c col w row ∙ rw other (h.absent col unknown)
    ];
  }

  normalize_one-HasFields :
      (fields : Str → Bool) (c : Str) (row : Row)
      → HasFields fields row
      → HasFields fields (elim (find c row) [
        | none ↦ row
        | some v ↦ if bytes_eq (text.nfc v) v then row else set c (text.nfc v) row
      ])
  normalize_one-HasFields fields c row h = elim (Option-cases (find c row)) [
    | inl e ↦ rw e h
    | inr (v, e) ↦ rw e (elim (Bool-cases (bytes_eq (text.nfc v) v)) [
      | inl same ↦ rw same h
      | inr other ↦ rw other (set-HasFields fields c v (text.nfc v) row e h)
    ])
  ]

  pub normalize_keys-HasFields :
      (fields : Str → Bool) (cols : List Str) (row : Row)
      → HasFields fields row
      → HasFields fields (normalize_keys text cols row)
  unfolding normalize_keys
  normalize_keys-HasFields fields [] row h = h
  normalize_keys-HasFields fields (c ∷ cols) row h =
      normalize_keys-HasFields fields cols _ (normalize_one-HasFields fields c row h)

  -- the same values give the same parts
  pk_parts-same :
      (a b : Row) (cols : List Str)
      → ((c : Str) → has_col c cols ≡ true → find c a ≡ find c b)
      → pk_parts text a cols ≡ pk_parts text b cols
  unfolding pk_parts
  pk_parts-same a b [] same = refl
  pk_parts-same a b (c ∷ cols) same =
      ap₂ (λ v rest. elim v [ none ↦ [] | some s ↦ text.nfc s ] ∷ rest)
        (same c (ground (arith, bytes_eq_iff c c)))
        (pk_parts-same a b cols (λ d h. same d (ground (arith, h))))

  module _ {r : Roaring} where
    find-key_row :
        (s : Segment r) (i : ℕ) (c : Str) (cols : List Str) (row : Row)
        → find c (key_row s i cols row)
          ≡ (if has_col c cols then some (read_value s i c) else find c row)
    unfolding key_row
    find-key_row s i c [] row = refl
    find-key_row s i c (d ∷ cols) row =
        find-key_row s i c cols (set d (read_value s i d) row)
        ∙ elim (Bool-cases (has_col c cols)) [
          | inl later ↦ rw later (ground (arith, bytes_eq_iff d c))
          | inr not_later ↦
              rw (not_later, find-set d c (read_value s i d) row)
                (elim (Bool-cases (bytes_eq d c)) [
                  | inl same ↦ rw same (ap (λ k. some (read_value s i k)) (bytes_eq→eq d c same))
                  | inr other ↦ rw other refl
                ])
        ]

    key_row-parts :
        (s : Segment r) (i : ℕ) (row : Row) (cols : List Str)
        → ((c : Str) → has_col c cols ≡ true → find c row ≡ some (read_value s i c))
        → pk_parts text (key_row s i cols []) cols ≡ pk_parts text row cols
    key_row-parts s i row cols values =
        pk_parts-same (key_row s i cols []) row cols
          (λ c h. find-key_row s i c cols [] ∙ rw h (sym (values c h)))

    -- The row at `i` has the values of `row`, which has a value for each of the columns.
    pub resolve-row_pk_value :
        (uuid uuid_read : Str) (cols : List Str) (s : Segment r) (i : ℕ) (row : Row)
        → is_nil cols ≡ false
        → ((c : Str) → has_col c cols ≡ true → find c row ≡ some (read_value s i c))
        → resolve_row_pk text uuid_read cols s i ≡ some (row_pk_value text uuid cols row)
    unfolding resolve_row_pk row_pk_value
    resolve-row_pk_value uuid uuid_read [] s i row nonempty values = cc
    resolve-row_pk_value uuid uuid_read (c ∷ []) s i row nonempty values =
        elim (Bool-cases (bytes_eq c (codes "PK"))) [
          | inl pk ↦ rw pk (
              ap some (
                sym (
                  ap or_uuid (
                    ap (λ k. find k row) (sym (bytes_eq→eq c (codes "PK") pk))
                    ∙ values c (ground (arith, bytes_eq_iff c c))))))
          | inr other ↦ rw other (ap (λ ps. some (join ps)) (key_row-parts s i row (c ∷ []) values))
        ]
      where
        or_uuid : Option Str → Str
        or_uuid none = uuid
        or_uuid (some v) = v
    resolve-row_pk_value uuid uuid_read (c ∷ d ∷ cols) s i row nonempty values =
        ap (λ ps. some (join ps)) (key_row-parts s i row (c ∷ d ∷ cols) values)

    -- a key is read from the values of the row only
    key_row-same :
        (s s' : Segment r) (i : ℕ) (cols : List Str) (row : Row)
        → ((c : Str) → read_value s i c ≡ read_value s' i c)
        → key_row s i cols row ≡ key_row s' i cols row
    unfolding key_row
    key_row-same s s' i [] row same = refl
    key_row-same s s' i (c ∷ cols) row same =
        ap (λ v. key_row s i cols (set c v row)) (same c)
        ∙ key_row-same s s' i cols (set c (read_value s' i c) row) same

    pub resolve-same :
        (uuid : Str) (cols : List Str) (s s' : Segment r) (i : ℕ)
        → ((c : Str) → read_value s i c ≡ read_value s' i c)
        → resolve_row_pk text uuid cols s i ≡ resolve_row_pk text uuid cols s' i
    unfolding resolve_row_pk
    resolve-same uuid [] s s' i same = refl
    resolve-same uuid (c ∷ cols) s s' i same =
        ap₂
          (λ v row.
            if is_pk (c ∷ cols) then some v else some (row_pk_value text uuid (c ∷ cols) row))
          (same c) (key_row-same s s' i (c ∷ cols) [] same)
