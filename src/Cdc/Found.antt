-- ===== src/Cdc/Found.antt =====
-- The key that is found for the table of an event (src/core/cdc/mod.rs).
use mathlib.Core.Path.{subst}
use mathlib.Core.Option.{some-injective}
use bittice.Prelude.{
  ap₂, ==_iff, and_left, and_right, ℕ, Option, none, is_some, Str, codes, Bool, true, false, ◌||◌,
  ◌==◌, some, List, [], ◌∷◌, ◌++◌, if◌then◌else◌, bytes_eq, bytes_eq→eq, bytes_eq_refl, any_of, ◌≡◌,
  refl, sym, ap, ◌∙◌, inl, inr, Bool-cases,
}
use bittice.Prelude.Texts.{split_first, split_first-append}
use bittice.Cdc.Names.{
  contains_key, first_key, pick_key, same_parts, same_qualified, resolve_cdc_table_keys,
}

or_right : (a b : Bool) → b ≡ true → (a || b) ≡ true
or_right true b h = refl
or_right false b h = h

any_of-contains_key :
    (p : Str → Bool) (keys : List Str) (k : Str)
    → contains_key keys k ≡ true
    → p k ≡ true
    → any_of p keys ≡ true
unfolding contains_key any_of
any_of-contains_key p [] k inside holds = inside
any_of-contains_key p (x ∷ keys) k inside holds = elim (Bool-cases (bytes_eq x k)) [
  | inl same ↦ rw (bytes_eq→eq x k same, holds) refl
  | inr other ↦
      or_right (p x) (any_of p keys)
        (any_of-contains_key p keys k (rest (bytes_eq x k) other inside) holds)
]
  where
    rest : (b : Bool) → b ≡ false → (b || contains_key keys k) ≡ true → contains_key keys k ≡ true
    rest true other inside = cc
    rest false other inside = inside

is_some-first_key :
    (test : Str → Bool) (keys : List Str) → is_some (first_key test keys) ≡ any_of test keys
unfolding first_key any_of
is_some-first_key test [] = refl
is_some-first_key test (k ∷ keys) = elim (Bool-cases (test k)) [
  | inl holds ↦ rw holds refl
  | inr fails ↦ rw fails (is_some-first_key test keys)
]

first_key-holds :
    (test : Str → Bool) (keys : List Str) (k : Str)
    → first_key test keys ≡ some k
    → (test k ≡ true) × (contains_key keys k ≡ true)
unfolding first_key contains_key any_of
first_key-holds test [] k e = cc
first_key-holds test (x ∷ keys) k e = go (test x) refl (first_key-holds test keys k) e
  where
    go :
        (b : Bool)
        → test x ≡ b
        → (first_key test keys ≡ some k
            → (test k ≡ true) × (any_of (λ y. bytes_eq y k) keys ≡ true))
        → (if b then some x else first_key test keys) ≡ some k
        → (test k ≡ true) × ((bytes_eq x k || any_of (λ y. bytes_eq y k) keys) ≡ true)
    go true holds later e =
        let same : x ≡ k = some-injective x k e in
        (
          ap test (sym same) ∙ holds,
          ap (λ y. bytes_eq x y || any_of (λ z. bytes_eq z y) keys) (sym same)
              ∙ rw (bytes_eq_refl x) refl,
        )
    go false fails later e =
        let (holds, inside) = later e in (holds, or_right (bytes_eq x k) _ inside)

pick_key-found :
    (exact lower : Str) (test : Str → Bool) (keys : List Str)
    → test exact ≡ true
    → test lower ≡ true
    → (is_some (pick_key exact lower test keys) ≡ any_of test keys)
      × ((k : Str)
          → pick_key exact lower test keys ≡ some k
          → (test k ≡ true) × (contains_key keys k ≡ true))
unfolding pick_key
pick_key-found exact lower test keys te tl = elim (Bool-cases (contains_key keys exact)) [
  | inl has ↦
      rw has (sym (any_of-contains_key test keys exact has te), λ k e. chosen exact k e te has)
  | inr hasnt ↦ rw hasnt (elim (Bool-cases (contains_key keys lower)) [
    | inl has ↦
        rw has (sym (any_of-contains_key test keys lower has tl), λ k e. chosen lower k e tl has)
    | inr hasnt2 ↦ rw hasnt2 (is_some-first_key test keys, λ k e. first_key-holds test keys k e)
  ])
]
  where
    chosen :
        (x k : Str)
        → some x ≡ some k
        → test x ≡ true
        → contains_key keys x ≡ true
        → (test k ≡ true) × (contains_key keys k ≡ true)
    chosen x k e tx inside =
        subst (λ y. (test y ≡ true) × (contains_key keys y ≡ true)) (some-injective x k e)
          (tx, inside)

split_first-some :
    (c : ℕ) (key t : Str)
    → (split_first c key).1 ≡ some t
    → (key ≡ (split_first c key).0 ++ (c ∷ t))
      × (any_of (λ b. b == c) (split_first c key).0 ≡ false)
unfolding split_first any_of
split_first-some c [] t e = cc
split_first-some c (b ∷ s) t e = elim (Bool-cases (b == c)) [
  | inl here ↦
      rw here (ap₂ (λ x y. x ∷ y) ((==_iff b c).0 here) (some-injective s t (rw here at e)), refl)
  | inr later ↦
      let (whole, plain) = split_first-some c s t (rw later at e) in
      rw later (ap (λ x. b ∷ x) whole, rw later plain)
]

module _ (to_lowercase : Str → Str) where
  -- A key names the table of an event, but for case: in the mode for all databases the key is `s.t`
  -- with the schema's name before its first dot and the table's name behind it, else it is the table's
  -- name.
  abbrev pub IsNamed : Bool → Str → Str → Str → Type 0
  IsNamed true schema table key =
      (s : Str) × (t : Str) × (key ≡ s ++ (codes "." ++ t))
      × (any_of (λ b. b == b'.') s ≡ false)
      × (to_lowercase s ≡ to_lowercase schema)
      × (to_lowercase t ≡ to_lowercase table)
  IsNamed false schema table key = to_lowercase key ≡ to_lowercase table

  same_qualified-IsNamed :
      (schema table key : Str)
      → same_qualified to_lowercase (to_lowercase schema) (to_lowercase table) key ≡ true
      → IsNamed true schema table key
  unfolding same_qualified
  same_qualified-IsNamed schema table key h =
      go (split_first b'.' key).0 (split_first b'.' key).1 (split_first-some b'.' key) h
    where
      go :
          (s : Str) (o : Option Str)
          → ((t : Str) → o ≡ some t → (key ≡ s ++ (b'.' ∷ t)) × (any_of (λ b. b == b'.') s ≡ false))
          → same_parts to_lowercase (to_lowercase schema) (to_lowercase table) s o ≡ true
          → IsNamed true schema table key
      go s none split h = cc
      go s (some t) split h =
          let (whole, plain) = split t refl in
          (
            s,
            t,
            whole,
            plain,
            bytes_eq→eq (to_lowercase s) (to_lowercase schema) (and_left _ _ h),
            bytes_eq→eq (to_lowercase t) (to_lowercase table)
                (and_right (bytes_eq (to_lowercase s) (to_lowercase schema)) _ h),
          )

  IsNamed-same_qualified :
      (schema table key : Str)
      → IsNamed true schema table key
      → same_qualified to_lowercase (to_lowercase schema) (to_lowercase table) key ≡ true
  unfolding same_qualified
  IsNamed-same_qualified schema table key (s, t, whole, plain, same_schema, same_table) =
      rw
        (
          whole,
          split_first-append b'.' s t plain,
          same_schema,
          same_table,
          bytes_eq_refl (to_lowercase schema),
          bytes_eq_refl (to_lowercase table),
        )
        refl

  -- what the search for a key that passes the test finds, where the test is the given property
  found_by_test :
      (P : Str → Type 0) (test : Str → Bool) (keys : List Str) (found : Option Str)
      → ((k : Str) → test k ≡ true → P k)
      → ((k : Str) → P k → test k ≡ true)
      → (is_some found ≡ any_of test keys)
        × ((k : Str) → found ≡ some k → (test k ≡ true) × (contains_key keys k ≡ true))
      → ((k : Str) → found ≡ some k → (contains_key keys k ≡ true) × P k)
        × ((k : Str) → contains_key keys k ≡ true → P k → is_some found ≡ true)
  found_by_test P test keys found sound complete (some_key, passes) = (
    λ k e. let (holds, inside) = passes k e in (inside, sound k holds),
    λ k inside p. some_key ∙ any_of-contains_key test keys k inside (complete k p),
  )

  -- If a text in lower case stays as it is in lower case, and the schema in lower case has no dot, then
  -- the key that the event of a table finds is one of the keys and names the table but for case, and a
  -- key is found if one of the keys names the table.
  pub resolve_cdc_table_keys-found :
      (sync_all : Bool) (schema table : Str) (keys : List Str)
      → ((s : Str) → to_lowercase (to_lowercase s) ≡ to_lowercase s)
      → any_of (λ b. b == b'.') (to_lowercase schema) ≡ false
      → ((k : Str)
          → resolve_cdc_table_keys to_lowercase sync_all schema table keys ≡ some k
          → (contains_key keys k ≡ true) × IsNamed sync_all schema table k)
        × ((k : Str)
            → contains_key keys k ≡ true
            → IsNamed sync_all schema table k
            → is_some (resolve_cdc_table_keys to_lowercase sync_all schema table keys) ≡ true)
  unfolding resolve_cdc_table_keys
  resolve_cdc_table_keys-found true schema table keys stays plain =
      let lower_schema = to_lowercase schema in
      let test = same_qualified to_lowercase lower_schema (to_lowercase table) in
      found_by_test (IsNamed true schema table) test keys _ (same_qualified-IsNamed schema table)
        (IsNamed-same_qualified schema table)
        (pick_key-found (lower_schema ++ (codes "." ++ table))
          (lower_schema ++ (codes "." ++ to_lowercase table)) test keys
          (IsNamed-same_qualified schema table _
            (lower_schema, table, refl, plain, stays schema, refl))
          (IsNamed-same_qualified schema table _
            (lower_schema, to_lowercase table, refl, plain, stays schema, stays table)))
  resolve_cdc_table_keys-found false schema table keys stays plain =
      let lower = to_lowercase table in
      found_by_test (IsNamed false schema table) (λ key. bytes_eq (to_lowercase key) lower) keys _
        (λ k h. bytes_eq→eq (to_lowercase k) lower h) (λ k e. rw e (bytes_eq_refl lower))
        (pick_key-found table lower (λ key. bytes_eq (to_lowercase key) lower) keys
          (bytes_eq_refl lower) (rw (stays table) (bytes_eq_refl lower)))
