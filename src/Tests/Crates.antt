-- ===== src/Tests/Crates.antt =====
-- Small concrete versions of the crates, which show that the assumptions about them can be met.
use mathlib.Core.Option.{some-injective}
use bittice.Prelude.{
  ℕ, ◌+◌, ◌*◌, ◌/◌, ◌%◌, ◌≡◌, refl, ap, sym, ◌∙◌, zero, suc, Bool, true, false, not, ◌&&◌, ltb,
  ==_iff, ◌||◌, ◌==◌, if◌then◌else◌, Option, none, some, List, [], ◌∷◌, ◌++◌, append-nil, lookup,
  insert, remove, lookup-insert, lookup-remove, arith, inl, inr, ◌⊎◌, Bool-cases,
}
use bittice.Bytes.{from_le_bytes}
use bittice.Canonical.{Text, IsUnicode}
use bittice.Snapshot.Codec.{Bincode, IsLawful}
use bittice.ExactIndex.Delta.{Roaring, IsRoaring, Lru, IsLru, Bitmaps}
use bittice.ExactIndex.{contains}

-- A number is serialized as itself.
abbrev read_one : List ℕ → Option ℕ
read_one (b ∷ []) = some b
read_one _ = none

abbrev pub one_byte : Bincode ℕ
one_byte = record { serialize = λ v. some (v ∷ []); deserialize = read_one }

one_byte_law :
    (v : ℕ) (bytes : List ℕ) → one_byte.serialize v ≡ some bytes → read_one bytes ≡ some v
one_byte_law v [] h = cc
one_byte_law v (b ∷ []) h = ground arith
one_byte_law v (b ∷ c ∷ bytes) h = cc

pub one_byte-IsLawful : IsLawful one_byte
one_byte-IsLawful = record { deserialize-serialize = one_byte_law }

-- Bitmaps as lists of rows.
contains-append :
    (xs ys : List ℕ) (i : ℕ) → contains (xs ++ ys) i ≡ (contains xs i || contains ys i)
contains-append [] ys i = refl
contains-append (x ∷ xs) ys i = ground (arith, contains-append xs ys i)

-- The numbers below a bound, and the rows of a list that pass a test.
abbrev below : ℕ → List ℕ
below zero = []
below (suc n) = n ∷ below n

abbrev select : (ℕ → Bool) → List ℕ → List ℕ
select test [] = []
select test (x ∷ xs) = let rest = select test xs in if test x then x ∷ rest else rest

abbrev no_rows : List ℕ → Bool
no_rows [] = true
no_rows (x ∷ xs) = false

contains-below : (n i : ℕ) → contains (below n) i ≡ ltb i n
contains-below zero i = ground arith
contains-below (suc n) i = ground (arith, contains-below n i)

contains-select :
    (test : ℕ → Bool) (xs : List ℕ) (i : ℕ)
    → contains (select test xs) i ≡ (contains xs i && test i)
contains-select test [] i = refl
contains-select test (x ∷ xs) i = elim (Bool-cases (x == i)) [
  | inl same ↦ rw (same, (==_iff x i).0 same) (ground (arith, contains-select test xs i))
  | inr other ↦ rw other (ground (arith, contains-select test xs i))
]

no_rows-contains : (i : ℕ) (xs : List ℕ) → no_rows xs ≡ true → contains xs i ≡ false
no_rows-contains i [] h = refl
no_rows-contains i (x ∷ xs) h = cc

abbrev pub rows : Roaring
rows = record {
  Bitmap = List ℕ;
  contains = contains;
  empty = [];
  is_empty = no_rows;
  insert = λ i b. i ∷ b;
  range = below;
  union = λ a b. a ++ b;
  intersection = λ a b. select (contains b) a;
  difference = λ a b. select (λ i. not (contains b i)) a;
}

pub rows-IsRoaring : IsRoaring rows
rows-IsRoaring = record {
  contains-empty = λ i. refl;
  contains-is_empty = no_rows-contains;
  contains-insert = λ i j b. refl;
  contains-range = contains-below;
  contains-union = contains-append;
  contains-intersection = λ a b i. contains-select (contains b) a i;
  contains-difference = λ a b i. contains-select (λ j. not (contains b j)) a i;
}

-- Lists of bitmaps: a segment is an even number, and a row an odd one.
abbrev pub encode_rows : List ℕ → List ℕ → List ℕ
encode_rows [] rest = rest
encode_rows (x ∷ xs) rest = (2 * x + 1) ∷ encode_rows xs rest

abbrev pub encode : Bitmaps rows → List ℕ
encode [] = []
encode ((s, xs) ∷ bs) = (2 * s) ∷ encode_rows xs (encode bs)

abbrev decode_token : ℕ → List ℕ × Bitmaps rows → List ℕ × Bitmaps rows
decode_token t (xs, bs) = if t % 2 == 1 then ((t / 2) ∷ xs, bs) else ([], (t / 2, xs) ∷ bs)

abbrev pub decode : List ℕ → List ℕ × Bitmaps rows
decode [] = ([], [])
decode (t ∷ ts) = decode_token t (decode ts)

decode-encode_rows :
    (xs rest : List ℕ) → decode (encode_rows xs rest) ≡ (xs ++ (decode rest).0, (decode rest).1)
decode-encode_rows [] rest = refl
decode-encode_rows (x ∷ xs) rest = rw (decode-encode_rows xs rest) (ground arith)

decode-encode : (bs : Bitmaps rows) → decode (encode bs) ≡ ([], bs)
decode-encode [] = refl
decode-encode ((s, xs) ∷ bs) =
    rw (decode-encode_rows xs (encode bs))
      (rw (decode-encode bs) (rw (append-nil xs) (ground arith)))

abbrev pub tokens : Bincode (Bitmaps rows)
tokens = record { serialize = λ bs. some (encode bs); deserialize = λ bytes. some (decode bytes).1 }

pub tokens-IsLawful : IsLawful tokens
tokens-IsLawful = record {
  deserialize-serialize = λ v bytes h.
      let e : encode v ≡ bytes = some-injective (encode v) bytes h in
      ap (λ b. some (decode b).1) (sym e) ∙ ap (λ p. some p.1) (decode-encode v);
}

-- A cache that evicts nothing.
abbrev pub store : {V : Type 0} → Lru V
store {V} = record {
  Cache = List (ℕ × V);
  new = [];
  get = λ k c. (lookup k c, c);
  put = insert;
  pop = remove;
  clear = λ c. [];
}

get-put_store :
    {V : Type 0} (j k : ℕ) (v w : V) (c : List (ℕ × V))
    → lookup j (insert k v c) ≡ some w
    → ((j ≡ k) × (w ≡ v)) ⊎ (lookup j c ≡ some w)
get-put_store j k v w c h = elim (Bool-cases (k == j)) [
  | inl same ↦ inl (ground arith, ground (arith, lookup-insert k j v c))
  | inr other ↦ inr (ground (arith, lookup-insert k j v c))
]

pub store-IsLru : {V : Type 0} → IsLru (store {V = V})
unfolding lookup
store-IsLru = record {
  get-new = λ k. refl;
  get-get = λ j k c. refl;
  get-put = get-put_store;
  get-pop = λ j k c. lookup-remove k j c;
  get-clear = λ k c. refl;
}

-- Every text is its own normal form, and its hash is its bytes read as a number.
abbrev pub ascii : Text
ascii = record { is_nfc = λ s. true; nfc = λ s. s; xxh3_128 = from_le_bytes }

pub ascii-IsUnicode : IsUnicode ascii
ascii-IsUnicode = record { nfc_fixed = λ s h. refl; nfc_idempotent = λ s. refl }
