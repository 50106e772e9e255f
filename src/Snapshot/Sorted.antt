-- ===== src/Snapshot/Sorted.antt =====
-- Index sections in ascending hash order, and the entry of a hash found by a linear scan: the
-- specification of the reader's binary search.
use bittice.Prelude.{
  ℕ, zero, suc, ◌<◌, ◌≡◌, ◌≢◌, refl, Option, none, some, List, [], ◌∷◌, ◌==◌, if◌then◌else◌,
  get_elem?, All, arith,
}
use mathlib.Core.Path.{subst}
use mathlib.Core.Option.{some-injective}
use bittice.Snapshot.Format.{IndexEntry}

-- Every hash is above the one before it.
abbrev pub IsSorted : List IndexEntry → Type 0
IsSorted [] = Unit
IsSorted (e ∷ es) = All (λ f. e.hash < f.hash) es × IsSorted es

unfoldable pub entry_of : ℕ → List IndexEntry → Option IndexEntry
entry_of h [] = none
entry_of h (e ∷ es) = if e.hash == h then some e else entry_of h es

pub All-get_elem? :
    (P : IndexEntry → Type 0) (es : List IndexEntry) (i : ℕ) (e : IndexEntry)
    → All P es
    → get_elem? es i ≡ some e
    → P e
All-get_elem? P [] i e a h = cc
All-get_elem? P (x ∷ es) zero e a h = subst P (some-injective x e h) a.0
All-get_elem? P (x ∷ es) (suc i) e a h = All-get_elem? P es i e a.1 h

pub IsSorted-lt :
    (es : List IndexEntry) (i j : ℕ) (e f : IndexEntry)
    → IsSorted es
    → i < j
    → get_elem? es i ≡ some e
    → get_elem? es j ≡ some f
    → e.hash < f.hash
IsSorted-lt [] i j e f s lt he hf = cc
IsSorted-lt (x ∷ es) i zero e f s lt he hf = absurd (omega arith)
IsSorted-lt (x ∷ es) zero (suc j) e f s lt he hf =
    let below : x.hash < f.hash = All-get_elem? (λ g. x.hash < g.hash) es j f s.0 hf in ground arith
IsSorted-lt (x ∷ es) (suc i) (suc j) e f s lt he hf = IsSorted-lt es i j e f s.1 (omega arith) he hf

-- On a sorted section an entry is the one that the scan finds for its hash.
pub entry_of_hit :
    (es : List IndexEntry) (i : ℕ) (e : IndexEntry)
    → IsSorted es
    → get_elem? es i ≡ some e
    → entry_of e.hash es ≡ some e
unfolding entry_of
entry_of_hit [] i e s h = cc
entry_of_hit (x ∷ es) zero e s h = ground arith
entry_of_hit (x ∷ es) (suc i) e s h =
    let below : x.hash < e.hash = All-get_elem? (λ g. x.hash < g.hash) es i e s.0 h in
    ground (arith, entry_of_hit es i e s.1 h)

-- A hash that no entry has is not found.
pub entry_of_miss :
    (hash : ℕ) (es : List IndexEntry)
    → ((i : ℕ) (e : IndexEntry) → get_elem? es i ≡ some e → e.hash ≢ hash)
    → entry_of hash es ≡ none
unfolding entry_of
entry_of_miss hash [] absent = refl
entry_of_miss hash (x ∷ es) absent =
    ground (arith, absent 0 x refl, entry_of_miss hash es (λ i e h. absent (suc i) e h))
