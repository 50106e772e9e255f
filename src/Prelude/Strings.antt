-- ===== src/Prelude/Strings.antt =====
-- Texts: a `String` is the list of its UTF-8 bytes; and hash maps whose keys are texts.
use Prim.Native.Char.{code}
use Prim.Native.String.{String}
use Prim.Native.Nat.{ℕ}
use mathlib.Core.Path.{◌≡◌, refl, sym, ◌∙◌}
use mathlib.Core.Logic.{◌↔◌, inl, inr}
use mathlib.Core.Bool.{Bool, true, false, ◌&&◌}
use mathlib.Core.Option.{Option, none, some}
use mathlib.Core.List.{List, [], ◌∷◌}
use native.Mathlib.Omega.{arith}
use bittice.Prelude.Tests.{◌==◌, if◌then◌else◌, Bool-cases}

abbrev pub Str : Type 0
Str = List ℕ

-- The bytes of an ASCII literal.
abbrev pub codes : String → Str
codes String.[] = []
codes (String.◌∷◌ c s) = code c ∷ codes s

-- Equality of byte arrays and of texts.
abbrev pub bytes_eq : Str → Str → Bool
bytes_eq [] [] = true
bytes_eq [] (b ∷ bs) = false
bytes_eq (a ∷ as_) [] = false
bytes_eq (a ∷ as_) (b ∷ bs) = (a == b) && bytes_eq as_ bs

pub bytes_eq_refl : (s : Str) → bytes_eq s s ≡ true
bytes_eq_refl [] = refl
bytes_eq_refl (a ∷ s) = ground (arith, bytes_eq_refl s)

pub bytes_eq→eq : (s t : Str) → bytes_eq s t ≡ true → s ≡ t
bytes_eq→eq [] [] h = refl
bytes_eq→eq [] (b ∷ t) h = cc
bytes_eq→eq (a ∷ s) [] h = cc
bytes_eq→eq (a ∷ s) (b ∷ t) h = ground (arith, bytes_eq→eq s t)

pub bytes_eq_iff : (s t : Str) → (bytes_eq s t ≡ true) ↔ (s ≡ t)
bytes_eq_iff s t = (bytes_eq→eq s t, λ e. rw e (bytes_eq_refl t))

module _ {ℓ} {V : Type ℓ} where
  unfoldable pub find : Str → List (Str × V) → Option V
  find k [] = none
  find k ((j, v) ∷ m) = if bytes_eq j k then some v else find k m

  unfoldable pub set : Str → V → List (Str × V) → List (Str × V)
  set k v [] = (k, v) ∷ []
  set k v ((j, w) ∷ m) = if bytes_eq j k then (k, v) ∷ m else (j, w) ∷ set k v m

  pub find-set :
      (k j : Str) (v : V) (m : List (Str × V))
      → find j (set k v m) ≡ (if bytes_eq k j then some v else find j m)
  unfolding find set
  find-set k j v [] = ground arith
  find-set k j v ((i, w) ∷ m) =
      ground (arith, bytes_eq_iff k j, bytes_eq_iff i k, bytes_eq_iff i j, find-set k j v m)

  -- A map has one entry for a key.
  pub data HasDistinctKeys : List (Str × V) → Type ℓ where
    none_yet : HasDistinctKeys []
    one_more :
        {k : Str} {v : V} {m : List (Str × V)}
        → find k m ≡ none
        → HasDistinctKeys m
        → HasDistinctKeys ((k, v) ∷ m)

  pub set-HasDistinctKeys :
      (k : Str) (v : V) (m : List (Str × V)) → HasDistinctKeys m → HasDistinctKeys (set k v m)
  unfolding find set
  set-HasDistinctKeys k v [] none_yet = one_more refl none_yet
  set-HasDistinctKeys k v ((j, w) ∷ m) (one_more fresh rest) = elim (Bool-cases (bytes_eq j k)) [
    | inl same ↦ rw same (one_more (rw (sym (bytes_eq→eq j k same)) fresh) rest)
    | inr other ↦ rw other (
        one_more (find-set k j v m ∙ ground (arith, bytes_eq_iff k j, bytes_eq_iff j k))
          (set-HasDistinctKeys k v m rest))
  ]
