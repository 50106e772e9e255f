-- ===== src/Prelude/Texts.antt =====
-- Methods of the standard library on texts that several components use.
use Prim.Native.Nat.{ℕ, zero, suc, ◌+◌, ◌-◌, ◌*◌}
use mathlib.Core.Path.{◌≡◌, refl, ap}
use mathlib.Core.Bool.{Bool, true, false, ◌&&◌}
use mathlib.Core.Option.{Option, none, some}
use mathlib.Core.List.{List, [], ◌∷◌, ◌++◌, map}
use bittice.Prelude.Iterators.{any_of}
use bittice.Prelude.Tests.{==_refl, or_false_left, or_false_right, ◌==◌, if◌then◌else◌, leb, ltb}
use bittice.Prelude.Lists.{length}
use bittice.Prelude.Strings.{Str, bytes_eq}

-- `str::starts_with`, on bytes.
abbrev str_starts_with : Str → Str → Bool
str_starts_with s [] = true
str_starts_with [] (b ∷ t) = false
str_starts_with (a ∷ s) (b ∷ t) = (a == b) && str_starts_with s t

-- `splitn(2, c)`: the text before the first `c`, and what follows it.
unfoldable pub split_first : ℕ → Str → Str × Option Str
split_first c [] = ([], none)
split_first c (b ∷ s) =
    let rest = split_first c s in if b == c then ([], some s) else (b ∷ rest.0, rest.1)

pub split_first-append :
    (c : ℕ) (first rest : Str)
    → any_of (λ b. b == c) first ≡ false
    → split_first c (first ++ (c ∷ rest)) ≡ (first, some rest)
unfolding split_first any_of
split_first-append c [] rest plain = rw (==_refl c) refl
split_first-append c (a ∷ first) rest plain =
    let other : (a == c) ≡ false = or_false_left (a == c) _ plain in
    rw other (
      ap (λ (r : Str × Option Str). (a ∷ r.0, r.1))
        (split_first-append c first rest (or_false_right (a == c) _ plain)))

-- `eq_ignore_ascii_case`.
abbrev pub ascii_lower : ℕ → ℕ
ascii_lower b = if leb b'A' b && leb b b'Z' then b + 32 else b

abbrev pub eq_ignore_ascii_case : Str → Str → Bool
eq_ignore_ascii_case s t = bytes_eq (map ascii_lower s) (map ascii_lower t)

-- `str::split` by a text that is not empty: `skip` bytes are left of an occurrence of it.
unfoldable pub split_by : Str → ℕ → Str → Str → List Str
split_by delimiter skip current [] = current ∷ []
split_by delimiter (suc skip) current (b ∷ s) = split_by delimiter skip current s
split_by delimiter zero current (b ∷ s) =
    let cut = current ∷ split_by delimiter (length delimiter - 1) [] s in
    let kept = split_by delimiter zero (current ++ b ∷ []) s in
    if str_starts_with (b ∷ s) delimiter then cut else kept

unfoldable pub split : Str → Str → List Str
unfolding split_by
split delimiter value = split_by delimiter 0 [] value

-- `str::parse::<usize>`, after the sign: digits whose value fits in 64 bits.
abbrev pub digits_value : ℕ → Str → Option ℕ
digits_value n [] = if ltb n 18446744073709551616 then some n else none
digits_value n (b ∷ s) =
    let rest = digits_value (n * 10 + (b - b'0')) s in
    if leb b'0' b && leb b b'9' then rest else none

abbrev pub some_digits : Str → Option ℕ
some_digits [] = none
some_digits (b ∷ s) = digits_value 0 (b ∷ s)

unfoldable pub parse_usize : Str → Option ℕ
parse_usize [] = none
parse_usize (b ∷ s) = if b == b'+' then some_digits s else some_digits (b ∷ s)
