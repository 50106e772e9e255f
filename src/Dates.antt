-- ===== src/Dates.antt =====
-- Dates in texts (src/core/date_utils.rs).
use bittice.Prelude.{
  Str, ℕ, ◌+◌, ◌*◌, ◌-◌, Bool, false, not, ◌&&◌, ◌||◌, ◌==◌, leb, if◌then◌else◌, Option, none, some,
  [], ◌∷◌, length, get_elem?, take, Result, ok, panic, ◌>>=◌,
}

-- `b[i]`, where the bounds have been tested.
abbrev pub byte_at : Str → ℕ → ℕ
byte_at s i = elim (get_elem? s i) [ none ↦ 0 | some b ↦ b ]

abbrev pub is_ascii_digit : ℕ → Bool
is_ascii_digit b = leb b'0' b && leb b b'9'

-- `s[i..i + 2].parse::<u8>()`, on two digits.
abbrev pub two_digits : Str → ℕ → ℕ
two_digits s i = 10 * (byte_at s i - b'0') + (byte_at s (i + 1) - b'0')

-- The month and the day are in their ranges.
abbrev pub in_calendar : Str → Bool
in_calendar s =
    (leb 1 (two_digits s 5) && leb (two_digits s 5) 12)
    && (leb 1 (two_digits s 8) && leb (two_digits s 8) 31)

unfoldable pub is_date_format : Str → Bool
is_date_format s =
    if leb 10 (length s)
    then if not (byte_at s 4 == b'-') || not (byte_at s 7 == b'-')
      then false
      else if not (
          is_ascii_digit (byte_at s 0)
          && (is_ascii_digit (byte_at s 1)
              && (is_ascii_digit (byte_at s 2)
                  && (is_ascii_digit (byte_at s 3)
                      && (is_ascii_digit (byte_at s 5)
                          && (is_ascii_digit (byte_at s 6)
                              && (is_ascii_digit (byte_at s 8)
                                  && is_ascii_digit (byte_at s 9))))))))
      then false
      else in_calendar s
    else false

-- `s.contains(c)`, for an ASCII character.
abbrev pub has_byte : Str → ℕ → Bool
has_byte [] c = false
has_byte (b ∷ s) c = (b == c) || has_byte s c

unfoldable pub has_time_component : Str → Bool
has_time_component s = has_byte s b'T' || has_byte s b':'

-- `&s[..n]`, which panics inside a character: at a byte from 128 to 191.
module _ {E : Type 0} where
  unfoldable pub slice_to : Str → ℕ → Result E Str
  slice_to s n =
      if not (n == length s) && (leb 128 (byte_at s n) && leb (byte_at s n) 191)
      then panic
      else ok (take n s)

  -- `Some(s[..n].to_string())`
  abbrev prefix : Str → ℕ → Result E (Option Str)
  prefix s n = do day ← slice_to s n; ok (some day)

  unfoldable pub extract_day : Str → Result E (Option Str)
  extract_day s = if leb 10 (length s) then prefix s 10 else ok none

  unfoldable pub extract_month : Str → Result E (Option Str)
  extract_month s = if leb 7 (length s) then prefix s 7 else ok none
