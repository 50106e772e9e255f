-- ===== src/Prelude.antt =====
-- What the other modules share: library names passed on, tests, lists over the native numbers,
-- and results that fail or panic.
mod Tests
mod Lists
mod Results
mod Assoc
mod Strings
mod Iterators
pub mod Texts
pub use Tests.*
pub use Lists.*
pub use Results.*
unfoldable pub use Assoc.{lookup, insert, remove}
unfoldable pub use Strings.{find, set}
pub use Strings.{
  HasDistinctKeys, set-HasDistinctKeys, Str, codes, bytes_eq, bytes_eq_refl, bytes_eq→eq,
  bytes_eq_iff, find-set,
}
unfoldable pub use Iterators.{retain, all_of, any_of, concat_map}
pub use Iterators.{
  retain-append, retain-nil, retain-All, retain-concat_map, length-retain, take-concat_map,
  take-take_le, drop-take,
}
pub use Assoc.{lookup-insert, lookup-remove}
pub use Prim.Native.Nat.{ℕ, zero, suc, ◌+◌, ◌-◌, ◌*◌, ◌/◌, ◌%◌, ◌^◌, ◌≤◌, ◌<◌, min}
pub use mathlib.Core.Path.{◌≡◌, refl, sym, ap, ap₂, ◌∙◌, ◌≡⟨◌⟩◌, ◌∎}
pub use mathlib.Core.Logic.{◌≢◌, ◌↔◌, ◌⊎◌, inl, inr}
pub use mathlib.Core.Bool.{Bool, true, false, not, ◌&&◌, ◌||◌}
pub use mathlib.Core.Option.{Option, none, some}
pub use mathlib.Core.List.{List, [], ◌∷◌, ◌++◌, map, append_assoc, append-nil}
pub use native.Mathlib.Omega.{arith}
