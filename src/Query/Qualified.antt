-- ===== src/Query/Qualified.antt =====
-- Qualified references are read back (src/core/join_query.rs).
use bittice.Prelude.{Str, codes, false, ◌==◌, some, [], ◌∷◌, ok, bytes_eq, any_of, arith, ◌≡◌, refl}
use bittice.Filter.{StdText, is_empty_str}
use bittice.Query.{qualify}
use bittice.Prelude.Texts.{split_first, split_first-append}
use bittice.Query.Fields.{qualified_field, parse_qualified_field}

split_first-qualify :
    (alias field : Str)
    → any_of (λ b. b == b'.') alias ≡ false
    → split_first b'.' (qualify alias field) ≡ (alias, some field)
unfolding qualify
split_first-qualify alias field plain = split_first-append b'.' alias field plain

qualify-not_empty : (alias field : Str) → is_empty_str (qualify alias field) ≡ false
unfolding qualify
qualify-not_empty [] field = refl
qualify-not_empty (a ∷ alias) field = refl

qualify-not_star :
    (alias field : Str)
    → is_empty_str field ≡ false
    → bytes_eq (qualify alias field) (codes "*") ≡ false
unfolding qualify
qualify-not_star [] field h = ground arith
qualify-not_star (a ∷ []) field h = ground arith
qualify-not_star (a ∷ b ∷ alias) field h = ground arith

-- If the alias has no dot, the field is not empty, and trimming changes neither of them nor the whole
-- reference, then the reference `alias.field` is read as that alias and that field, whatever the base
-- alias is.
pub parse_qualified_field-qualify :
    (std : StdText) (alias field base : Str)
    → any_of (λ b. b == b'.') alias ≡ false
    → is_empty_str field ≡ false
    → std.trim alias ≡ alias
    → std.trim field ≡ field
    → std.trim (qualify alias field) ≡ qualify alias field
    → parse_qualified_field std (qualify alias field) base
      ≡ ok (record { alias = alias; field = field; qualified = qualify alias field })
unfolding parse_qualified_field qualified_field
parse_qualified_field-qualify std alias field base plain some_field ta tf tq =
    rw
      (
        tq,
        qualify-not_empty alias field,
        qualify-not_star alias field some_field,
        split_first-qualify alias field plain,
        ta,
        tf,
        some_field,
      )
      refl
