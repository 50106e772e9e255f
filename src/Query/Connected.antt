-- ===== src/Query/Connected.antt =====
-- The joins that a saved query resolves to are connected (src/core/join_query.rs).
use bittice.Prelude.{
  is_nil, Str, codes, Bool, true, false, not, ◌&&◌, List, [], ◌∷◌, if◌then◌else◌, Result, ok, err,
  panic, ◌>>=◌, bytes_eq, bytes_eq→eq, All, ◌≡◌, ◌≢◌, refl, sym, ◌∙◌, and_left, and_right,
}
use mathlib.Core.Path.{subst}
use bittice.Filter.{StdText}
use bittice.Query.{QualifiedField, ResolvedJoin, ResolvedJoinCondition}
use bittice.Query.Lookup.{contains_text}
use bittice.Prelude.Texts.{eq_ignore_ascii_case}
use bittice.Query.Fields.{QueryError, parse_qualified_field}
use bittice.Query.Resolve.{
  SavedJoin, SavedJoinCondition, connect, resolve_condition, resolve_conditions, check_names,
  join_kind, join_alias, resolved, resolve_join, resolve_joins_from, resolve_joins,
}

ok_injective : {A : Type 0} (a b : A) → ◌≡◌ {A = Result QueryError A} (ok a) (ok b) → a ≡ b
ok_injective a b e = cc

-- A chain that succeeds: its first step does, and the rest does on its value.
bind_ok :
    {A B : Type 0} (r : Result QueryError A) (f : A → Result QueryError B) (b : B)
    → (r >>= f) ≡ ok b
    → (a : A) × (r ≡ ok a) × (f a ≡ ok b)
bind_ok (ok a) f b e = (a, refl, e)
bind_ok (err x) f b e = cc
bind_ok panic f b e = cc

-- A value that is returned only if a test fails.
unless_ok :
    {A : Type 0} (failed : Bool) (x : QueryError) (r : Result QueryError A) (a : A)
    → (if failed then err x else r) ≡ ok a
    → (failed ≡ false) × (r ≡ ok a)
unless_ok true x r a e = cc
unless_ok false x r a e = (refl, e)

-- A condition joins a field of the alias to one of an alias that is bound.
abbrev pub Connects : Str → List Str → ResolvedJoinCondition → Type 0
Connects alias bound c =
    (c.joining_side.alias ≡ alias) × (contains_text c.existing_side.alias bound ≡ true)

-- Every join has a new alias and at least one condition, and all its conditions connect it to the
-- aliases before it.
abbrev pub IsConnected : List Str → List ResolvedJoin → Type 0
IsConnected bound [] = Unit
IsConnected bound (join ∷ joins) =
    (contains_text join.alias bound ≡ false)
    × (join.conditions ≢ [])
    × All (Connects join.alias bound) join.conditions
    × IsConnected (join.alias ∷ bound) joins

connect-Connects :
    (alias : Str) (bound : List Str) (l r : QualifiedField) (c : ResolvedJoinCondition)
    → connect alias bound l r ≡ ok c
    → Connects alias bound c
unfolding connect
connect-Connects alias bound l r c e =
    go (bytes_eq l.alias alias && contains_text r.alias bound)
      (bytes_eq r.alias alias && contains_text l.alias bound) (sides l r) (sides r l) e
  where
    sides :
        (joining existing : QualifiedField)
        → (bytes_eq joining.alias alias && contains_text existing.alias bound) ≡ true
        → Connects alias bound (record { existing_side = existing; joining_side = joining })
    sides joining existing h = (
      bytes_eq→eq joining.alias alias (and_left _ (contains_text existing.alias bound) h),
      and_right (bytes_eq joining.alias alias) _ h,
    )

    go :
        (a b : Bool)
        → (a ≡ true → Connects alias bound (record { existing_side = r; joining_side = l }))
        → (b ≡ true → Connects alias bound (record { existing_side = l; joining_side = r }))
        → (if a
            then ok (record { existing_side = r; joining_side = l })
            else if b
            then ok (record { existing_side = l; joining_side = r })
            else err QueryError.unconnected)
          ≡ ok c
        → Connects alias bound c
    go true b first second e = subst (Connects alias bound) (ok_injective _ c e) (first refl)
    go false true first second e = subst (Connects alias bound) (ok_injective _ c e) (second refl)
    go false false first second e = cc

module _ (std : StdText) (base_alias : Str) where
  resolve_condition-Connects :
      (alias : Str) (bound : List Str) (s : SavedJoinCondition) (c : ResolvedJoinCondition)
      → resolve_condition std base_alias alias bound s ≡ ok c
      → Connects alias bound c
  unfolding resolve_condition
  resolve_condition-Connects alias bound s c e =
      let (l, _, el) =
        bind_ok (parse_qualified_field std s.left base_alias) _ c
          (unless_ok (not (eq_ignore_ascii_case s.op (codes "Eq"))) _ _ c e).1 in
      let (r, _, er) = bind_ok (parse_qualified_field std s.right base_alias) _ c el in
      connect-Connects alias bound l r c er

  resolve_conditions-Connects :
      (alias : Str) (bound : List Str) (ss : List SavedJoinCondition)
      (cs : List ResolvedJoinCondition)
      → resolve_conditions std base_alias alias bound ss ≡ ok cs
      → All (Connects alias bound) cs × (is_nil ss ≡ false → cs ≢ [])
  unfolding resolve_conditions
  resolve_conditions-Connects alias bound [] cs e =
      (subst (All (Connects alias bound)) (ok_injective [] cs e) tt, λ some_. cc)
  resolve_conditions-Connects alias bound (s ∷ ss) cs e =
      let (c, ec, e1) = bind_ok (resolve_condition std base_alias alias bound s) _ cs e in
      let (rest, er, e2) = bind_ok (resolve_conditions std base_alias alias bound ss) _ cs e1 in
      let conditions : c ∷ rest ≡ cs = ok_injective (c ∷ rest) cs e2 in
      (
        subst (All (Connects alias bound)) conditions (
          resolve_condition-Connects alias bound s c ec,
          (resolve_conditions-Connects alias bound ss rest er).0,
        ),
        λ some_ empty. cons_not_nil c rest (conditions ∙ empty),
      )
    where
      cons_not_nil : (c : ResolvedJoinCondition) (rest : List ResolvedJoinCondition) → c ∷ rest ≢ []
      cons_not_nil c rest e = cc

  resolve_join-connected :
      (join : SavedJoin) (bound : List Str) (entity : Str) (r : ResolvedJoin)
      → resolve_join std base_alias join bound entity ≡ ok r
      → (r.alias ≡ join_alias std base_alias join)
        × (contains_text r.alias bound ≡ false)
        × (r.conditions ≢ [])
        × All (Connects r.alias bound) r.conditions
  unfolding resolve_join resolved
  resolve_join-connected join bound entity r e =
      let (fresh, e1) = unless_ok (contains_text (join_alias std base_alias join) bound) _ _ r e in
      let (on, e2) = unless_ok (is_nil join.on) _ _ r e1 in
      let (kind, _, e3) = bind_ok (join_kind (std.to_lowercase join.join_type)) _ r e2 in
      let (cs, ec, e4) =
        bind_ok (resolve_conditions std base_alias (join_alias std base_alias join) bound join.on) _
          r e3 in
      let (_, _, e5) = bind_ok (check_names std base_alias join) _ r e4 in
      let made : resolved std base_alias join entity kind cs ≡ r = ok_injective _ r e5 in
      let facts =
        resolve_conditions-Connects (join_alias std base_alias join) bound join.on cs ec in
      subst
        (λ (x : ResolvedJoin).
          (x.alias ≡ join_alias std base_alias join)
          × (contains_text x.alias bound ≡ false)
          × (x.conditions ≢ [])
          × All (Connects x.alias bound) x.conditions)
        made (refl, fresh, facts.1 on, facts.0)

  resolve_joins_from-IsConnected :
      (joins : List SavedJoin) (bound : List Str) (entity : Str) (rs : List ResolvedJoin)
      → resolve_joins_from std base_alias joins bound entity ≡ ok rs
      → IsConnected bound rs
  unfolding resolve_joins_from
  resolve_joins_from-IsConnected [] bound entity rs e =
      subst (IsConnected bound) (ok_injective [] rs e) tt
  resolve_joins_from-IsConnected (join ∷ joins) bound entity rs e =
      let (r, er, e1) = bind_ok (resolve_join std base_alias join bound entity) _ rs e in
      let (rest, et, e2) =
        bind_ok
          (resolve_joins_from std base_alias joins (join_alias std base_alias join ∷ bound) entity)
          _ rs e1 in
      let (named, fresh, nonempty, connects) = resolve_join-connected join bound entity r er in
      let later : IsConnected (join_alias std base_alias join ∷ bound) rest =
        resolve_joins_from-IsConnected joins (join_alias std base_alias join ∷ bound) entity rest
          et in
      subst (IsConnected bound) (ok_injective (r ∷ rest) rs e2)
        (fresh, nonempty, connects, subst (λ a. IsConnected (a ∷ bound) rest) (sym named) later)

  -- If the joins of a query are resolved, then each of them has an alias that neither the base table nor
  -- a join before it has, at least one condition, and in every condition a field of its own alias on the
  -- joining side and one of an alias before it on the existing side.
  pub resolve_joins-IsConnected :
      (joins : List SavedJoin) (entity : Str) (rs : List ResolvedJoin)
      → resolve_joins std base_alias joins entity ≡ ok rs
      → IsConnected (base_alias ∷ []) rs
  unfolding resolve_joins
  resolve_joins-IsConnected joins entity rs e =
      resolve_joins_from-IsConnected joins (base_alias ∷ []) entity rs e
