-- ===== src/Query/Needed.antt =====
-- The fields that a query over several tables loads (src/core/join_query.rs), for its tree of filters.
use bittice.Prelude.{
  Str, Bool, true, false, ◌&&◌, ◌||◌, Option, none, some, List, [], ◌∷◌, ◌++◌, if◌then◌else◌,
  bytes_eq, bytes_eq_refl, bytes_eq→eq, find, set, find-set, any_of, arith, ◌≡◌, refl, sym, ap, ap₂,
  ◌∙◌, inl, inr, Bool-cases, ◌⊎◌,
}
use bittice.Filter.{StdText, and_op, or_op}
use bittice.Query.{
  ResolvedFilter, ResolvedFilterTreeNode, condition, group, Filters, no_more, child, FlatRow,
  qualify, accepts_value, evaluate_filter, evaluate_filter_tree, all_children, any_child,
}
use bittice.Query.Lookup.{contains_text}
use bittice.Query.Pushdown.{IsQualified}

-- A map of sets of fields.
abbrev pub Needed : Type 0
Needed = List (Str × List Str)

abbrev pub fields_of : Option (List Str) → List Str
fields_of none = []
fields_of (some fields) = fields

-- `HashSet::insert`.
unfoldable pub with_field : Str → List Str → List Str
unfolding contains_text
with_field field fields = if contains_text field fields then fields else fields ++ field ∷ []

unfoldable pub ensure_required_field : Needed → Str → Str → Needed
unfolding find set with_field
ensure_required_field needed alias field =
    set alias (with_field field (fields_of (find alias needed))) needed

unfoldable mutual
  unfolding ensure_required_field

  pub collect_filter_tree_fields : Needed → ResolvedFilterTreeNode → Needed
  collect_filter_tree_fields needed (condition filter) =
      ensure_required_field needed filter.field.alias filter.field.field
  collect_filter_tree_fields needed (group op filters) = collect_children needed filters

  pub collect_children : Needed → Filters → Needed
  collect_children needed no_more = needed
  collect_children needed (child node rest) =
      collect_children (collect_filter_tree_fields needed node) rest

unfoldable pub needs : Needed → Str → Str → Bool
unfolding find contains_text
needs needed alias field = contains_text field (fields_of (find alias needed))

-- Every filter of the tree has a field that is qualified by its alias.
unfoldable mutual
  pub IsQualifiedTree : ResolvedFilterTreeNode → Type 0
  IsQualifiedTree (condition filter) = IsQualified filter
  IsQualifiedTree (group op filters) = AreQualified filters

  pub AreQualified : Filters → Type 0
  AreQualified no_more = Unit
  AreQualified (child node rest) = IsQualifiedTree node × AreQualified rest

contains_text-snoc :
    (f g : Str) (fields : List Str)
    → contains_text f (fields ++ g ∷ []) ≡ (contains_text f fields || bytes_eq g f)
unfolding contains_text any_of
contains_text-snoc f g [] = ground arith
contains_text-snoc f g (x ∷ fields) = ground (arith, contains_text-snoc f g fields)

contains_text-with_field :
    (f field : Str) (fields : List Str)
    → contains_text f (with_field field fields) ≡ (contains_text f fields || bytes_eq field f)
unfolding with_field
contains_text-with_field f field fields = elim (Bool-cases (contains_text field fields)) [
  | inl known ↦ rw known (there known (Bool-cases (bytes_eq field f)))
  | inr new ↦ rw new (contains_text-snoc f field fields)
]
  where
    or_true : (b : Bool) → (b || true) ≡ true
    or_true true = refl
    or_true false = refl

    or_false : (b : Bool) → (b || false) ≡ b
    or_false true = refl
    or_false false = refl

    there :
        contains_text field fields ≡ true
        → (bytes_eq field f ≡ true) ⊎ (bytes_eq field f ≡ false)
        → contains_text f fields ≡ (contains_text f fields || bytes_eq field f)
    there known (inl same) =
        ap (λ g. contains_text g fields) (sym (bytes_eq→eq field f same))
        ∙ known
        ∙ sym (rw same (or_true (contains_text f fields)))
    there known (inr other) = rw other (sym (or_false (contains_text f fields)))

needs-ensure_required_field :
    (needed : Needed) (alias field a f : Str)
    → needs (ensure_required_field needed alias field) a f
      ≡ (needs needed a f || (bytes_eq alias a && bytes_eq field f))
unfolding needs ensure_required_field
needs-ensure_required_field needed alias field a f =
    ap (λ o. contains_text f (fields_of o))
      (find-set alias a (with_field field (fields_of (find alias needed))) needed)
    ∙ either (Bool-cases (bytes_eq alias a))
  where
    or_false : (b : Bool) → b ≡ (b || false)
    or_false true = refl
    or_false false = refl

    either :
        (bytes_eq alias a ≡ true) ⊎ (bytes_eq alias a ≡ false)
        → contains_text f (
            fields_of (
              if bytes_eq alias a
              then some (with_field field (fields_of (find alias needed)))
              else find a needed))
          ≡ (contains_text f (fields_of (find a needed)) || (bytes_eq alias a && bytes_eq field f))
    either (inl same) =
        rw (same, sym (bytes_eq→eq alias a same))
          (contains_text-with_field f field (fields_of (find alias needed)))
    either (inr other) = rw other (or_false (contains_text f (fields_of (find a needed))))

mutual
  unfolding collect_filter_tree_fields

  -- A field that was needed before is needed after.
  collect_filter_tree_fields-keeps :
      (needed : Needed) (node : ResolvedFilterTreeNode) (a f : Str)
      → needs needed a f ≡ true
      → needs (collect_filter_tree_fields needed node) a f ≡ true
  collect_filter_tree_fields-keeps needed (condition filter) a f h =
      needs-ensure_required_field needed filter.field.alias filter.field.field a f ∙ rw h refl
  collect_filter_tree_fields-keeps needed (group op filters) a f h =
      collect_children-keeps needed filters a f h

  collect_children-keeps :
      (needed : Needed) (filters : Filters) (a f : Str)
      → needs needed a f ≡ true
      → needs (collect_children needed filters) a f ≡ true
  collect_children-keeps needed no_more a f h = h
  collect_children-keeps needed (child node rest) a f h =
      collect_children-keeps (collect_filter_tree_fields needed node) rest a f
        (collect_filter_tree_fields-keeps needed node a f h)

needed_now :
    (needed : Needed) (filter : ResolvedFilter)
    → needs
        (ensure_required_field needed filter.field.alias filter.field.field)
        filter.field.alias
        filter.field.field
      ≡ true
needed_now needed filter =
    needs-ensure_required_field needed filter.field.alias filter.field.field filter.field.alias
      filter.field.field
    ∙ rw (bytes_eq_refl filter.field.alias, bytes_eq_refl filter.field.field)
        (or_true (needs needed filter.field.alias filter.field.field))
  where
    or_true : (b : Bool) → (b || true) ≡ true
    or_true true = refl
    or_true false = refl

module _ (std : StdText) (left right : FlatRow) where
  -- The rows have the same value in every needed field.
  abbrev pub Agree : Needed → Type 0
  Agree needed =
      (a f : Str) → needs needed a f ≡ true → find (qualify a f) left ≡ find (qualify a f) right

  evaluate_filter-Agree :
      (needed : Needed) (filter : ResolvedFilter)
      → IsQualified filter
      → needs needed filter.field.alias filter.field.field ≡ true
      → Agree needed
      → evaluate_filter std left filter ≡ evaluate_filter std right filter
  unfolding evaluate_filter
  evaluate_filter-Agree needed filter qualified needed_here agree = ap (accepts_value std filter) (
      ap (λ q. find q left) qualified
      ∙ agree filter.field.alias filter.field.field needed_here
      ∙ ap (λ q. find q right) (sym qualified))

  -- What is needed for all children is needed for each.
  Agree-children :
      (needed : Needed) (rest : Filters) → Agree (collect_children needed rest) → Agree needed
  Agree-children needed rest agree a f h = agree a f (collect_children-keeps needed rest a f h)

  mutual
    unfolding collect_filter_tree_fields evaluate_filter_tree IsQualifiedTree

    same_verdict :
        (needed : Needed) (node : ResolvedFilterTreeNode)
        → IsQualifiedTree node
        → Agree (collect_filter_tree_fields needed node)
        → evaluate_filter_tree std left node ≡ evaluate_filter_tree std right node
    same_verdict needed (condition filter) qualified agree =
        evaluate_filter-Agree (ensure_required_field needed filter.field.alias filter.field.field)
          filter qualified (needed_now needed filter) agree
    same_verdict needed (group and_op filters) qualified agree =
        (children_verdicts needed filters qualified agree).0
    same_verdict needed (group or_op filters) qualified agree =
        (children_verdicts needed filters qualified agree).1

    children_verdicts :
        (needed : Needed) (filters : Filters)
        → AreQualified filters
        → Agree (collect_children needed filters)
        → (all_children std left filters ≡ all_children std right filters)
          × (any_child std left filters ≡ any_child std right filters)
    children_verdicts needed no_more qualified agree = (refl, refl)
    children_verdicts needed (child node rest) (here, later) agree =
        let first : evaluate_filter_tree std left node ≡ evaluate_filter_tree std right node =
          same_verdict needed node here
            (Agree-children (collect_filter_tree_fields needed node) rest agree) in
        let others = children_verdicts (collect_filter_tree_fields needed node) rest later agree in
        (ap₂ (λ a b. a && b) first others.0, ap₂ (λ a b. a || b) first others.1)

  -- If the filters of a tree are qualified by their aliases: two rows with the same values in the fields
  -- that are collected for the tree, into any map, are both accepted by the tree or both rejected.
  pub evaluate_filter_tree-collect_filter_tree_fields :
      (needed : Needed) (node : ResolvedFilterTreeNode)
      → IsQualifiedTree node
      → Agree (collect_filter_tree_fields needed node)
      → evaluate_filter_tree std left node ≡ evaluate_filter_tree std right node
  evaluate_filter_tree-collect_filter_tree_fields needed node qualified agree =
      same_verdict needed node qualified agree
