-- ===== src/Expression/Value.antt =====
-- The value of an expression depends on the fields that it names.
use bittice.Prelude.{ℕ, ◌≡◌, refl, ap₂, Option, List, [], ◌∷◌, ◌++◌, All}
use bittice.Expression.{
  Float, Expr, literal, field, binary_op, if_expr, apply, evaluate, extract_fields,
}

-- Both parts of what holds of all elements of two lists.
pub All-split {κ} :
    {A : Type 0} (P : A → Type κ) (xs ys : List A) → All P (xs ++ ys) → All P xs × All P ys
All-split P [] ys a = (tt, a)
All-split P (x ∷ xs) ys (p, a) = let (l, r) = All-split P xs ys a in ((p, l), r)

module _ (f : Float) (here there : List ℕ → Option f.F) where
  -- Two contexts that agree on the fields that `extract_fields` lists give the expression the same
  -- value.
  pub evaluate-extract_fields :
      (e : Expr f)
      → All (λ name. here name ≡ there name) (extract_fields f e)
      → evaluate f e here ≡ evaluate f e there
  unfolding evaluate extract_fields
  evaluate-extract_fields (literal n) agree = refl
  evaluate-extract_fields (field name) agree = rw agree.0
  evaluate-extract_fields (binary_op l op r) agree =
      let (hl, hr) =
        All-split (λ name. here name ≡ there name) (extract_fields f l) (extract_fields f r)
          agree in
      ap₂ (apply f op) (evaluate-extract_fields l hl) (evaluate-extract_fields r hr)
  evaluate-extract_fields (if_expr c t e) agree =
      let (hc, rest) =
        All-split (λ name. here name ≡ there name) (extract_fields f c)
          (extract_fields f t ++ extract_fields f e) agree in
      let (ht, he) =
        All-split (λ name. here name ≡ there name) (extract_fields f t) (extract_fields f e) rest in
      rw (evaluate-extract_fields c hc, evaluate-extract_fields t ht, evaluate-extract_fields e he)
