-- ===== src/Expression.antt =====
-- Computed fields (src/core/expression.rs): the expressions and their value. Expression.Tokens is the
-- tokenizer and Expression.Parser the parser. A text is the list of its characters' code points.
pub mod Value
pub mod Tokens
pub mod Concat
pub mod Parser
pub mod Positions
use bittice.Prelude.{
  ℕ, Bool, true, false, not, Option, none, some, List, [], ◌∷◌, ◌++◌, if◌then◌else◌,
}

-- The machine's `f64`, and the number that a text reads as.
pub record Float : Type 1 where
  pub F : Type 0
  pub zero : F
  pub one : F
  pub epsilon : F
  pub add : F → F → F
  pub sub : F → F → F
  pub mul : F → F → F
  pub div : F → F → F
  pub abs : F → F
  pub eq : F → F → Bool
  pub lt : F → F → Bool
  pub le : F → F → Bool
  pub parse : List ℕ → Option F

pub data BinaryOp : Type 0 where
  add : BinaryOp
  sub : BinaryOp
  mul : BinaryOp
  div : BinaryOp
  eq : BinaryOp
  ne : BinaryOp
  gt : BinaryOp
  gte : BinaryOp
  lt : BinaryOp
  lte : BinaryOp

pub data Expr (f : Float) : Type 0 where
  literal : f.F → Expr f
  field : List ℕ → Expr f
  binary_op : Expr f → BinaryOp → Expr f → Expr f
  if_expr : Expr f → Expr f → Expr f → Expr f

module _ (f : Float) where
  abbrev pub truth : Bool → f.F
  truth b = if b then f.one else f.zero

  -- The `match` on the operator.
  unfoldable pub apply : BinaryOp → f.F → f.F → f.F
  apply BinaryOp.add l r = f.add l r
  apply BinaryOp.sub l r = f.sub l r
  apply BinaryOp.mul l r = f.mul l r
  apply BinaryOp.div l r = if not (f.eq r f.zero) then f.div l r else f.zero
  apply BinaryOp.eq l r = truth (f.lt (f.abs (f.sub l r)) f.epsilon)
  apply BinaryOp.ne l r = truth (f.lt f.epsilon (f.abs (f.sub l r)))
  apply BinaryOp.gt l r = truth (f.lt r l)
  apply BinaryOp.gte l r = truth (f.le r l)
  apply BinaryOp.lt l r = truth (f.lt l r)
  apply BinaryOp.lte l r = truth (f.le l r)

  abbrev pub unwrap_or : f.F → Option f.F → f.F
  unwrap_or d none = d
  unwrap_or d (some v) = v

  unfoldable pub evaluate : Expr f → (List ℕ → Option f.F) → f.F
  unfolding apply
  evaluate (literal n) context = n
  evaluate (field name) context = unwrap_or f.zero (context name)
  evaluate (binary_op left op right) context =
      apply op (evaluate left context) (evaluate right context)
  evaluate (if_expr c t e) context =
      let true_val = evaluate t context in
      let false_val = evaluate e context in
      if f.lt f.zero (evaluate c context) then true_val else false_val

  unfoldable pub extract_fields : Expr f → List (List ℕ)
  extract_fields (literal n) = []
  extract_fields (field name) = name ∷ []
  extract_fields (binary_op left op right) = extract_fields left ++ extract_fields right
  extract_fields (if_expr c t e) = extract_fields c ++ (extract_fields t ++ extract_fields e)
