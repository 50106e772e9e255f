-- ===== src/Tests/ExprRuns.antt =====
-- Computed fields: natural numbers for floats, runs, and the theorems at concrete inputs.
use bittice.Prelude.{
  codes, bytes_eq, ℕ, ◌+◌, ◌-◌, ◌*◌, ◌/◌, ◌≡◌, ◌≢◌, refl, ◌&&◌, ◌==◌, if◌then◌else◌, Option, none,
  some, List, [], ◌∷◌, ltb, leb, ok, err, panic,
}
use bittice.Expression.{Float, Expr, literal, field, binary_op, if_expr, BinaryOp}
use bittice.Expression.Tokens.{tokenize, tokens_from, token_step}
use bittice.Expression.Parser.{
  unexpected_tokens, slice_from, operand, level_loop, parse_level, parse_paren, parse_part,
  parse_if, parse_primary, parse_expr, parse_expression,
}
use bittice.Expression.Positions.{parse_expression-ne-panic}

abbrev digits : ℕ → List ℕ → Option ℕ
digits n [] = some n
digits n (c ∷ cs) =
    let rest = digits (10 * n + (c - 48)) cs in if leb 48 c && leb c 57 then rest else none

abbrev number : List ℕ → Option ℕ
number [] = none
number (c ∷ cs) = digits 0 (c ∷ cs)

abbrev naturals : Float
naturals = record {
  F = ℕ;
  zero = 0;
  one = 1;
  epsilon = 1;
  add = λ a b. a + b;
  sub = λ a b. a - b;
  mul = λ a b. a * b;
  div = λ a b. a / b;
  abs = λ a. a;
  eq = λ a b. a == b;
  lt = ltb;
  le = leb;
  parse = number;
}

abbrev num : ℕ → Expr naturals
num n = literal n

-- Products bind tighter than sums, sums tighter than comparisons, and each level is read from the left.
precedence_run :
    parse_expression naturals (codes "9-2-1*3>=4")
    ≡ ok (
        binary_op
          (binary_op
            (binary_op (num 9) BinaryOp.sub (num 2))
            BinaryOp.sub
            (binary_op (num 1) BinaryOp.mul (num 3)))
          BinaryOp.gte
          (num 4))
unfolding parse_expression parse_expr parse_level level_loop operand parse_primary slice_from
    tokenize tokens_from token_step
precedence_run = refl

if_run :
    parse_expression naturals (codes "if(a>1, b, (0))")
    ≡ ok (if_expr (binary_op (field (codes "a")) BinaryOp.gt (num 1)) (field (codes "b")) (num 0))
unfolding parse_expression parse_expr parse_level level_loop operand parse_primary parse_if
    parse_part parse_paren slice_from tokenize tokens_from token_step
if_run = refl

-- A stray parenthesis after an operator is read as a field.
stray_run :
    parse_expression naturals (codes "1+)")
    ≡ ok (binary_op (num 1) BinaryOp.add (field (codes ")")))
unfolding parse_expression parse_expr parse_level level_loop operand parse_primary slice_from
    tokenize tokens_from token_step
stray_run = refl

-- A sign is no part of a number.
sign_run : parse_expression naturals (codes "-5") ≡ err unexpected_tokens
unfolding parse_expression parse_expr parse_level level_loop operand parse_primary slice_from
    tokenize tokens_from token_step
sign_run = refl

abbrev a_or_b : Expr naturals
a_or_b = if_expr (field (codes "a")) (field (codes "b")) (num 7)

abbrev here : List ℕ → Option ℕ
here name =
    if bytes_eq name (codes "a") then some 2 else if bytes_eq name (codes "b") then some 3 else none

abbrev there : List ℕ → Option ℕ
there name = if bytes_eq name (codes "c") then some 9 else here name

abbrev sum_tokens : List (List ℕ)
sum_tokens = codes "a" ∷ codes "+" ∷ codes "1" ∷ []

parse_expression-ne-panic_example : parse_expression naturals (codes "((1") ≢ panic
parse_expression-ne-panic_example = parse_expression-ne-panic naturals (codes "((1")
