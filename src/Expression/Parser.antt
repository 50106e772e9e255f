-- ===== src/Expression/Parser.antt =====
-- The parser. Each function returns the expression and how many tokens it has read; a slice of the tokens
-- from beyond their end panics. `parse_expr` runs on fuel, and a call without any is a panic.
use bittice.Prelude.{
  bytes_eq, ℕ, zero, suc, ◌+◌, Bool, false, ◌&&◌, ◌-◌, if◌then◌else◌, Option, none, some, List, [],
  ◌∷◌, length, drop, get_elem?, ltb, leb, Result, ok, err, panic, ◌>>=◌, map,
}
use bittice.Expression.{
  Float, Expr, literal, field, binary_op, if_expr, BinaryOp, add, sub, mul, div, eq, ne, gt, gte,
  lt, lte,
}
use bittice.Expression.Tokens.{tokenize}

pub data ParseError : Type 0 where
  unexpected_end : ParseError
  missing_parenthesis : ParseError
  invalid_if : ParseError
  unexpected_tokens : ParseError

abbrev pub Parsed : Float → Type 0
Parsed f = Result ParseError (Expr f × ℕ)

-- `&tokens[pos..]`.
unfoldable pub slice_from : List (List ℕ) → ℕ → Result ParseError (List (List ℕ))
slice_from tokens pos = if leb pos (length tokens) then ok (drop pos tokens) else panic

-- `pos < tokens.len() && tokens[pos] == text`.
abbrev pub token_is : Option (List ℕ) → List ℕ → Bool
token_is none text = false
token_is (some token) text = bytes_eq token text

abbrev pub comparison_op : List ℕ → Option BinaryOp
comparison_op token =
    if bytes_eq token (b'=' ∷ [])
    then some eq
    else if bytes_eq token (b'!' ∷ b'=' ∷ [])
    then some ne
    else if bytes_eq token (b'>' ∷ [])
    then some gt
    else if bytes_eq token (b'>' ∷ b'=' ∷ [])
    then some gte
    else if bytes_eq token (b'<' ∷ [])
    then some lt
    else if bytes_eq token (b'<' ∷ b'=' ∷ [])
    then some lte
    else none

abbrev pub term_op : List ℕ → Option BinaryOp
term_op token =
    if bytes_eq token (b'+' ∷ [])
    then some add
    else if bytes_eq token (b'-' ∷ [])
    then some sub
    else none

abbrev pub factor_op : List ℕ → Option BinaryOp
factor_op token =
    if bytes_eq token (b'*' ∷ [])
    then some mul
    else if bytes_eq token (b'/' ∷ [])
    then some div
    else none

-- `char::to_ascii_uppercase`, and `token.eq_ignore_ascii_case("IF")`.
abbrev pub upper : ℕ → ℕ
upper c = if leb b'a' c && leb c b'z' then c - 32 else c

abbrev pub is_if : List ℕ → Bool
is_if token = bytes_eq (map upper token) (b'I' ∷ b'F' ∷ [])

abbrev pub op_at : (List ℕ → Option BinaryOp) → Option (List ℕ) → Option BinaryOp
op_at op_of none = none
op_at op_of (some token) = op_of token

module _ (f : Float) where
  module _ (op_of : List ℕ → Option BinaryOp) (next : List (List ℕ) → Parsed f)
      (tokens : List (List ℕ)) where
    -- The right operand of an operator, if there was one.
    unfoldable pub operand : Option BinaryOp → Expr f → ℕ → (Expr f × ℕ → Parsed f) → Parsed f
    unfolding slice_from
    operand none left pos continue = ok (left, pos)
    operand (some op) left pos continue = do
      rest ← slice_from tokens (pos + 1)
      (right, next_pos) ← next rest
      continue (binary_op left op right, pos + (1 + next_pos))

    -- The `while` loop of a level. A round reads a token, so the number of tokens is enough rounds.
    unfoldable pub level_loop : ℕ → Expr f → ℕ → Parsed f
    unfolding operand
    level_loop zero left pos = panic
    level_loop (suc rounds) left pos =
        operand (op_at op_of (get_elem? tokens pos)) left pos (λ (l, p). level_loop rounds l p)

  -- `parse_comparison`, `parse_term` and `parse_factor` are one function, of their operators and of the
  -- level below.
  unfoldable pub parse_level :
      (List ℕ → Option BinaryOp) → (List (List ℕ) → Parsed f) → List (List ℕ) → Parsed f
  unfolding level_loop
  parse_level op_of next tokens = do
    (left, pos) ← next tokens
    level_loop op_of next tokens (length tokens) left pos

  module _ (expr : List (List ℕ) → Parsed f) where
    unfoldable pub parse_paren : List (List ℕ) → Parsed f
    unfolding slice_from
    parse_paren tokens = do
      rest ← slice_from tokens 1
      (e, pos) ← expr rest
      if token_is (get_elem? tokens (1 + pos)) (b')' ∷ [])
          then ok (e, 1 + pos + 1)
          else err missing_parenthesis

    -- A sub-expression of an `IF`, and the text that has to follow it.
    unfoldable pub parse_part : List (List ℕ) → ℕ → List ℕ → Parsed f
    unfolding slice_from
    parse_part tokens current closing = do
      rest ← slice_from tokens current
      (e, p) ← expr rest
      if token_is (get_elem? tokens (current + p)) closing
          then ok (e, current + p + 1)
          else err invalid_if

    unfoldable pub parse_if : List (List ℕ) → Parsed f
    unfolding parse_part
    parse_if tokens =
        if token_is (get_elem? tokens 1) (b'(' ∷ [])
        then (do
          (cond, p1) ← parse_part tokens 2 (b',' ∷ [])
          (true_val, p2) ← parse_part tokens p1 (b',' ∷ [])
          (false_val, p3) ← parse_part tokens p2 (b')' ∷ [])
          ok (if_expr cond true_val false_val, p3))
        else err invalid_if

    -- A number or a field.
    abbrev pub leaf : List ℕ → Option f.F → Expr f
    leaf token none = field token
    leaf token (some n) = literal n

    unfoldable pub parse_primary : List (List ℕ) → Parsed f
    unfolding parse_paren parse_if
    parse_primary [] = err unexpected_end
    parse_primary (token ∷ tokens) =
        if bytes_eq token (b'(' ∷ [])
        then parse_paren (token ∷ tokens)
        else if is_if token
        then parse_if (token ∷ tokens)
        else ok (leaf token (f.parse token), 1)

  unfoldable pub parse_expr : ℕ → List (List ℕ) → Parsed f
  unfolding parse_level parse_primary
  parse_expr zero tokens = panic
  parse_expr (suc fuel) tokens =
      parse_level comparison_op
        (parse_level term_op (parse_level factor_op (parse_primary (λ rest. parse_expr fuel rest))))
        tokens

  -- `parse_expression`. Every nested call reads a token, so one call more than the tokens is enough.
  unfoldable pub parse_expression : List ℕ → Result ParseError (Expr f)
  unfolding parse_expr
  parse_expression input = do
    let tokens = tokenize input
    (expr, pos) ← parse_expr (suc (length tokens)) tokens
    if ltb pos (length tokens) then err unexpected_tokens else ok expr
