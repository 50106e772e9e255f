-- ===== src/Expression/Positions.antt =====
-- The parser always returns, and every position that it returns is within the tokens.
use bittice.Prelude.{
  bytes_eq, ℕ, zero, suc, ◌+◌, ◌≤◌, ◌<◌, ◌≡◌, ◌≢◌, refl, true, false, if◌then◌else◌, Option, none,
  some, List, [], ◌∷◌, length, drop, length-drop, get_elem?, ltb, ok, err, panic, ◌>>=◌, Bool-cases,
  Option-cases, inl, inr, arith,
}
use bittice.Expression.{Float, Expr, binary_op, if_expr, BinaryOp}
use bittice.Expression.Tokens.{tokenize}
use bittice.Expression.Parser.{
  ParseError, unexpected_tokens, missing_parenthesis, invalid_if, Parsed, slice_from, token_is,
  op_at, operand, level_loop, parse_level, parse_paren, parse_part, parse_if, parse_primary,
  parse_expr, parse_expression, comparison_op, term_op, factor_op, is_if,
}

in_range :
    (tokens : List (List ℕ)) (i : ℕ) (token : List ℕ)
    → get_elem? tokens i ≡ some token
    → i < length tokens
in_range [] i token h = cc
in_range (x ∷ tokens) zero token h = omega arith
in_range (x ∷ tokens) (suc i) token h = omega (arith, in_range tokens i token h)

token_is-lt :
    (tokens : List (List ℕ)) (i : ℕ) (text : List ℕ)
    → token_is (get_elem? tokens i) text ≡ true
    → i < length tokens
token_is-lt tokens i text h = elim (Option-cases (get_elem? tokens i)) [
  | inl missing ↦ let none_is : false ≡ true = rw missing at h in cc
  | inr (token, found) ↦ in_range tokens i token found
]

op_at-lt :
    (op_of : List ℕ → Option BinaryOp) (tokens : List (List ℕ)) (i : ℕ) (op : BinaryOp)
    → op_at op_of (get_elem? tokens i) ≡ some op
    → i < length tokens
op_at-lt op_of tokens i op h = elim (Option-cases (get_elem? tokens i)) [
  | inl missing ↦ let no_op : op_at op_of none ≡ some op = rw missing at h in cc
  | inr (token, found) ↦ in_range tokens i token found
]

slice_from-drop :
    (tokens : List (List ℕ)) (pos : ℕ)
    → pos ≤ length tokens
    → slice_from tokens pos ≡ ok (drop pos tokens)
unfolding slice_from
slice_from-drop tokens pos le = ground arith

module _ (f : Float) where
  -- Not a panic, and a position from `low` to `high` if there is one.
  abbrev pub Fits : ℕ → ℕ → Parsed f → Type 0
  Fits low high (ok (e, pos)) = (low ≤ pos) × (pos ≤ high)
  Fits low high (err e) = Unit
  Fits low high panic = ⊥

  -- What a parser returns for fewer than `n` tokens.
  abbrev pub IsSound : ℕ → (List (List ℕ) → Parsed f) → Type 0
  IsSound n parse =
      (tokens : List (List ℕ)) → length tokens < n → Fits 1 (length tokens) (parse tokens)

  bind-Fits :
      (low high low' high' : ℕ) (m : Parsed f) (continue : Expr f × ℕ → Parsed f)
      → Fits low high m
      → ((e : Expr f) (pos : ℕ) → low ≤ pos → pos ≤ high → Fits low' high' (continue (e, pos)))
      → Fits low' high' (m >>= continue)
  bind-Fits low high low' high' (ok (e, pos)) continue (l, h) fits = fits e pos l h
  bind-Fits low high low' high' (err e) continue m fits = tt
  bind-Fits low high low' high' panic continue m fits = absurd m

  weaken-Fits : (low high low' : ℕ) (m : Parsed f) → Fits low high m → low' ≤ low → Fits low' high m
  weaken-Fits low high low' (ok (e, pos)) (l, h) le = (omega arith, h)
  weaken-Fits low high low' (err e) m le = tt
  weaken-Fits low high low' panic m le = absurd m

  module _ (op_of : List ℕ → Option BinaryOp) (next : List (List ℕ) → Parsed f) (n : ℕ)
      (sound : IsSound n next) (tokens : List (List ℕ)) (short : length tokens < n) where
    operand-Fits :
        (op : Option BinaryOp) (left : Expr f) (pos : ℕ) (continue : Expr f × ℕ → Parsed f)
        → op_at op_of (get_elem? tokens pos) ≡ op
        → 1 ≤ pos
        → pos ≤ length tokens
        → ((e : Expr f) (p : ℕ)
            → pos < p
            → p ≤ length tokens
            → Fits 1 (length tokens) (continue (e, p)))
        → Fits 1 (length tokens) (operand f op_of next tokens op left pos continue)
    unfolding operand
    operand-Fits none left pos continue at low high fits = (low, high)
    operand-Fits (some op) left pos continue at low high fits =
        let lt : pos < length tokens = op_at-lt op_of tokens pos op at in
        let rest = length-drop (pos + 1) tokens in
        rw (slice_from-drop tokens (pos + 1) (omega (arith, lt))) (
          bind-Fits 1 (length (drop (pos + 1) tokens)) 1 (length tokens)
            (next (drop (pos + 1) tokens))
            (λ (right, next_pos). continue (binary_op left op right, pos + (1 + next_pos)))
            (sound (drop (pos + 1) tokens) (omega (arith, rest, short)))
            (λ e p l h.
              fits (binary_op left op e) (pos + (1 + p)) (omega arith)
                (omega (arith, rest, h, lt))))

    level_loop-Fits :
        (rounds : ℕ) (left : Expr f) (pos : ℕ)
        → 1 ≤ pos
        → pos ≤ length tokens
        → length tokens < rounds + pos
        → Fits 1 (length tokens) (level_loop f op_of next tokens rounds left pos)
    unfolding level_loop
    level_loop-Fits zero left pos low high enough = absurd (omega (arith, high, enough))
    level_loop-Fits (suc rounds) left pos low high enough =
        operand-Fits (op_at op_of (get_elem? tokens pos)) left pos
          (λ (l, p). level_loop f op_of next tokens rounds l p) refl low high
          (λ e p lt le. level_loop-Fits rounds e p (omega arith) le (omega arith))

  parse_level-IsSound :
      (op_of : List ℕ → Option BinaryOp) (next : List (List ℕ) → Parsed f) (n : ℕ)
      → IsSound n next
      → IsSound n (parse_level f op_of next)
  unfolding parse_level
  parse_level-IsSound op_of next n sound tokens short =
      bind-Fits 1 (length tokens) 1 (length tokens) (next tokens)
        (λ (left, pos). level_loop f op_of next tokens (length tokens) left pos)
        (sound tokens short)
        (λ e p l h.
          level_loop-Fits op_of next n sound tokens short (length tokens) e p l h (omega arith))

  module _ (expr : List (List ℕ) → Parsed f) (n : ℕ) (sound : IsSound n expr)
      (tokens : List (List ℕ)) (short : length tokens < suc n) where
    -- an expression that starts at a token, and the text that closes it
    closed :
        (start : ℕ) (closing : List ℕ) (failed : ParseError) (e : Expr f) (p : ℕ)
        → 1 ≤ p
        → Fits (start + 1) (length tokens) (
            if token_is (get_elem? tokens (start + p)) closing
            then ok (e, start + p + 1)
            else err failed)
    closed start closing failed e p low =
        elim (Bool-cases (token_is (get_elem? tokens (start + p)) closing)) [
          | inr unclosed ↦ rw unclosed tt
          | inl shut ↦
              let lt = token_is-lt tokens (start + p) closing shut in
              rw shut (omega arith, omega (arith, lt))
        ]

    inner :
        (start : ℕ) (closing : List ℕ) (failed : ParseError)
        → 1 ≤ start
        → start ≤ length tokens
        → Fits (start + 1) (length tokens) (do
          rest ← slice_from tokens start
          (e, p) ← expr rest
          if token_is (get_elem? tokens (start + p)) closing
              then ok (e, start + p + 1)
              else err failed)
    inner start closing failed low high =
        let rest = length-drop start tokens in
        rw (slice_from-drop tokens start high) (
          bind-Fits 1 (length (drop start tokens)) (start + 1) (length tokens)
            (expr (drop start tokens))
            (λ (e, p).
              if token_is (get_elem? tokens (start + p)) closing
              then ok (e, start + p + 1)
              else err failed)
            (sound (drop start tokens) (omega (arith, rest, short)))
            (λ e p l h. closed start closing failed e p l))

    parse_paren-Fits : 1 ≤ length tokens → Fits 1 (length tokens) (parse_paren f expr tokens)
    unfolding parse_paren
    parse_paren-Fits some_token =
        weaken-Fits 2 (length tokens) 1 (parse_paren f expr tokens)
          (inner 1 (b')' ∷ []) missing_parenthesis (omega arith) some_token) (omega arith)

    parse_if-Fits : Fits 1 (length tokens) (parse_if f expr tokens)
    unfolding parse_if parse_part
    parse_if-Fits = elim (Bool-cases (token_is (get_elem? tokens 1) (b'(' ∷ []))) [
      | inr other ↦ rw other tt
      | inl opened ↦
          let lt = token_is-lt tokens 1 (b'(' ∷ []) opened in
          rw opened (
            bind-Fits 3 (length tokens) 1 (length tokens) (parse_part f expr tokens 2 (b',' ∷ []))
              (λ (cond, p1). (do
                (true_val, p2) ← parse_part f expr tokens p1 (b',' ∷ [])
                (false_val, p3) ← parse_part f expr tokens p2 (b')' ∷ [])
                ok (if_expr cond true_val false_val, p3)))
              (inner 2 (b',' ∷ []) invalid_if (omega arith) (omega (arith, lt)))
              (λ cond p1 l1 h1.
                bind-Fits (p1 + 1) (length tokens) 1 (length tokens)
                  (parse_part f expr tokens p1 (b',' ∷ []))
                  (λ (true_val, p2). (do
                    (false_val, p3) ← parse_part f expr tokens p2 (b')' ∷ [])
                    ok (if_expr cond true_val false_val, p3)))
                  (inner p1 (b',' ∷ []) invalid_if (omega arith) h1)
                  (λ true_val p2 l2 h2.
                    bind-Fits (p2 + 1) (length tokens) 1 (length tokens)
                      (parse_part f expr tokens p2 (b')' ∷ []))
                      (λ (false_val, p3). ok (if_expr cond true_val false_val, p3))
                      (inner p2 (b')' ∷ []) invalid_if (omega arith) h2)
                      (λ false_val p3 l3 h3. (omega arith, h3)))))
    ]

  parse_primary-IsSound :
      (expr : List (List ℕ) → Parsed f) (n : ℕ)
      → IsSound n expr
      → IsSound (suc n) (parse_primary f expr)
  unfolding parse_primary
  parse_primary-IsSound expr n sound [] short = tt
  parse_primary-IsSound expr n sound (token ∷ tokens) short =
      elim (Bool-cases (bytes_eq token (b'(' ∷ []))) [
        | inl paren ↦ rw paren (parse_paren-Fits expr n sound (token ∷ tokens) short (omega arith))
        | inr other ↦ elim (Bool-cases (is_if token)) [
          | inl cond ↦ rw (other, cond) (parse_if-Fits expr n sound (token ∷ tokens) short)
          | inr plain ↦ rw (other, plain) (omega arith, omega arith)
        ]
      ]

  -- With more fuel than there are tokens the parser does not panic: it fails with an error, or reads at
  -- least one token and at most all of them.
  pub parse_expr-Fits :
      (fuel : ℕ) (tokens : List (List ℕ))
      → length tokens < fuel
      → Fits 1 (length tokens) (parse_expr f fuel tokens)
  unfolding parse_expr
  parse_expr-Fits zero tokens short = absurd (omega (arith, short))
  parse_expr-Fits (suc fuel) tokens short =
      parse_level-IsSound comparison_op
        (parse_level f term_op
          (parse_level f factor_op (parse_primary f (λ rest. parse_expr f fuel rest))))
        (suc fuel)
        (parse_level-IsSound term_op
          (parse_level f factor_op (parse_primary f (λ rest. parse_expr f fuel rest))) (suc fuel)
          (parse_level-IsSound factor_op (parse_primary f (λ rest. parse_expr f fuel rest))
            (suc fuel)
            (parse_primary-IsSound (λ rest. parse_expr f fuel rest) fuel (parse_expr-Fits fuel))))
        tokens short

  -- Every text is parsed to an expression or refused with an error: no slice of the tokens is out of
  -- bounds, and the recursion ends.
  pub parse_expression-ne-panic : (input : List ℕ) → parse_expression f input ≢ panic
  unfolding parse_expression
  parse_expression-ne-panic input =
      settled (parse_expr f (suc (length (tokenize input))) (tokenize input))
        (parse_expr-Fits (suc (length (tokenize input))) (tokenize input) (omega arith))
    where
      settled :
          (m : Parsed f)
          → Fits 1 (length (tokenize input)) m
          → (do
            (expr, pos) ← m
            if ltb pos (length (tokenize input)) then err unexpected_tokens else ok expr)
            ≢ panic
      settled (ok (e, pos)) fits = elim (Bool-cases (ltb pos (length (tokenize input)))) [
        | inl more ↦ rw more (λ h. cc)
        | inr done ↦ rw done (λ h. cc)
      ]
      settled (err e) fits = λ h. cc
      settled panic fits = absurd fits
