-- ===== src/Expression/Tokens.antt =====
-- The tokenizer. Its index into the characters is the list of those that are left.
use bittice.Prelude.{ℕ, Bool, false, ◌||◌, ◌==◌, if◌then◌else◌, List, [], ◌∷◌, ◌++◌}

-- `if !current.is_empty() { tokens.push(current.clone()); current.clear(); }`, before other tokens.
abbrev pub push_current : List ℕ → List (List ℕ) → List (List ℕ)
push_current [] tokens = tokens
push_current (c ∷ current) tokens = (c ∷ current) ∷ tokens

-- `'(' | ')' | ','`, `'*' | '/' | '+' | '-'` and `'='`: each is a token of its own.
abbrev pub is_single : ℕ → Bool
is_single c =
    (c == b'(')
    || (c == b')')
    || (c == b',')
    || (c == b'*')
    || (c == b'/')
    || (c == b'+')
    || (c == b'-')
    || (c == b'=')

-- `' ' | '\x09' | '\x0A'`
abbrev pub is_space : ℕ → Bool
is_space c = (c == 32) || (c == 9) || (c == 10)

-- One round: `next_eq` is whether the next character is `=`, `one` the tokens from the next character on
-- with its current text, and `two` the tokens from the second next character on.
unfoldable pub token_step :
    List ℕ → ℕ → Bool → (List ℕ → List (List ℕ)) → List (List ℕ) → List (List ℕ)
token_step current c next_eq one two =
    if is_single c
    then push_current current ((c ∷ []) ∷ one [])
    else if is_space c
    then push_current current (one [])
    else if (c == b'>') || (c == b'<')
    then push_current current (if next_eq then (c ∷ b'=' ∷ []) ∷ two else (c ∷ []) ∷ one [])
    else if c == b'!'
    then push_current current (if next_eq then (c ∷ b'=' ∷ []) ∷ two else one (c ∷ []))
    else one (current ++ c ∷ [])

-- The loop, with the text that has been gathered for the current token.
unfoldable pub tokens_from : List ℕ → List ℕ → List (List ℕ)
unfolding token_step
tokens_from current [] = push_current current []
tokens_from current (c ∷ []) = token_step current c false (λ k. tokens_from k []) []
tokens_from current (c ∷ d ∷ cs) =
    token_step current c (d == b'=') (λ k. tokens_from k (d ∷ cs)) (tokens_from [] cs)

unfoldable pub tokenize : List ℕ → List (List ℕ)
unfolding tokens_from
tokenize input = tokens_from [] input
