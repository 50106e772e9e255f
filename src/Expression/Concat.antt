-- ===== src/Expression/Concat.antt =====
-- The tokens are the characters of the input that are no spaces, in their order.
use bittice.Prelude.{
  ℕ, ◌≡◌, refl, ap, ◌∙◌, Bool, true, false, ◌||◌, ◌==◌, if◌then◌else◌, List, [], ◌∷◌, ◌++◌,
  append_assoc, Bool-cases, inl, inr, arith,
}
use bittice.Expression.Tokens.{push_current, is_single, is_space, token_step, tokens_from, tokenize}

abbrev pub joined : List (List ℕ) → List ℕ
joined [] = []
joined (t ∷ tokens) = t ++ joined tokens

abbrev pub without_spaces : List ℕ → List ℕ
without_spaces [] = []
without_spaces (c ∷ cs) = let rest = without_spaces cs in if is_space c then rest else c ∷ rest

joined-push_current :
    (current : List ℕ) (tokens : List (List ℕ))
    → joined (push_current current tokens) ≡ current ++ joined tokens
joined-push_current [] tokens = refl
joined-push_current (c ∷ current) tokens = refl

single_no_space : (c : ℕ) → is_single c ≡ true → is_space c ≡ false
single_no_space c h = ground arith

joined-token_step :
    (current : List ℕ) (c : ℕ) (next_eq : Bool) (one : List ℕ → List (List ℕ)) (two : List (List ℕ))
    (rest : List ℕ)
    → ((k : List ℕ) → joined (one k) ≡ k ++ without_spaces rest)
    → (next_eq ≡ true → b'=' ∷ joined two ≡ without_spaces rest)
    → joined (token_step current c next_eq one two) ≡ current ++ without_spaces (c ∷ rest)
unfolding token_step
joined-token_step current c next_eq one two rest ones twos = elim (Bool-cases (is_single c)) [
  | inl single ↦
      rw (single, single_no_space c single)
        (joined-push_current current ((c ∷ []) ∷ one []) ∙ ap (λ r. current ++ c ∷ r) (ones []))
  | inr other ↦ elim (Bool-cases (is_space c)) [
    | inl space ↦
        rw (other, space) (joined-push_current current (one []) ∙ ap (λ r. current ++ r) (ones []))
    | inr visible ↦ elim (Bool-cases ((c == b'>') || (c == b'<'))) [
      | inl angle ↦ rw (other, visible, angle) (pushed next_eq refl)
      | inr letter ↦ elim (Bool-cases (c == b'!')) [
        | inl bang ↦ rw (other, visible, letter, bang) (banged next_eq refl)
        | inr plain ↦
            rw (other, visible, letter, plain)
              (ones (current ++ c ∷ []) ∙ append_assoc current (c ∷ []) (without_spaces rest))
      ]
    ]
  ]
]
  where
    pushed :
        (b : Bool)
        → next_eq ≡ b
        → joined (push_current current (if b then (c ∷ b'=' ∷ []) ∷ two else (c ∷ []) ∷ one []))
          ≡ current ++ c ∷ without_spaces rest
    pushed true e =
        joined-push_current current ((c ∷ b'=' ∷ []) ∷ two) ∙ ap (λ r. current ++ c ∷ r) (twos e)
    pushed false e =
        joined-push_current current ((c ∷ []) ∷ one []) ∙ ap (λ r. current ++ c ∷ r) (ones [])

    banged :
        (b : Bool)
        → next_eq ≡ b
        → joined (push_current current (if b then (c ∷ b'=' ∷ []) ∷ two else one (c ∷ [])))
          ≡ current ++ c ∷ without_spaces rest
    banged true e = pushed true e
    banged false e =
        joined-push_current current (one (c ∷ [])) ∙ ap (λ r. current ++ r) (ones (c ∷ []))

joined-tokens_from :
    (current cs : List ℕ) → joined (tokens_from current cs) ≡ current ++ without_spaces cs
unfolding tokens_from
joined-tokens_from current [] = joined-push_current current []
joined-tokens_from current (c ∷ []) =
    joined-token_step current c false (λ k. tokens_from k []) [] [] (λ k. joined-tokens_from k [])
      (λ h. cc)
joined-tokens_from current (c ∷ d ∷ cs) =
    joined-token_step current c (d == b'=') (λ k. tokens_from k (d ∷ cs)) (tokens_from [] cs)
      (d ∷ cs) (λ k. joined-tokens_from k (d ∷ cs))
      (λ h.
        let eq : d ≡ b'=' = ground arith in rw eq (ap (λ r. b'=' ∷ r) (joined-tokens_from [] cs)))

-- The tokens of a text, written one after the other, are the text without its spaces, tabs and line
-- feeds: the tokenizer neither loses, invents nor reorders any other character.
pub joined-tokenize : (input : List ℕ) → joined (tokenize input) ≡ without_spaces input
unfolding tokenize
joined-tokenize input = joined-tokens_from [] input
