-- ===== src/Cdc/Quoting.antt =====
-- Names and values in the text of SQL statements (src/core/cdc/mod.rs), and that a server which reads
-- statements as MySQL documents it reads back what was quoted. The server's lexer is a parameter.
use bittice.Prelude.{
  All, ◌<◌, ℕ, Str, codes, false, ◌==◌, Option, none, some, [], ◌∷◌, ◌++◌, if◌then◌else◌,
  append_assoc, ◌≡◌, ap, ◌∙◌, inl, inr, Bool-cases, ==_iff,
}

-- `s.replace(c, "cc")` for one byte `c`.
unfoldable pub doubled : ℕ → Str → Str
doubled c [] = []
doubled c (b ∷ s) = let rest = doubled c s in if b == c then c ∷ c ∷ rest else b ∷ rest

unfoldable pub mysql_ident : Str → Str
unfolding doubled
mysql_ident ident = b'`' ∷ (doubled b'`' ident ++ codes "`")

unfoldable pub mysql_string_literal : Str → Str
unfolding doubled
mysql_string_literal s = b'\'' ∷ (doubled b'\'' (doubled b'\\' s) ++ codes "'")

unfoldable pub qualified_schema_table : Str → Str → Str
unfolding mysql_ident
qualified_schema_table schema table = mysql_ident schema ++ (codes "." ++ mysql_ident table)

abbrev pub push_byte : ℕ → Option (Str × Str) → Option (Str × Str)
push_byte b none = none
push_byte b (some (s, rest)) = some (b ∷ s, rest)

pub data Token : Type 0 where
  identifier string : Str → Token

abbrev pub token_of : (Str → Token) → Option (Str × Str) → Option (Token × Str)
token_of kind none = none
token_of kind (some (s, rest)) = some (kind s, rest)

-- The server's lexer: the next token of a statement with what follows it, and what it reads from behind
-- an opening backtick and an opening quote; none where the text cannot be read.
pub record Lexer : Type 0 where
  pub read_token : Str → Option (Token × Str)
  pub read_identifier : Str → Option (Str × Str)
  pub read_string : Str → Option (Str × Str)

-- The text behind a quoted one does not begin with its quote.
abbrev pub IsApartFrom : ℕ → Str → Type 0
IsApartFrom q [] = Unit
IsApartFrom q (b ∷ s) = (b == q) ≡ false

-- A byte that may stand in a quoted identifier: identifiers have no NUL, and no character above U+FFFF,
-- whose first byte in UTF-8 is 240 or more.
abbrev pub IsIdentifierByte : ℕ → Type 0
IsIdentifierByte b = (0 < b) × (b < 240)

-- What MySQL documents of statements in UTF-8 under the default SQL mode, without NO_BACKSLASH_ESCAPES.
-- In an identifier in backticks a doubled backtick stands for one, a single one ends it, and every other
-- byte that is permitted stands for itself. In a string in single quotes a doubled quote stands for one,
-- a single one ends it, a doubled backslash stands for one, and every byte that is neither a quote nor
-- a backslash stands for itself. Other escapes are left open.
pub record IsLexer (l : Lexer) : Type 0 where
  pub opens_identifier :
      (s : Str) → l.read_token (b'`' ∷ s) ≡ token_of identifier (l.read_identifier s)
  pub opens_string : (s : Str) → l.read_token (b'\'' ∷ s) ≡ token_of string (l.read_string s)
  pub identifier_quote :
      (s : Str) → l.read_identifier (b'`' ∷ b'`' ∷ s) ≡ push_byte b'`' (l.read_identifier s)
  pub identifier_end :
      (rest : Str) → IsApartFrom b'`' rest → l.read_identifier (b'`' ∷ rest) ≡ some ([], rest)
  pub identifier_byte :
      (b : ℕ) (s : Str)
      → (b == b'`') ≡ false
      → IsIdentifierByte b
      → l.read_identifier (b ∷ s) ≡ push_byte b (l.read_identifier s)
  pub string_quote :
      (s : Str) → l.read_string (b'\'' ∷ b'\'' ∷ s) ≡ push_byte b'\'' (l.read_string s)
  pub string_backslash :
      (s : Str) → l.read_string (b'\\' ∷ b'\\' ∷ s) ≡ push_byte b'\\' (l.read_string s)
  pub string_end :
      (rest : Str) → IsApartFrom b'\'' rest → l.read_string (b'\'' ∷ rest) ≡ some ([], rest)
  pub string_byte :
      (b : ℕ) (s : Str)
      → (b == b'\'') ≡ false
      → (b == b'\\') ≡ false
      → l.read_string (b ∷ s) ≡ push_byte b (l.read_string s)

module _ (l : Lexer) (laws : IsLexer l) where
  read_identifier-doubled :
      (s rest : Str)
      → All IsIdentifierByte s
      → IsApartFrom b'`' rest
      → l.read_identifier (doubled b'`' s ++ (b'`' ∷ rest)) ≡ some (s, rest)
  unfolding doubled
  read_identifier-doubled [] rest permitted apart = laws.identifier_end rest apart
  read_identifier-doubled (b ∷ s) rest (here, permitted) apart = elim (Bool-cases (b == b'`')) [
    | inl same ↦
        rw (same, (==_iff b b'`').0 same)
          (laws.identifier_quote (doubled b'`' s ++ (b'`' ∷ rest))
            ∙ ap (push_byte b'`') (read_identifier-doubled s rest permitted apart))
    | inr other ↦ rw other (
        laws.identifier_byte b (doubled b'`' s ++ (b'`' ∷ rest)) other here
        ∙ ap (push_byte b) (read_identifier-doubled s rest permitted apart))
  ]

  read_string-doubled :
      (s rest : Str)
      → IsApartFrom b'\'' rest
      → l.read_string (doubled b'\'' (doubled b'\\' s) ++ (b'\'' ∷ rest)) ≡ some (s, rest)
  unfolding doubled
  read_string-doubled [] rest apart = laws.string_end rest apart
  read_string-doubled (b ∷ s) rest apart = elim (Bool-cases (b == b'\\')) [
    | inl slash ↦
        rw (slash, (==_iff b b'\\').0 slash)
          (laws.string_backslash (doubled b'\'' (doubled b'\\' s) ++ (b'\'' ∷ rest))
            ∙ ap (push_byte b'\\') (read_string-doubled s rest apart))
    | inr plain ↦ rw plain (elim (Bool-cases (b == b'\'')) [
      | inl same ↦
          rw (same, (==_iff b b'\'').0 same)
            (laws.string_quote (doubled b'\'' (doubled b'\\' s) ++ (b'\'' ∷ rest))
              ∙ ap (push_byte b'\'') (read_string-doubled s rest apart))
      | inr other ↦ rw other (
          laws.string_byte b (doubled b'\'' (doubled b'\\' s) ++ (b'\'' ∷ rest)) other plain
          ∙ ap (push_byte b) (read_string-doubled s rest apart))
    ])
  ]

  -- For a lexer with the documented behaviour of the server's, every name of bytes that identifiers may
  -- have and every value, whatever bytes it has: the next token of a statement that begins with the
  -- quoted name is the identifier of this name, and of one that begins with the quoted value the
  -- string of this value, each with the rest of the statement, where the rest does not begin with the
  -- closing quote.
  pub read_token-quoted :
      (ident value after_ident after_value : Str)
      → All IsIdentifierByte ident
      → IsApartFrom b'`' after_ident
      → IsApartFrom b'\'' after_value
      → (l.read_token (mysql_ident ident ++ after_ident) ≡ some (identifier ident, after_ident))
        × (l.read_token (mysql_string_literal value ++ after_value)
            ≡ some (string value, after_value))
  unfolding mysql_ident mysql_string_literal
  read_token-quoted ident value after_ident after_value permitted apart_ident apart_value = (
    laws.opens_identifier _
        ∙ ap (λ s. token_of identifier (l.read_identifier s))
            (append_assoc (doubled b'`' ident) (codes "`") after_ident)
        ∙ ap (token_of identifier)
            (read_identifier-doubled ident after_ident permitted apart_ident),
    laws.opens_string _
        ∙ ap (λ s. token_of string (l.read_string s))
            (append_assoc (doubled b'\'' (doubled b'\\' value)) (codes "'") after_value)
        ∙ ap (token_of string) (read_string-doubled value after_value apart_value),
  )
