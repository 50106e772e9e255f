-- ===== src/Tests/ServerRuns.antt =====
-- Captured transactions, quoted names, the gate of joins and the cache of responses.
use bittice.Prelude.{
  Option, not, is_some, ℕ, Str, ap₂, any_of, ◌-◌, ◌==◌, codes, ◌≡◌, refl, true, false, ◌&&◌, ◌||◌,
  leb, if◌then◌else◌, none, some, List, [], ◌∷◌, ◌++◌, lookup, arith,
}
use bittice.Prelude.Texts.{ascii_lower}
use bittice.Cdc.Names.{resolve_cdc_table_keys, contains_key}
use bittice.Cdc.Found.{IsNamed, resolve_cdc_table_keys-found}
use bittice.Cdc.Gtid.{Interval, merge_half_open_intervals, intervals_of, increment}
use bittice.Cdc.Merged.{
  covers, IsSeparated, merge_half_open_intervals-IsSeparated, covers-increment,
}
use bittice.Cdc.Quoting.{
  mysql_ident, mysql_string_literal, push_byte, Token, identifier, string, token_of, Lexer,
  IsApartFrom, IsLexer, read_token-quoted,
}
use bittice.Runtime.Gate.{
  JoinGate, idle, acquire_join_permit, Step, Reaches, Serves, IsGuarded, Reaches-IsGuarded,
}
use bittice.Runtime.Served.{Reaches-Serves}
use bittice.Runtime.ResponseCache.{ResponseCache, put, get, is_cacheable_op, IsBounded}
use bittice.Runtime.Cached.{put-IsBounded, get-put}

-- Overlapping and touching intervals, out of order.
abbrev executed : List Interval
executed = (7, 9) ∷ (1, 4) ∷ (4, 6) ∷ (8, 12) ∷ []

merges_executed : merge_half_open_intervals executed ≡ (1, 6) ∷ (7, 12) ∷ []
unfolding merge_half_open_intervals
merges_executed = refl

merge_half_open_intervals-IsSeparated_example :
    IsSeparated (merge_half_open_intervals executed)
    × ((n : ℕ) → covers (merge_half_open_intervals executed) n ≡ covers executed n)
merge_half_open_intervals-IsSeparated_example = merge_half_open_intervals-IsSeparated executed

covers-increment_example :
    covers (intervals_of (lookup 3 (increment 3 6 ((3, executed) ∷ [])))) 6 ≡ (
      covers (intervals_of (lookup 3 ((3, executed) ∷ []))) 6
      || (not (6 == 0) && ((3 == 3) && (6 == 6))))
covers-increment_example = covers-increment 3 6 3 6 ((3, executed) ∷ []) (omega arith)

-- A lexer: NUL ends the reading of an identifier, and `\\n` and `\\0` are escapes in a string.
unfoldable read_identifier : Str → Option (Str × Str)
read_identifier [] = none
read_identifier (b ∷ []) = if b == b'`' then some ([], []) else none
read_identifier (b ∷ c ∷ s) =
    let pair = read_identifier s in
    let single = push_byte b (read_identifier (c ∷ s)) in
    if b == b'`'
    then (if c == b'`' then push_byte b'`' pair else some ([], c ∷ s))
    else if b == 0
    then none
    else single

abbrev escaped : ℕ → ℕ
escaped c = if c == b'n' then 10 else if c == b'0' then 0 else c

unfoldable read_string : Str → Option (Str × Str)
read_string [] = none
read_string (b ∷ []) = if b == b'\'' then some ([], []) else none
read_string (b ∷ c ∷ s) =
    let pair = read_string s in
    let single = push_byte b (read_string (c ∷ s)) in
    if b == b'\''
    then (if c == b'\'' then push_byte b'\'' pair else some ([], c ∷ s))
    else if b == b'\\'
    then push_byte (escaped c) pair
    else single

unfoldable read_token : Str → Option (Token × Str)
unfolding read_identifier read_string
read_token [] = none
read_token (b ∷ s) =
    if b == b'`'
    then token_of identifier (read_identifier s)
    else if b == b'\''
    then token_of string (read_string s)
    else none

abbrev lexer : Lexer
lexer = record {
  read_token = read_token;
  read_identifier = read_identifier;
  read_string = read_string;
}

identifier_end :
    (rest : Str) → IsApartFrom b'`' rest → read_identifier (b'`' ∷ rest) ≡ some ([], rest)
unfolding read_identifier
identifier_end [] apart = refl
identifier_end (b ∷ rest) apart = rw apart refl

identifier_byte :
    (b : ℕ) (s : Str)
    → (b == b'`') ≡ false
    → (b == 0) ≡ false
    → read_identifier (b ∷ s) ≡ push_byte b (read_identifier s)
unfolding read_identifier
identifier_byte b [] other permitted = rw other refl
identifier_byte b (c ∷ s) other permitted = rw (other, permitted) refl

string_end : (rest : Str) → IsApartFrom b'\'' rest → read_string (b'\'' ∷ rest) ≡ some ([], rest)
unfolding read_string
string_end [] apart = refl
string_end (b ∷ rest) apart = rw apart refl

string_byte :
    (b : ℕ) (s : Str)
    → (b == b'\'') ≡ false
    → (b == b'\\') ≡ false
    → read_string (b ∷ s) ≡ push_byte b (read_string s)
unfolding read_string
string_byte b [] other plain = rw other refl
string_byte b (c ∷ s) other plain = rw (other, plain) refl

lexer-IsLexer : IsLexer lexer
unfolding read_token read_identifier read_string
lexer-IsLexer = record {
  opens_identifier = λ s. refl;
  opens_string = λ s. refl;
  identifier_quote = λ s. refl;
  identifier_end = identifier_end;
  identifier_byte = λ b s other permitted. identifier_byte b s other (ground (arith, permitted.0));
  string_quote = λ s. refl;
  string_backslash = λ s. refl;
  string_end = string_end;
  string_byte = string_byte;
}

-- A name with a backtick, and a value with a quote and a backslash.
read_token-quoted_example :
    (read_token (mysql_ident (codes "a`b") ++ codes "=1")
      ≡ some (identifier (codes "a`b"), codes "=1"))
    × (read_token (mysql_string_literal (codes "it's \\n") ++ codes " or 1")
        ≡ some (string (codes "it's \\n"), codes " or 1"))
read_token-quoted_example =
    read_token-quoted lexer lexer-IsLexer (codes "a`b") (codes "it's \\n") (codes "=1")
      (codes " or 1") (omega arith) refl refl

-- Two joins begin at a gate with one permit: the second one sleeps.
abbrev one_asleep : JoinGate
one_asleep = record { active = 1; asleep = 1; woken = 0 }

reaches_one_asleep : Reaches 1 idle one_asleep
unfolding acquire_join_permit
reaches_one_asleep =
    Reaches.next_step (Step.begins idle)
      (Reaches.next_step (Step.begins (record { active = 1; asleep = 0; woken = 0 })) Reaches.here)

Reaches-IsGuarded_example : IsGuarded 1 one_asleep
Reaches-IsGuarded_example = Reaches-IsGuarded 1 one_asleep reaches_one_asleep

Reaches-Serves_example : Serves 1 one_asleep idle
Reaches-Serves_example = Reaches-Serves 1 one_asleep (omega arith) reaches_one_asleep

-- A cache of one entry, of responses that are numbers.
abbrev small_cache : ResponseCache ℕ
small_cache = record { ttl = 30; ops = codes "list" ∷ []; max_entries = 1; store = [] }

put-IsBounded_example :
    IsBounded ℕ (put ℕ 5 (codes "list") ((codes "id", codes "1") ∷ []) 42 small_cache)
put-IsBounded_example =
    put-IsBounded ℕ 5 (codes "list") ((codes "id", codes "1") ∷ []) 42 small_cache (omega arith)

get-put_example :
    (get ℕ 20
      (codes "list")
      ((codes "id", codes "1") ∷ [])
      (put ℕ 5 (codes "list") ((codes "id", codes "1") ∷ []) 42 small_cache)).0
    ≡ (if is_cacheable_op ℕ (codes "list") small_cache && leb (20 - 5) small_cache.ttl
        then some 42
        else none)
get-put_example = get-put ℕ 5 20 (codes "list") ((codes "id", codes "1") ∷ []) 42 small_cache

-- ASCII letters in lower case.
abbrev lower_case : Str → Str
lower_case [] = []
lower_case (b ∷ s) = ascii_lower b ∷ lower_case s

ascii_lower_twice : (b : ℕ) → ascii_lower (ascii_lower b) ≡ ascii_lower b
ascii_lower_twice b = ground arith

lower_case_twice : (s : Str) → lower_case (lower_case s) ≡ lower_case s
lower_case_twice [] = refl
lower_case_twice (b ∷ s) = ap₂ (λ x y. x ∷ y) (ascii_lower_twice b) (lower_case_twice s)

shop_without_dot : any_of (λ b. b == b'.') (lower_case (codes "Shop")) ≡ false
unfolding any_of
shop_without_dot = refl

abbrev loaded : List Str
loaded = codes "shop.Orders" ∷ codes "shop.users" ∷ []

finds_orders :
    resolve_cdc_table_keys lower_case true (codes "Shop") (codes "orders") loaded
    ≡ some (codes "shop.Orders")
unfolding resolve_cdc_table_keys
finds_orders = refl

resolve_cdc_table_keys-found_example :
    ((k : Str)
      → resolve_cdc_table_keys lower_case true (codes "Shop") (codes "orders") loaded ≡ some k
      → (contains_key loaded k ≡ true) × IsNamed lower_case true (codes "Shop") (codes "orders") k)
    × ((k : Str)
        → contains_key loaded k ≡ true
        → IsNamed lower_case true (codes "Shop") (codes "orders") k
        → is_some (resolve_cdc_table_keys lower_case true (codes "Shop") (codes "orders") loaded)
          ≡ true)
resolve_cdc_table_keys-found_example =
    resolve_cdc_table_keys-found lower_case true (codes "Shop") (codes "orders") loaded
      lower_case_twice shop_without_dot
