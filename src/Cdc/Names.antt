-- ===== src/Cdc/Names.antt =====
-- The names of tables in the events of the binary log (src/core/cdc/mod.rs), whose case may differ from
-- that of the keys that the tables were loaded under, and the positions in the log.
use Prim.Native.Nat.{Ordering}
use bittice.Prelude.{
  is_nil, ℕ, Str, codes, Bool, true, false, not, ◌&&◌, ◌||◌, leb, Option, none, some, List, [], ◌∷◌,
  ◌++◌, if◌then◌else◌, bytes_eq, any_of, retain,
}
use bittice.Prelude.Texts.{split_first, eq_ignore_ascii_case}
use bittice.Filter.{is_empty_str, str_cmp}

unfoldable pub contains_key : List Str → Str → Bool
unfolding any_of
contains_key keys name = any_of (λ k. bytes_eq k name) keys

-- The first key that passes the test, in the order in which the map gives its keys.
unfoldable pub first_key : (Str → Bool) → List Str → Option Str
first_key test [] = none
first_key test (k ∷ keys) = let rest = first_key test keys in if test k then some k else rest

-- The name as it is, the name in lower case, or a key that differs in case only.
unfoldable pub pick_key : Str → Str → (Str → Bool) → List Str → Option Str
unfolding contains_key first_key
pick_key exact lower test keys =
    if contains_key keys exact
    then some exact
    else if contains_key keys lower
    then some lower
    else first_key test keys

module _ (to_lowercase : Str → Str) where
  unfoldable pub qualified_table_key : Bool → Str → Str → Str
  qualified_table_key sync_all schema table =
      if sync_all then to_lowercase schema ++ (codes "." ++ table) else table

  abbrev pub same_parts : Str → Str → Str → Option Str → Bool
  same_parts schema_l table_l s none = false
  same_parts schema_l table_l s (some t) =
      bytes_eq (to_lowercase s) schema_l && bytes_eq (to_lowercase t) table_l

  -- A key `schema.table` that is the given one but for case, and a key `table` that is.
  unfoldable pub same_qualified : Str → Str → Str → Bool
  unfolding split_first
  same_qualified schema_l table_l key =
      let parts = split_first b'.' key in same_parts schema_l table_l parts.0 parts.1

  unfoldable pub resolve_cdc_table_keys : Bool → Str → Str → List Str → Option Str
  unfolding pick_key same_qualified
  resolve_cdc_table_keys sync_all schema table keys =
      if sync_all
      then pick_key (to_lowercase schema ++ (codes "." ++ table))
          (to_lowercase schema ++ (codes "." ++ to_lowercase table))
          (same_qualified (to_lowercase schema) (to_lowercase table)) keys
      else pick_key table (to_lowercase table)
          (λ key. bytes_eq (to_lowercase key) (to_lowercase table)) keys

-- `is_out_of_scope_binlog_schema`, with the settings of the replication.
abbrev pub is_allowed : Str → Option (List Str) → Bool
unfolding contains_key
is_allowed schema none = true
is_allowed schema (some allowed) = contains_key allowed schema

unfoldable pub is_out_of_scope_binlog_schema :
    (Str → Str) → Bool → Str → Option (List Str) → Str → Bool
is_out_of_scope_binlog_schema to_lowercase sync_all database allowlist schema =
    if not sync_all
    then not (eq_ignore_ascii_case schema database)
    else not (is_allowed (to_lowercase schema) allowlist)

unfoldable pub intersect_table_allowlists : List Str → List Str → List Str
unfolding retain contains_key
intersect_table_allowlists profile ops =
    let inter = retain (λ k. contains_key ops k) profile in if is_nil inter then ops else inter

abbrev at_or_past : Ordering → ℕ → ℕ → Bool
at_or_past Ordering.lt pos tip_pos = false
at_or_past Ordering.gt pos tip_pos = true
at_or_past Ordering.eq pos tip_pos = leb tip_pos pos

unfoldable pub cdc_replication_caught_up_to_tip : Str → ℕ → Str → ℕ → Bool
cdc_replication_caught_up_to_tip file pos tip_file tip_pos =
    if is_empty_str file || is_empty_str tip_file
    then false
    else at_or_past (str_cmp file tip_file) pos tip_pos
