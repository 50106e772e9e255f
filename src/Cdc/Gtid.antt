-- ===== src/Cdc/Gtid.antt =====
-- Sets of global transaction identifiers (src/core/cdc/mod.rs): half-open intervals of transaction
-- numbers for every source server. A server's UUID is its number of 128 bits.
use bittice.Prelude.{
  ℕ, ◌+◌, min, Str, codes, ◌&&◌, ◌==◌, leb, ltb, Option, none, some, List, [], ◌∷◌, ◌++◌,
  if◌then◌else◌, Result, ok, err, ◌>>=◌, ok_or, lookup, insert,
}
use bittice.Prelude.Texts.{split_first, split, parse_usize}
use bittice.Filter.{is_empty_str}

pub data GtidError : Type 0 where
  missing_colon bad_uuid bad_start bad_end inverted bad_gno invalid_interval no_intervals :
      GtidError

abbrev pub Interval : Type 0
Interval = ℕ × ℕ

abbrev pub u64_max : ℕ
u64_max = 18446744073709551615

abbrev pub saturating_succ : ℕ → ℕ
saturating_succ n = min u64_max (n + 1)

-- `sort_by_key(|x| x.0)`, which is stable.
unfoldable pub insert_by_start : Interval → List Interval → List Interval
insert_by_start iv [] = iv ∷ []
insert_by_start iv (x ∷ xs) =
    let later = x ∷ insert_by_start iv xs in if leb iv.0 x.0 then iv ∷ x ∷ xs else later

unfoldable pub sort_by_start : List Interval → List Interval
unfolding insert_by_start
sort_by_start [] = []
sort_by_start (iv ∷ ivs) = insert_by_start iv (sort_by_start ivs)

abbrev pub max_of : ℕ → ℕ → ℕ
max_of a b = if leb a b then b else a

-- The loop, from the current interval on.
unfoldable pub merge_from : Interval → List Interval → List Interval
merge_from cur [] = cur ∷ []
merge_from cur (iv ∷ ivs) =
    let wider = merge_from (cur.0, max_of cur.1 iv.1) ivs in
    let apart = cur ∷ merge_from iv ivs in if leb iv.0 cur.1 then wider else apart

abbrev pub merge_sorted : List Interval → List Interval
merge_sorted [] = []
merge_sorted (iv ∷ ivs) = merge_from iv ivs

unfoldable pub merge_half_open_intervals : List Interval → List Interval
unfolding sort_by_start merge_from
merge_half_open_intervals ivs = merge_sorted (sort_by_start ivs)

abbrev pub GtidMap : Type 0
GtidMap = List (ℕ × List Interval)

-- `entry(uuid).or_default()`.
abbrev pub intervals_of : Option (List Interval) → List Interval
intervals_of none = []
intervals_of (some ivs) = ivs

unfoldable pub append_block : ℕ × List Interval → GtidMap → GtidMap
unfolding lookup insert
append_block (uuid, ivs) map = insert uuid (intervals_of (lookup uuid map) ++ ivs) map

unfoldable pub merge_all : GtidMap → GtidMap
unfolding merge_half_open_intervals
merge_all [] = []
merge_all ((uuid, ivs) ∷ map) = (uuid, merge_half_open_intervals ivs) ∷ merge_all map

-- One more transaction of a server, whose number is not 0.
unfoldable pub increment : ℕ → ℕ → GtidMap → GtidMap
unfolding lookup insert merge_half_open_intervals
increment sid gno map =
    if gno == 0
    then map
    else insert sid
        (merge_half_open_intervals
          (intervals_of (lookup sid map) ++ ((gno, saturating_succ gno) ∷ [])))
        map

-- A text that cannot be parsed counts as the empty set.
abbrev pub or_rebuilt : Result GtidError GtidMap → GtidMap
or_rebuilt (ok map) = map
or_rebuilt (err e) = []
or_rebuilt Result.panic = []

-- The interval of one segment, `gno` or `start-end`.
abbrev pub checked_interval : Interval → Result GtidError Interval
checked_interval iv = if ltb 0 iv.0 && ltb iv.0 iv.1 then ok iv else err invalid_interval

module _ (trim : Str → Str) where
  abbrev pub ranged : Str → Option Str → Result GtidError Interval
  unfolding parse_usize
  ranged seg none = ok_or bad_gno (parse_usize seg) >>= λ n. checked_interval (n, saturating_succ n)
  ranged a (some b) = ok_or bad_start (parse_usize (trim a)) >>= λ start.
      ok_or bad_end (parse_usize (trim b)) >>= λ end.
      if leb start end then checked_interval (start, saturating_succ end) else err inverted

  -- `seg.split_once('-')`
  unfoldable pub parse_segment : Str → Result GtidError Interval
  unfolding split_first ranged
  parse_segment seg = let parts = split_first b'-' seg in ranged parts.0 parts.1

  unfoldable pub parse_segments : List Str → Result GtidError (List Interval)
  unfolding parse_segment
  parse_segments [] = ok []
  parse_segments (seg ∷ segs) =
      let rest = parse_segments segs in
      let both = parse_segment (trim seg) >>= λ iv. rest >>= λ ivs. ok (iv ∷ ivs) in
      if is_empty_str (trim seg) then rest else both

  abbrev pub some_intervals : ℕ → List Interval → Result GtidError (ℕ × List Interval)
  some_intervals uuid [] = err no_intervals
  some_intervals uuid (iv ∷ ivs) = ok (uuid, iv ∷ ivs)

  -- `Uuid::parse_str`, as a parameter.
  module _ (parse_uuid : Str → Option ℕ) where
    unfoldable pub parse_block : Str → Option Str → Result GtidError (ℕ × List Interval)
    unfolding parse_segments split
    parse_block uuid_part none = err missing_colon
    parse_block uuid_part (some rest) = ok_or bad_uuid (parse_uuid (trim uuid_part)) >>= λ uuid.
        parse_segments (split (codes ":") rest) >>= λ ivs. some_intervals uuid ivs

    unfoldable pub parse_gtid_sid_block : Str → Result GtidError (ℕ × List Interval)
    unfolding split_first parse_block
    parse_gtid_sid_block block = let parts = split_first b':' block in parse_block parts.0 parts.1

    unfoldable pub append_blocks : List Str → GtidMap → Result GtidError GtidMap
    unfolding parse_gtid_sid_block append_block
    append_blocks [] map = ok map
    append_blocks (part ∷ parts) map =
        let skipped = append_blocks parts map in
        let added = parse_gtid_sid_block (trim part) >>= λ block.
        append_blocks parts (append_block block map) in
        if is_empty_str (trim part) then skipped else added

    unfoldable pub parse_gtid_executed_interval_map : Str → Result GtidError GtidMap
    unfolding append_blocks merge_all split
    parse_gtid_executed_interval_map s =
        append_blocks (split (codes ",") s) [] >>= λ map. ok (merge_all map)

    -- The set that `merge_gtid_executed_increment` writes, or none where it returns the text as it is:
    -- for the transaction number 0, before the text is parsed.
    unfoldable pub executed_after : Str → ℕ → ℕ → Option GtidMap
    unfolding parse_gtid_executed_interval_map increment
    executed_after existing sid gno =
        if gno == 0
        then none
        else some
            (increment sid gno (or_rebuilt (parse_gtid_executed_interval_map (trim existing))))
