-- ===== src/Tests/SegmentRuns.antt =====
-- Segments, their searches and filters on concrete rows.
use Prim.Native.Nat.{Ordering, compare}
use mathlib.Core.Option.{some-injective}
use bittice.Prelude.{
  sym, Str, codes, bytes_eq, bytes_eq→eq, ap, ◌∙◌, find, HasDistinctKeys, ℕ, ◌≡◌, refl, Bool, true,
  false, ◌||◌, Option, none, some, List, [], ◌∷◌, arith, inl, inr, set, Bool-cases, All,
}
use bittice.Prelude.Texts.{parse_usize}
use bittice.Dates.{is_date_format}
use bittice.Filter.{
  ComparisonOp, Filter, StdText, and_op, or_op, compare_values, compare_numeric, compare_parsed,
  compare_dates, str_cmp, compare_filter_value,
}
use bittice.Segment.{
  persist_bitmaps, Row, SegmentWriter, new, new_writer, append_record, search, valid_filters,
  any_skips,
}
use bittice.Segment.Cached.{BitmapCache, in_file, search_thread_safe}
use bittice.Segment.Files.{IsCurrent, search_thread_safe-persist_bitmaps}
use bittice.Segment.Rows.{IsIndexed, HasFields, new-IsIndexed, append_record-IsIndexed}
use bittice.Segment.Search.{is_result, contains-search}
use bittice.Segment.Skip.{IsByteOrdered, contains-search_and, IsByteOrdered-IsTextual}
use bittice.Segment.Cache.{MmapCache, get_mmap_pair, get_mmap_pair-IsCoherent, IsCoherent}
use bittice.Tests.Crates.{rows, rows-IsRoaring}

-- ASCII texts without spaces and capitals, none of them a number.
abbrev pub plain : StdText
plain = record {
  Float = ℕ;
  trim = λ s. s;
  to_lowercase = λ s. s;
  parse_float = λ s. none;
  partial_cmp = λ a b. some Ordering.eq;
}

-- The same, where a text of digits is a number.
abbrev pub numbered : StdText
numbered = record {
  Float = ℕ;
  trim = λ s. s;
  to_lowercase = λ s. s;
  parse_float = parse_usize;
  partial_cmp = λ a b. some (compare a b);
}

-- Numbers are compared as numbers, but every text is compared with "lima" by its bytes.
compares_numbers : compare_values numbered (codes "10") (codes "9") none ≡ some Ordering.gt
unfolding compare_values compare_numeric parse_usize
compares_numbers = refl

no_number : (l : Option ℕ) → compare_parsed numbered l none ≡ none
no_number none = refl
no_number (some n) = refl

-- a text that is neither a number nor a date
pub text_order :
    (actual operand : Str)
    → parse_usize operand ≡ none
    → is_date_format operand ≡ false
    → compare_values numbered actual operand none ≡ some (str_cmp actual operand)
unfolding compare_values compare_numeric compare_dates
text_order actual operand text no_date =
    rw (text, no_number (parse_usize actual), no_date)
      (elim (Bool-cases (is_date_format actual)) [
        | inl date ↦ rw date refl
        | inr other ↦ rw other refl
      ])

lima_order :
    (actual : Str)
    → compare_values numbered actual (codes "lima") none ≡ some (str_cmp actual (codes "lima"))
lima_order actual =
    text_order actual (codes "lima") (unfold parse_usize in refl) (unfold is_date_format in refl)

abbrev pub fields : Str → Bool
fields col = bytes_eq (codes "name") col || bytes_eq (codes "city") col

abbrev person : Str → Str → Row
person name city = (codes "name", name) ∷ (codes "city", city) ∷ []

person-HasFields : (name city : Str) → HasFields fields (person name city)
unfolding find
person-HasFields name city = record {
  distinct = HasDistinctKeys.one_more refl (HasDistinctKeys.one_more refl HasDistinctKeys.none_yet);
  present = λ col h. elim (Bool-cases (bytes_eq (codes "name") col)) [
    | inl is_name ↦ (name, rw is_name refl)
    | inr other ↦ (city, ground (arith, h, other))
  ];
  absent = λ col h. ground (arith, h);
}

abbrev no_one : SegmentWriter rows
no_one = new_writer rows (new rows 7)

abbrev ana : SegmentWriter rows
ana = append_record rows (person (codes "ana") (codes "lima")) no_one

abbrev pub two : SegmentWriter rows
two = append_record rows (person (codes "bo") (codes "quito")) ana

ana-IsIndexed : IsIndexed rows fields ana
unfolding new_writer new
ana-IsIndexed =
    append_record-IsIndexed rows-IsRoaring fields (person (codes "ana") (codes "lima")) no_one
      (new-IsIndexed rows-IsRoaring fields 7) (person-HasFields (codes "ana") (codes "lima"))
      (omega arith)

ana_count : ana.segment.record_count ≡ 1
unfolding append_record new_writer new
ana_count = refl

pub two-IsIndexed : IsIndexed rows fields two
two-IsIndexed =
    append_record-IsIndexed rows-IsRoaring fields (person (codes "bo") (codes "quito")) ana
      ana-IsIndexed (person-HasFields (codes "bo") (codes "quito")) (omega (arith, ana_count))

append_record-IsIndexed_example : IsIndexed rows fields two
append_record-IsIndexed_example =
    append_record-IsIndexed rows-IsRoaring fields (person (codes "bo") (codes "quito")) ana
      ana-IsIndexed (person-HasFields (codes "bo") (codes "quito")) (omega (arith, ana_count))

abbrev city_is : ComparisonOp → Str → Filter
city_is op value = record {
  field = codes "city";
  op = op;
  value = value;
  value_to = none;
  field_type = none;
  value_options = [];
}

pub two_count : two.segment.record_count ≡ 2
unfolding append_record new_writer new
two_count = refl

-- The search for Lima finds row 0 and not row 1.
abbrev lima : List Filter
lima = city_is ComparisonOp.eq (codes "lima") ∷ []

lima_valid : valid_filters lima ≡ lima
unfolding valid_filters
lima_valid = refl

lima-IsByteOrdered : All (IsByteOrdered numbered) (valid_filters lima)
unfolding valid_filters
lima-IsByteOrdered = ((lima_order, tt), tt)

finds_lima : rows.contains (search plain rows lima and_op two) 0 ≡ true
unfolding search append_record new_writer new valid_filters find set compare_filter_value
    is_date_format
finds_lima = refl

lima_skips : any_skips numbered two.segment.min_max (valid_filters lima) ≡ false
unfolding append_record new_writer new valid_filters any_skips find set
lima_skips = refl

contains-search_example :
    rows.contains (search numbered rows lima or_op two) 0
    ≡ is_result numbered or_op two (valid_filters lima) 0
contains-search_example =
    contains-search numbered rows-IsRoaring two fields lima or_op 0 two-IsIndexed
      (omega (arith, two_count))
      (IsByteOrdered-IsTextual numbered (valid_filters lima) lima-IsByteOrdered) lima_skips

contains-search_and_example :
    rows.contains (search numbered rows lima and_op two) 1
    ≡ is_result numbered and_op two (valid_filters lima) 1
contains-search_and_example =
    contains-search_and numbered rows-IsRoaring two fields lima 1 two-IsIndexed
      (omega (arith, two_count)) lima-IsByteOrdered

-- A cache with the map of one column, numbered by its first byte.
abbrev first_byte : Str → Option ℕ
first_byte [] = none
first_byte (b ∷ s) = some b

abbrev one_mapped : MmapCache ℕ
one_mapped = record { cache = (codes "name", 110) ∷ []; order = codes "name" ∷ [] }

one_mapped-IsCoherent : IsCoherent first_byte one_mapped
unfolding find
one_mapped-IsCoherent = record {
  current = λ field m found. ground (arith, found, bytes_eq→eq (codes "name") field, ap first_byte);
  bounded = omega arith;
  ordered = λ field m found. ground (arith, found);
}

get_mmap_pair-IsCoherent_example :
    ((get_mmap_pair first_byte (codes "city") one_mapped).0 ≡ first_byte (codes "city"))
    × IsCoherent first_byte (get_mmap_pair first_byte (codes "city") one_mapped).1
get_mmap_pair-IsCoherent_example =
    get_mmap_pair-IsCoherent first_byte (codes "city") one_mapped one_mapped-IsCoherent

two-HasDistinctKeys : HasDistinctKeys two.bitmaps
unfolding append_record new_writer new find set
two-HasDistinctKeys =
    HasDistinctKeys.one_more refl (HasDistinctKeys.one_more refl HasDistinctKeys.none_yet)

no_files : two.segment.bitmap_files ≡ []
unfolding append_record new_writer new
no_files = refl

-- A cache that has read the file of one column.
abbrev city_cached : BitmapCache rows
city_cached = (codes "city", in_file rows (codes "city") (persist_bitmaps rows two).segment) ∷ []

city_cached-IsCurrent : IsCurrent rows (persist_bitmaps rows two).segment city_cached
unfolding find
city_cached-IsCurrent field m found = elim (Bool-cases (bytes_eq (codes "city") field)) [
  | inl same ↦
      sym (some-injective _ m (rw same at found))
      ∙ ap (λ c. in_file rows c (persist_bitmaps rows two).segment)
          (bytes_eq→eq (codes "city") field same)
  | inr other ↦ cc (rw other at found)
]

search_thread_safe-persist_bitmaps_example :
    ((search_thread_safe rows plain lima and_op (persist_bitmaps rows two).segment city_cached).0
      ≡ search plain rows lima and_op two)
    × IsCurrent rows
        (persist_bitmaps rows two).segment
        (search_thread_safe rows plain lima and_op (persist_bitmaps rows two).segment city_cached).1
search_thread_safe-persist_bitmaps_example =
    search_thread_safe-persist_bitmaps rows plain lima and_op two city_cached two-HasDistinctKeys
      (λ col missing. ap (find col) no_files ∙ (unfold find in refl)) city_cached-IsCurrent
