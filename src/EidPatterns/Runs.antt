-- ===== src/EidPatterns/Runs.antt =====
-- Runs of eid-patterns/src on concrete patterns.
use hardy.Prelude.{◌≤◌, ℕ, ◌≡◌, refl, List, [], ◌∷◌, true, false, none, some, arith, any}
use hardy.Eid.{Str, IpnNodeId, Eid, eq_str}
use hardy.EidPatterns.Dtn.{Globs}
use hardy.EidPatterns.Ipn.Interval.{Span, range}
use hardy.EidPatterns.Ipn.Component
use hardy.EidPatterns.Ipn.Component.{IpnPattern}
use hardy.EidPatterns.Ipn.Item as Ipn
use hardy.EidPatterns.Ipn.Item.{IpnPatternItem, any_item}
use hardy.EidPatterns.Ipn.Merge.{
  interval_of, range_of, insert, sort_by_start, merge, close, collapse, merge_sorted, AllSpans,
}
use hardy.EidPatterns.Ipn.Merge.Union.{matches-range_of, covers}
use hardy.EidPatterns.Ipn.Merge.Unique.{range_of_unique, SameNumbers}
use hardy.EidPatterns.Pattern.Item
use hardy.EidPatterns.Pattern.Item.{EidPatternItem}
use hardy.EidPatterns.Pattern.Union
use hardy.EidPatterns.Pattern.Union.{EidPattern}
use hardy.EidPatterns.Pattern.Subset.{names_null, is_glob, has_glob, is_subset_sound}
use hardy.EidPatterns.Pattern.Score.{is_exact_item, ipn_score_bounds}
use hardy.EidPatterns.Pattern.Exact.{
  is_canonical, try_eid-of_eid, matches-of_eid, matches-into_atoms,
}

-- A glob that is a plain text
abbrev texts : Globs
texts = record {
  Pattern = Str;
  as_str = λ p. p;
  matches_with = λ p s o. unfold eq_str in eq_str p s;
}

abbrev span : ℕ → ℕ → Span
span a b = record { start = a; end = b }

abbrev spans : List Span
spans = span 7 9 ∷ span 1 3 ∷ span 4 5 ∷ []

abbrev other_spans : List Span
other_spans = span 1 5 ∷ span 8 9 ∷ span 7 7 ∷ []

spans-IsSpan : AllSpans spans
spans-IsSpan = (
  record { ordered = omega arith; bounded = omega arith },
  (
    record { ordered = omega arith; bounded = omega arith },
    (record { ordered = omega arith; bounded = omega arith }, tt),
  ),
)

other_spans-IsSpan : AllSpans other_spans
other_spans-IsSpan = (
  record { ordered = omega arith; bounded = omega arith },
  (
    record { ordered = omega arith; bounded = omega arith },
    (record { ordered = omega arith; bounded = omega arith }, tt),
  ),
)

-- Adjacent intervals merge.
range_of-spans : range_of spans ≡ IpnPattern.range (range (span 1 5) ∷ range (span 7 9) ∷ [])
unfolding range_of insert sort_by_start merge merge_sorted close collapse
range_of-spans = refl

interval_reversed : interval_of 9 (some 7) ≡ span 7 9
unfolding interval_of
interval_reversed = refl

matches-range_of_example : Component.matches (range_of spans) 8 ≡ covers spans 8
matches-range_of_example = matches-range_of spans 8 spans-IsSpan

same_numbers : SameNumbers spans other_spans
same_numbers v le = ground arith

range_of_unique_example : range_of spans ≡ range_of other_spans
range_of_unique_example =
    range_of_unique spans other_spans spans-IsSpan other_spans-IsSpan same_numbers

abbrev node : IpnNodeId
node = record { allocator_id = 0; node_number = 2 }

abbrev service_pattern : EidPattern texts
service_pattern = EidPattern.set (EidPatternItem.ipn_pattern_item (Ipn.new 0 2 (some 5)) ∷ [])

abbrev node_pattern : EidPattern texts
node_pattern =
    EidPattern.set (
      EidPatternItem.ipn_pattern_item (Ipn.new 0 2 none) ∷ EidPatternItem.any_numeric_scheme 1 ∷ [])

is_subset_sound_example : Union.matches node_pattern (Eid.ipn node 5) ≡ true
unfolding Union.matches Union.is_subset Item.is_subset Item.matches Ipn.is_subset Ipn.matches
    Ipn.matches_at Ipn.new Component.is_subset Component.matches has_glob is_glob names_null
is_subset_sound_example =
    is_subset_sound service_pattern node_pattern (Eid.ipn node 5) refl refl refl refl

try_eid-of_eid_example :
    Union.try_eid {gl = texts}
      (Union.of_eid (Eid.dtn (record { node_name = b'a' ∷ [] }) (b'x' ∷ [])))
    ≡ some (Eid.dtn (record { node_name = b'a' ∷ [] }) (b'x' ∷ []))
unfolding is_canonical
try_eid-of_eid_example =
    try_eid-of_eid texts (Eid.dtn (record { node_name = b'a' ∷ [] }) (b'x' ∷ [])) refl

matches-of_eid_example :
    Union.matches {gl = texts} (Union.of_eid (Eid.ipn node 5)) (Eid.ipn node 5) ≡ true
matches-of_eid_example = matches-of_eid texts (Eid.ipn node 5)

matches-into_atoms_example :
    any (Union.into_atoms node_pattern) (λ q. Union.matches q (Eid.ipn node 7))
    ≡ Union.matches node_pattern (Eid.ipn node 7)
matches-into_atoms_example = matches-into_atoms node_pattern (Eid.ipn node 7)

-- An item of the `ipn` scheme counts as a part of `2:**`, but matches the null endpoint, which `2:**`
-- does not match.
null_outside :
    (Item.is_subset {gl = texts}
        (EidPatternItem.ipn_pattern_item any_item)
        (EidPatternItem.any_numeric_scheme 2)
      ≡ true)
    × (Item.matches {gl = texts} (EidPatternItem.ipn_pattern_item any_item) Eid.null ≡ true)
    × (Item.matches {gl = texts} (EidPatternItem.any_numeric_scheme 2) Eid.null ≡ false)
unfolding Item.is_subset Item.matches Item.eid_numeric_scheme Ipn.matches Ipn.matches_at
    Component.matches
null_outside = (refl, refl, refl)

-- An exact item, and one with a wildcard
abbrev exact_and_broad : List (EidPatternItem texts)
exact_and_broad =
    EidPatternItem.ipn_pattern_item (Ipn.new 0 2 (some 5))
    ∷ EidPatternItem.ipn_pattern_item (Ipn.new 0 2 none)
    ∷ []

ipn_score_bounds_example :
    (is_exact_item (Ipn.new 0 2 (some 5)) ≡ true
      → Ipn.specificity_score (Ipn.new 0 2 (some 5)) ≡ some 352)
    × ((n : ℕ)
        → is_exact_item (Ipn.new 0 2 (some 5)) ≡ false
        → Ipn.specificity_score (Ipn.new 0 2 (some 5)) ≡ some n
        → n ≤ 96)
ipn_score_bounds_example = ipn_score_bounds (Ipn.new 0 2 (some 5))

union_score_run : Union.specificity_score (EidPattern.set exact_and_broad) ≡ some 64
unfolding Union.specificity_score Item.specificity_score Ipn.specificity_score Ipn.new
    Component.is_exact Component.is_wildcard Component.literal_bits
union_score_run = refl
