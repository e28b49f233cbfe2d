-- ===== src/EidPatterns/Ipn/Merge.antt =====
-- The intervals of `parse_ipn_range` and `parse_ipn_interval` in eid-patterns/src/ipn_pattern.rs: what
-- the parser makes of the numbers that it read.
pub mod Union
pub mod Unique
use hardy.Prelude.{
  ℕ, ◌+◌, ◌≤◌, min, max, List, [], ◌∷◌, Bool, true, false, Option, none, some, leb, ◌==◌, map,
  if◌then◌else◌,
}
use hardy.Eid.{u32_max}
use hardy.EidPatterns.Ipn.Interval.{Span, IpnInterval, number, range}
use hardy.EidPatterns.Ipn.Component.{IpnPattern}

-- The mapping at the end of `parse_ipn_interval`: the interval that two numbers stand for.
unfoldable pub interval_of : ℕ → Option ℕ → Span
interval_of start end =
    let e : ℕ = elim end [ some n ↦ n | none ↦ start ] in
    record { start = min start e; end = max start e }

-- `sort_by_key(|r| *r.start())`, which is stable
unfoldable pub insert : Span → List Span → List Span
insert x [] = x ∷ []
insert x (y ∷ ys) = if leb x.start y.start then x ∷ y ∷ ys else y ∷ insert x ys

unfoldable pub sort_by_start : List Span → List Span
unfolding insert
sort_by_start [] = []
sort_by_start (x ∷ xs) = insert x (sort_by_start xs)

-- `saturating_add(1)` on a `u32`
abbrev pub saturating_suc : ℕ → ℕ
saturating_suc n = min (n + 1) u32_max

-- The loop over the sorted intervals. It yields what the loop and the step behind it push.
unfoldable pub merge : Span → List Span → List Span
merge current [] = current ∷ []
merge current (next ∷ rest) = elim (leb next.start (saturating_suc current.end)) [
  | true ↦ merge (record { start = current.start; end = max current.end next.end }) rest
  | false ↦ current ∷ merge next rest
]

-- What is pushed for a finished interval
unfoldable pub close : Span → IpnInterval
close r = if r.end == r.start then number r.start else range r

-- `if let [IpnInterval::Number(n)] = merged[..]`
unfoldable pub collapse : List IpnInterval → IpnPattern
collapse (number n ∷ []) = IpnPattern.single n
collapse l = IpnPattern.range l

unfoldable pub merge_sorted : List Span → List Span
unfolding merge
merge_sorted [] = []
merge_sorted (x ∷ xs) = merge x xs

-- The mapping of `parse_ipn_range`
unfoldable pub range_of : List Span → IpnPattern
unfolding sort_by_start merge_sorted close collapse
range_of intervals = collapse (map close (merge_sorted (sort_by_start intervals)))

-- A value of `RangeInclusive<u32>` that is not empty, as `parse_ipn_interval` makes them
pub record IsSpan (r : Span) : Type 0 where
  pub ordered : r.start ≤ r.end
  pub bounded : r.end ≤ u32_max

abbrev pub AllSpans : List Span → Type 0
AllSpans [] = Unit
AllSpans (x ∷ xs) = IsSpan x × AllSpans xs
