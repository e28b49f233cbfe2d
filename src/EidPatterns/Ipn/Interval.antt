-- ===== src/EidPatterns/Ipn/Interval.antt =====
-- `IpnInterval` of eid-patterns/src/ipn_pattern.rs.
use hardy.Prelude.{ℕ, ◌+◌, ◌-◌, Bool, false, ◌&&◌, Option, none, some, leb, ◌==◌}

-- `RangeInclusive<u32>`
pub record Span : Type 0 where
  pub start : ℕ
  pub end : ℕ

-- `RangeInclusive::contains`
abbrev pub contains : Span → ℕ → Bool
contains r v = leb r.start v && leb v r.end

pub data IpnInterval : Type 0 where
  number : ℕ → IpnInterval
  range : Span → IpnInterval

unfoldable pub matches : IpnInterval → ℕ → Bool
matches (number n) v = n == v
matches (range r) v = contains r v

unfoldable pub is_subset : IpnInterval → IpnInterval → Bool
is_subset (number l) (number r) = l == r
is_subset (number l) (range r) = contains r l
is_subset (range _) (number _) = false
is_subset (range l) (range r) = leb r.start l.start && leb l.end r.end

unfoldable pub try_to_u32 : IpnInterval → Option ℕ
try_to_u32 (number n) = some n
try_to_u32 (range _) = none

-- The sum fits in a `u64`, since the ends are `u32`.
unfoldable pub count : IpnInterval → ℕ
count (number _) = 1
count (range r) = r.end - r.start + 1
