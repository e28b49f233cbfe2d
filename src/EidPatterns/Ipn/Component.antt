-- ===== src/EidPatterns/Ipn/Component.antt =====
-- `IpnPattern` of eid-patterns/src/ipn_pattern.rs: the pattern of one component.
use hardy.Prelude.{
  ℕ, zero, suc, ◌+◌, ◌-◌, ◌/◌, ◌%◌, ◌^◌, List, [], ◌∷◌, Bool, true, false, Option, none, some, leb,
  ◌==◌, any, all, if◌then◌else◌,
}
use hardy.EidPatterns.Ipn.Interval
use hardy.EidPatterns.Ipn.Interval.{IpnInterval, number}

pub data IpnPattern : Type 0 where
  wildcard : IpnPattern
  single : ℕ → IpnPattern
  range : List IpnInterval → IpnPattern

-- The number of binary digits, for a number below 2^fuel.
abbrev pub bit_length : ℕ → ℕ → ℕ
bit_length zero n = 0
bit_length (suc fuel) n = let rest = bit_length fuel (n / 2) in if n == 0 then 0 else suc rest

-- `u64::leading_zeros`
abbrev leading_zeros : ℕ → ℕ
leading_zeros n = 64 - bit_length 64 n

unfoldable pub matches : IpnPattern → ℕ → Bool
unfolding Interval.matches
matches IpnPattern.wildcard v = true
matches (IpnPattern.single n) v = n == v
matches (IpnPattern.range r) v = any r (λ i. Interval.matches i v)

unfoldable pub is_subset : IpnPattern → IpnPattern → Bool
unfolding Interval.matches Interval.is_subset
is_subset _ IpnPattern.wildcard = true
is_subset IpnPattern.wildcard _ = false
is_subset (IpnPattern.single l) (IpnPattern.single r) = l == r
is_subset (IpnPattern.single l) (IpnPattern.range r) = any r (λ i. Interval.matches i l)
is_subset (IpnPattern.range _) (IpnPattern.single _) = false
is_subset (IpnPattern.range l) (IpnPattern.range r) =
    all l (λ i. any r (λ j. Interval.is_subset i j))

unfoldable pub try_to_eid : IpnPattern → Option ℕ
unfolding Interval.try_to_u32
try_to_eid (IpnPattern.single n) = some n
try_to_eid (IpnPattern.range (i ∷ [])) = Interval.try_to_u32 i
try_to_eid _ = none

unfoldable pub is_exact : IpnPattern → Bool
is_exact (IpnPattern.single _) = true
is_exact (IpnPattern.range (number _ ∷ [])) = true
is_exact _ = false

-- `intervals.iter().map(|i| i.count()).sum()`
unfoldable pub total_count : List IpnInterval → ℕ
unfolding Interval.count
total_count [] = 0
total_count (i ∷ is) = (Interval.count i + total_count is) % 2 ^ 64

unfoldable pub literal_bits : IpnPattern → ℕ
unfolding total_count
literal_bits IpnPattern.wildcard = 0
literal_bits (IpnPattern.single _) = 32
literal_bits (IpnPattern.range is) =
    if leb (total_count is) 1 then 32 else 32 - (64 - leading_zeros (total_count is - 1))

-- `matches!(p, IpnPattern::Wildcard)`
unfoldable pub is_wildcard : IpnPattern → Bool
is_wildcard IpnPattern.wildcard = true
is_wildcard _ = false

-- `p == IpnPattern::Single(n)`
unfoldable pub is_single : ℕ → IpnPattern → Bool
is_single n (IpnPattern.single m) = m == n
is_single n _ = false
