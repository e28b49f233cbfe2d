-- ===== src/EidPatterns/Ipn/Item.antt =====
-- `IpnPatternItem` of eid-patterns/src/ipn_pattern.rs.
use hardy.Prelude.{ℕ, ◌+◌, Bool, false, not, ◌&&◌, Option, none, some, ◌==◌, if◌then◌else◌}
use hardy.Eid.{IpnNodeId, Eid, u32_max}
use hardy.EidPatterns.Ipn.Component
use hardy.EidPatterns.Ipn.Component.{IpnPattern}

pub record IpnPatternItem : Type 0 where
  pub allocator_id : IpnPattern
  pub node_number : IpnPattern
  pub service_number : IpnPattern

-- `ANY`
abbrev pub any_item : IpnPatternItem
any_item = record {
  allocator_id = IpnPattern.wildcard;
  node_number = IpnPattern.wildcard;
  service_number = IpnPattern.wildcard;
}

unfoldable pub new : ℕ → ℕ → Option ℕ → IpnPatternItem
new a n s = record {
  allocator_id = IpnPattern.single a;
  node_number = IpnPattern.single n;
  service_number = elim s [ some v ↦ IpnPattern.single v | none ↦ IpnPattern.wildcard ];
}

-- The three components against three numbers.
unfoldable pub matches_at : IpnPatternItem → ℕ → ℕ → ℕ → Bool
unfolding Component.matches
matches_at p a n s =
    Component.matches p.allocator_id a
    && (Component.matches p.node_number n && Component.matches p.service_number s)

unfoldable pub matches : IpnPatternItem → Eid → Bool
unfolding matches_at
matches p Eid.null = matches_at p 0 0 0
matches p (Eid.local_node s) = matches_at p 0 u32_max s
matches p (Eid.legacy_ipn fqnn s) = matches_at p fqnn.allocator_id fqnn.node_number s
matches p (Eid.ipn fqnn s) = matches_at p fqnn.allocator_id fqnn.node_number s
matches p _ = false

unfoldable pub is_subset : IpnPatternItem → IpnPatternItem → Bool
unfolding Component.is_subset
is_subset p q =
    Component.is_subset p.allocator_id q.allocator_id
    && (Component.is_subset p.node_number q.node_number
        && Component.is_subset p.service_number q.service_number)

unfoldable pub expand_local_node : IpnPatternItem → IpnNodeId → Option IpnPatternItem
unfolding Component.is_single
expand_local_node p node_id =
    if Component.is_single 0 p.allocator_id && Component.is_single u32_max p.node_number
    then some (record {
      allocator_id = IpnPattern.single node_id.allocator_id;
      node_number = IpnPattern.single node_id.node_number;
      service_number = p.service_number;
    })
    else none

-- The `match` on the three numbers of an exact pattern.
unfoldable pub exact_eid : ℕ → ℕ → ℕ → Option Eid
exact_eid a n s =
    if a == 0 && n == 0
    then (if s == 0 then some Eid.null else none)
    else if a == 0 && n == u32_max
    then some (Eid.local_node s)
    else some (Eid.ipn (record { allocator_id = a; node_number = n }) s)

infixl 5 ◌>>=◌
abbrev ◌>>=◌ : {A B : Type 0} → Option A → (A → Option B) → Option B
none >>= f = none
some a >>= f = f a

unfoldable pub try_to_eid : IpnPatternItem → Option Eid
unfolding Component.try_to_eid exact_eid
try_to_eid p = do
  a ← Component.try_to_eid p.allocator_id
  n ← Component.try_to_eid p.node_number
  s ← Component.try_to_eid p.service_number
  exact_eid a n s

unfoldable pub specificity_score : IpnPatternItem → Option ℕ
unfolding Component.is_exact Component.is_wildcard Component.literal_bits
specificity_score p =
    if not (Component.is_exact p.allocator_id) && not (Component.is_wildcard p.node_number)
    then none
    else if not (Component.is_exact p.node_number) && not (Component.is_wildcard p.service_number)
    then none
    else some (
        (if Component.is_exact p.allocator_id
            && (Component.is_exact p.node_number && Component.is_exact p.service_number)
          then 256
          else 0)
        + Component.literal_bits p.allocator_id
        + Component.literal_bits p.node_number
        + Component.literal_bits p.service_number)
