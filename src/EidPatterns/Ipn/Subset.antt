-- ===== src/EidPatterns/Ipn/Subset.antt =====
-- The subset tests of eid-patterns/src/ipn_pattern.rs against what the patterns match.
use hardy.Prelude.{ℕ, ◌≡◌, List, [], ◌∷◌, true, arith, any, all}
use mathlib.Core.Path.{subst}
use hardy.Eid.{Eid, u32_max}
use hardy.EidPatterns.Ipn.Interval
use hardy.EidPatterns.Ipn.Interval.{IpnInterval, number, range}
use hardy.EidPatterns.Ipn.Component
use hardy.EidPatterns.Ipn.Component.{IpnPattern}
use hardy.EidPatterns.Ipn.Item
use hardy.EidPatterns.Ipn.Item.{IpnPatternItem}

interval_sound :
    (i j : IpnInterval) (v : ℕ)
    → Interval.is_subset i j ≡ true
    → Interval.matches i v ≡ true
    → Interval.matches j v ≡ true
unfolding Interval.is_subset Interval.matches
interval_sound i j v h k = ground arith

any_sound :
    (i : IpnInterval) (r : List IpnInterval) (v : ℕ)
    → any r (λ j. Interval.is_subset i j) ≡ true
    → Interval.matches i v ≡ true
    → any r (λ j. Interval.matches j v) ≡ true
any_sound i [] v h k = cc
any_sound i (j ∷ r) v h k = ground (arith, interval_sound i j v, any_sound i r v)

all_sound :
    (l r : List IpnInterval) (v : ℕ)
    → all l (λ i. any r (λ j. Interval.is_subset i j)) ≡ true
    → any l (λ i. Interval.matches i v) ≡ true
    → any r (λ j. Interval.matches j v) ≡ true
all_sound [] r v h k = cc
all_sound (i ∷ l) r v h k = ground (arith, any_sound i r v, all_sound l r v)

single_sound :
    (n v : ℕ) (r : List IpnInterval)
    → any r (λ i. Interval.matches i n) ≡ true
    → n ≡ v
    → any r (λ i. Interval.matches i v) ≡ true
single_sound n v r h e = subst (λ x. any r (λ i. Interval.matches i x) ≡ true) e h

pub component_sound :
    (p q : IpnPattern) (v : ℕ)
    → Component.is_subset p q ≡ true
    → Component.matches p v ≡ true
    → Component.matches q v ≡ true
unfolding Component.is_subset Component.matches
component_sound (IpnPattern.single n) (IpnPattern.range r) v h k =
    single_sound n v r h (ground arith)
component_sound (IpnPattern.range l) (IpnPattern.range r) v h k = all_sound l r v h k
component_sound p q v h k = ground arith

pub matches_at_sound :
    (p q : IpnPatternItem) (a n s : ℕ)
    → Item.is_subset p q ≡ true
    → Item.matches_at p a n s ≡ true
    → Item.matches_at q a n s ≡ true
unfolding Item.is_subset Item.matches_at
matches_at_sound p q a n s h k = ground (
  arith,
  component_sound p.allocator_id q.allocator_id a,
  component_sound p.node_number q.node_number n,
  component_sound p.service_number q.service_number s,
)

pub item_sound :
    (p q : IpnPatternItem) (e : Eid)
    → Item.is_subset p q ≡ true
    → Item.matches p e ≡ true
    → Item.matches q e ≡ true
unfolding Item.matches
item_sound p q Eid.null h k = matches_at_sound p q 0 0 0 h k
item_sound p q (Eid.local_node s) h k = matches_at_sound p q 0 u32_max s h k
item_sound p q (Eid.legacy_ipn f s) h k = matches_at_sound p q f.allocator_id f.node_number s h k
item_sound p q (Eid.ipn f s) h k = matches_at_sound p q f.allocator_id f.node_number s h k
item_sound p q (Eid.dtn d s) h k = cc
item_sound p q (Eid.unknown n s) h k = cc
