-- ===== src/EidPatterns/Pattern/Score.antt =====
-- The specificity scores of eid-patterns/src/ipn_pattern.rs and lib.rs.
use hardy.Prelude.{
  any, ◌==◌, ◌⊎◌, ℕ, ◌≤◌, ◌≡◌, refl, List, [], ◌∷◌, Bool, true, false, ◌&&◌, Option, none, some,
  arith, all, leb,
}
use hardy.EidPatterns.Dtn.{Globs}
use hardy.EidPatterns.Ipn.Interval
use hardy.EidPatterns.Ipn.Interval.{number}
use hardy.EidPatterns.Ipn.Component
use hardy.EidPatterns.Ipn.Component.{IpnPattern}
use hardy.EidPatterns.Ipn.Item as Ipn
use hardy.EidPatterns.Ipn.Item.{IpnPatternItem}
use hardy.EidPatterns.Pattern.Item
use hardy.EidPatterns.Pattern.Item.{EidPatternItem}
use hardy.EidPatterns.Pattern.Union

literal_bits_bound : (p : IpnPattern) → Component.literal_bits p ≤ 32
unfolding Component.literal_bits
literal_bits_bound p = ground arith

exact_literal_bits : (p : IpnPattern) → Component.is_exact p ≡ true → Component.literal_bits p ≡ 32
unfolding Component.literal_bits Component.is_exact Component.total_count
exact_literal_bits (IpnPattern.single n) h = refl
exact_literal_bits (IpnPattern.range (number n ∷ [])) h = unfold Interval.count in ground arith
exact_literal_bits p h = cc

unfoldable pub is_exact_item : IpnPatternItem → Bool
is_exact_item p =
    Component.is_exact p.allocator_id
    && (Component.is_exact p.node_number && Component.is_exact p.service_number)

exact_score : (p : IpnPatternItem) → is_exact_item p ≡ true → Ipn.specificity_score p ≡ some 352
unfolding Ipn.specificity_score is_exact_item
exact_score p e = ground (
  arith,
  e,
  exact_literal_bits p.allocator_id,
  exact_literal_bits p.node_number,
  exact_literal_bits p.service_number,
)

-- An exact item of the `ipn` scheme has the score 352, and any other item that has a score has at most 96.
pub ipn_score_bounds :
    (p : IpnPatternItem)
    → (is_exact_item p ≡ true → Ipn.specificity_score p ≡ some 352)
      × ((n : ℕ) → is_exact_item p ≡ false → Ipn.specificity_score p ≡ some n → n ≤ 96)
unfolding Ipn.specificity_score is_exact_item
ipn_score_bounds p = (
  exact_score p,
  λ n e h. ground (
    arith,
    h,
    e,
    literal_bits_bound p.allocator_id,
    literal_bits_bound p.node_number,
    literal_bits_bound p.service_number,
  ),
)

-- `Some(n)` is a score not below `m`.
unfoldable pub scores_at_least : ℕ → Option ℕ → Bool
scores_at_least m none = false
scores_at_least m (some n) = leb m n

abbrev pub scores : ℕ → Option ℕ → Bool
scores m none = false
scores m (some n) = m == n

abbrev pub is_none : Option ℕ → Bool
is_none none = true
is_none (some n) = false

module _ {gl : Globs} where
  -- The score is that of the broadest item. There is none without items, or with an item without one.
  unfoldable pub IsBroadest : List (EidPatternItem gl) → Option ℕ → Type 0
  IsBroadest items none =
      (items ≡ []) ⊎ (any items (λ i. is_none (Item.specificity_score i)) ≡ true)
  IsBroadest items (some n) =
      (all items (λ i. scores_at_least n (Item.specificity_score i)) ≡ true)
      × (any items (λ i. scores n (Item.specificity_score i)) ≡ true)
