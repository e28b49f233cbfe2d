-- ===== src/EidPatterns/Pattern/Union.antt =====
-- `EidPattern` of eid-patterns/src/lib.rs: a union of items, and its conversions.
use hardy.Prelude.{
  ℕ, List, [], ◌∷◌, map, Bool, true, false, ◌&&◌, Option, none, some, any, all, min, if◌then◌else◌,
}
use hardy.Eid.{IpnNodeId, Eid, eq_eid, u32_max}
use hardy.EidPatterns.Ipn.Item as Ipn
use hardy.EidPatterns.Dtn.{Globs, DtnPatternItem}
use hardy.EidPatterns.Pattern.Item
use hardy.EidPatterns.Pattern.Item.{EidPatternItem}

-- The field is the private `Repr`.
pub data EidPattern (gl : Globs) : Type 0 where
  any_eid : EidPattern gl
  set : List (EidPatternItem gl) → EidPattern gl

-- `items.map(specificity_score).min()`, where `none` is below every score
abbrev pub min_score : Option ℕ → Option ℕ → Option ℕ
min_score none b = none
min_score (some a) none = none
min_score (some a) (some b) = some (min a b)

-- `Option<Eid> == Some(first)`
abbrev is_some_eid : Option Eid → Eid → Bool
is_some_eid none first = false
is_some_eid (some e) first = eq_eid e first

module _ {gl : Globs} where
  unfoldable pub matches : EidPattern gl → Eid → Bool
  unfolding Item.matches
  matches any_eid e = true
  matches (set items) e = any items (λ i. Item.matches i e)

  unfoldable pub into_atoms : EidPattern gl → List (EidPattern gl)
  into_atoms (set (i ∷ j ∷ items)) = map (λ k. set (k ∷ [])) (i ∷ j ∷ items)
  into_atoms p = p ∷ []

  unfoldable pub specificity_score : EidPattern gl → Option ℕ
  unfolding Item.specificity_score
  specificity_score any_eid = some 0
  specificity_score (set []) = none
  specificity_score (set (i ∷ [])) = Item.specificity_score i
  specificity_score (set (i ∷ j ∷ items)) =
      min_score (Item.specificity_score i) (specificity_score (set (j ∷ items)))

  -- The loop: the items so far and whether one changed
  unfoldable pub expand_items :
      IpnNodeId → List (EidPatternItem gl) → (List (EidPatternItem gl) × Bool)
  unfolding Item.expand_local_node
  expand_items node_id [] = ([], false)
  expand_items node_id (item ∷ items) =
      let rest = expand_items node_id items in
      elim (Item.expand_local_node item node_id) [
        | some new_item ↦ (new_item ∷ rest.0, true)
        | none ↦ (item ∷ rest.0, rest.1)
      ]

  unfoldable pub expand_local_node : EidPattern gl → IpnNodeId → Option (EidPattern gl)
  unfolding expand_items
  expand_local_node any_eid node_id = none
  expand_local_node (set items) node_id =
      let r = expand_items node_id items in if r.1 then some (set r.0) else none

  unfoldable pub is_subset : EidPattern gl → EidPattern gl → Bool
  unfolding Item.is_subset
  is_subset _ any_eid = true
  is_subset any_eid _ = false
  is_subset (set lhs) (set rhs) = all lhs (λ l. any rhs (λ r. Item.is_subset l r))

  unfoldable pub of_eid : Eid → EidPattern gl
  unfolding Ipn.new
  of_eid Eid.null = set (
      EidPatternItem.ipn_pattern_item (Ipn.new 0 0 (some 0))
      ∷ EidPatternItem.dtn_pattern_item DtnPatternItem.none
      ∷ [])
  of_eid (Eid.local_node n) =
      set (EidPatternItem.ipn_pattern_item (Ipn.new 0 u32_max (some n)) ∷ [])
  of_eid (Eid.legacy_ipn fqnn n) =
      set
        (EidPatternItem.ipn_pattern_item (Ipn.new fqnn.allocator_id fqnn.node_number (some n)) ∷ [])
  of_eid (Eid.ipn fqnn n) =
      set
        (EidPatternItem.ipn_pattern_item (Ipn.new fqnn.allocator_id fqnn.node_number (some n)) ∷ [])
  of_eid (Eid.dtn node_name service_name) =
      set (
        EidPatternItem.dtn_pattern_item (DtnPatternItem.exact node_name.node_name service_name)
        ∷ [])
  of_eid (Eid.unknown scheme _) = set (EidPatternItem.any_numeric_scheme scheme ∷ [])

  unfoldable pub of_ipn_node_id : IpnNodeId → EidPattern gl
  unfolding Ipn.new
  of_ipn_node_id id =
      set (EidPatternItem.ipn_pattern_item (Ipn.new id.allocator_id id.node_number none) ∷ [])

  -- The loop over the items after the first
  unfoldable pub all_name : Eid → List (EidPatternItem gl) → Bool
  unfolding Item.try_to_eid eq_eid
  all_name first [] = true
  all_name first (i ∷ is) = is_some_eid (Item.try_to_eid i) first && all_name first is

  -- `TryFrom<EidPattern> for Eid`; `none` is `Error::NotExact`.
  unfoldable pub try_eid : EidPattern gl → Option Eid
  unfolding all_name Item.try_to_eid
  try_eid (set (i ∷ items)) = elim (Item.try_to_eid i) [
    | some first ↦ if all_name first items then some first else none
    | none ↦ none
  ]
  try_eid _ = none
