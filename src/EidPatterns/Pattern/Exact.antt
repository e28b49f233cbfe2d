-- ===== src/EidPatterns/Pattern/Exact.antt =====
-- Single endpoints as patterns, and unions taken apart, in eid-patterns/src/lib.rs.
use hardy.Prelude.{
  ◌≡◌, refl, List, [], ◌∷◌, Bool, true, false, not, ◌&&◌, ◌||◌, some, arith, any, ◌==◌, map,
}
use hardy.Eid.{Eid, u32_max, is_null, eq_eid}
use hardy.Eid.Laws.{eq_str_iff}
use hardy.EidPatterns.Ipn.Component
use hardy.EidPatterns.Ipn.Item as Ipn
use hardy.EidPatterns.Dtn
use hardy.EidPatterns.Dtn.{Globs, DtnPatternItem}
use hardy.EidPatterns.Pattern.Item
use hardy.EidPatterns.Pattern.Item.{EidPatternItem}
use hardy.EidPatterns.Pattern.Union
use hardy.EidPatterns.Pattern.Union.{EidPattern}

-- An endpoint of a scheme the program knows, in the one spelling that `exact_eid` gives it
unfoldable pub is_canonical : Eid → Bool
is_canonical (Eid.legacy_ipn _ _) = false
is_canonical (Eid.ipn f n) =
    not (f.allocator_id == 0 && (f.node_number == 0 || f.node_number == u32_max))
is_canonical (Eid.unknown _ _) = false
is_canonical _ = true

module _ (gl : Globs) where
  -- The pattern of a canonical endpoint is exact and converts back to that endpoint.
  pub try_eid-of_eid :
      (e : Eid) → is_canonical e ≡ true → Union.try_eid {gl = gl} (Union.of_eid e) ≡ some e
  unfolding is_canonical Union.try_eid Union.of_eid Item.try_to_eid Ipn.try_to_eid Dtn.try_to_eid
      Ipn.new Component.try_to_eid Ipn.exact_eid Union.all_name eq_eid
  try_eid-of_eid e h = ground arith

  -- The pattern of an endpoint, of whatever scheme, matches that endpoint.
  pub matches-of_eid : (e : Eid) → Union.matches {gl = gl} (Union.of_eid e) e ≡ true
  unfolding Union.matches Union.of_eid Item.matches Ipn.matches Ipn.matches_at Component.matches
      Dtn.matches is_null Ipn.new Item.eid_numeric_scheme
  matches-of_eid (Eid.dtn d n) = ground (arith, eq_str_iff d.node_name d.node_name, eq_str_iff n n)
  matches-of_eid e = ground arith

module _ {gl : Globs} where
  atoms_match :
      (items : List (EidPatternItem gl)) (e : Eid)
      → any (map (λ k. EidPattern.set (k ∷ [])) items) (λ p. Union.matches p e)
        ≡ any items (λ i. Item.matches i e)
  unfolding Union.matches
  atoms_match [] e = refl
  atoms_match (i ∷ items) e = ground (arith, atoms_match items e)

  -- One of the atoms of a pattern matches an endpoint exactly when the pattern does.
  pub matches-into_atoms :
      (p : EidPattern gl) (e : Eid)
      → any (Union.into_atoms p) (λ q. Union.matches q e) ≡ Union.matches p e
  unfolding Union.into_atoms Union.matches
  matches-into_atoms EidPattern.any_eid e = refl
  matches-into_atoms (EidPattern.set []) e = refl
  matches-into_atoms (EidPattern.set (i ∷ [])) e = ground arith
  matches-into_atoms (EidPattern.set (i ∷ j ∷ items)) e = atoms_match (i ∷ j ∷ items) e
