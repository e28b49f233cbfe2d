-- ===== src/Bpa/Routing/Insert.antt =====
-- bpa/src/routing/table.rs: what an insertion puts in the table.
use hardy.Prelude.{ℕ, ◌≡◌, List, Bool, true, false, ◌&&◌, Option, any}
use hardy.Eid.{Str, Eid}
use hardy.EidPatterns.Dtn.{Globs}
use hardy.EidPatterns.Pattern.Union.{EidPattern}
use hardy.Bpa.NodeIds.{NodeIds}
use hardy.Bpa.Routing.{
  Entry, Ordering, less, equal, greater, Orders, cmp_number, Patterns, cmp_entry,
}

-- What is asked of the derived orders
pub record IsReflexive {gl : Globs} (o : Orders gl) : Type 0 where
  pub cmp_eid_self : (a : Eid) → o.cmp_eid a a ≡ equal
  pub cmp_reason_self : (a : Option ℕ) → o.cmp_reason a a ≡ equal
  pub cmp_str_self : (a : Str) → o.cmp_str a a ≡ equal
  pub cmp_pattern_self : (a : EidPattern gl) → o.cmp_pattern a a ≡ equal

abbrev is_equal : Ordering → Bool
is_equal less = false
is_equal equal = true
is_equal greater = false

module _ {gl : Globs} (o : Orders gl) where
  -- The set holds the entry.
  unfoldable pub has_entry : Entry → List Entry → Bool
  has_entry e es = any es (λ x. is_equal (cmp_entry o e x))

  unfoldable pub has_pattern : EidPattern gl → Entry → Patterns gl → Bool
  unfolding has_entry
  has_pattern p e l = any l (λ x. is_equal (o.cmp_pattern p x.0) && has_entry e x.1)

  -- The table holds the entry for the pattern at the priority.
  unfoldable pub has_route : ℕ → EidPattern gl → Entry → List (ℕ × Patterns gl) → Bool
  unfolding has_pattern
  has_route n p e l = any l (λ x. is_equal (cmp_number n x.0) && has_pattern p e x.1)
