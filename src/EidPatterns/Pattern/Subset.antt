-- ===== src/EidPatterns/Pattern/Subset.antt =====
-- The subset test of eid-patterns/src/lib.rs against what the patterns match.
use hardy.Prelude.{
  ℕ, ◌≡◌, refl, ◌⊎◌, List, [], ◌∷◌, Bool, true, false, ◌&&◌, none, some, arith, any, all, ◌==◌,
}
use hardy.Eid.{Str, Eid, u32_max, is_null, eq_str}
use hardy.Eid.Laws.{eq_str_iff}
use hardy.EidPatterns.Ipn.Component
use hardy.EidPatterns.Ipn.Component.{IpnPattern}
use hardy.EidPatterns.Ipn.Interval
use hardy.EidPatterns.Ipn.Interval.{IpnInterval}
use hardy.EidPatterns.Ipn.Item as Ipn
use hardy.EidPatterns.Ipn.Item.{IpnPatternItem}
use hardy.EidPatterns.Ipn.Subset.{item_sound}
use hardy.EidPatterns.Dtn
use hardy.EidPatterns.Dtn.{Globs, DtnPatternItem}
use hardy.EidPatterns.Pattern.Item
use hardy.EidPatterns.Pattern.Item.{EidPatternItem}
use hardy.EidPatterns.Pattern.Union
use hardy.EidPatterns.Pattern.Union.{EidPattern}

-- The null endpoint, also in its spelling as `ipn:0.0.0`
unfoldable pub names_null : Eid → Bool
names_null Eid.null = true
names_null (Eid.legacy_ipn f n) = f.allocator_id == 0 && (f.node_number == 0 && n == 0)
names_null (Eid.ipn f n) = f.allocator_id == 0 && (f.node_number == 0 && n == 0)
names_null _ = false

not_both : (s : Str) → eq_str s Item.ipn_text ≡ true → eq_str s Item.dtn_text ≡ false
not_both s h = ground (arith, eq_str_iff s Item.ipn_text, eq_str_iff s Item.dtn_text)

exact_cases :
    (p : IpnPattern) (v : ℕ)
    → Component.matches p v ≡ true
    → (Component.try_to_eid p ≡ none) ⊎ (Component.try_to_eid p ≡ some v)
unfolding Component.try_to_eid Component.matches Interval.try_to_u32 Interval.matches
exact_cases (IpnPattern.single m) v k = ground arith
exact_cases (IpnPattern.range (i ∷ [])) v k = ground arith
exact_cases (IpnPattern.range []) v k = ground arith
exact_cases (IpnPattern.range (i ∷ j ∷ is)) v k = ground arith
exact_cases IpnPattern.wildcard v k = ground arith

null_at :
    (p : IpnPatternItem) (a n s : ℕ)
    → Item.is_some_null (Ipn.try_to_eid p) ≡ true
    → Ipn.matches_at p a n s ≡ true
    → (a ≡ 0) × (n ≡ 0) × (s ≡ 0)
unfolding is_null Ipn.try_to_eid Ipn.exact_eid Ipn.matches_at
null_at p a n s h k = ground (
  arith,
  exact_cases p.allocator_id a,
  exact_cases p.node_number n,
  exact_cases p.service_number s,
)

null_sound :
    (p : IpnPatternItem) (e : Eid)
    → Item.is_some_null (Ipn.try_to_eid p) ≡ true
    → Ipn.matches p e ≡ true
    → names_null e ≡ true
unfolding Ipn.matches names_null
null_sound p Eid.null h k = refl
null_sound p (Eid.local_node m) h k = ground (arith, null_at p 0 u32_max m h k)
null_sound p (Eid.legacy_ipn f m) h k = ground (arith, null_at p f.allocator_id f.node_number m h k)
null_sound p (Eid.ipn f m) h k = ground (arith, null_at p f.allocator_id f.node_number m h k)
null_sound p (Eid.dtn d m) h k = cc
null_sound p (Eid.unknown n m) h k = cc

module _ {gl : Globs} where
  unfoldable pub is_glob : EidPatternItem gl → Bool
  is_glob (EidPatternItem.dtn_pattern_item (DtnPatternItem.glob _)) = true
  is_glob _ = false

  unfoldable pub has_glob : EidPattern gl → Bool
  unfolding is_glob
  has_glob EidPattern.any_eid = false
  has_glob (EidPattern.set items) = any items (λ i. is_glob i)

  dtn_sound :
      (l r : DtnPatternItem gl) (e : Eid)
      → is_glob (EidPatternItem.dtn_pattern_item r) ≡ false
      → names_null e ≡ false
      → Dtn.is_subset l r ≡ true
      → Dtn.matches l e ≡ true
      → Dtn.matches r e ≡ true
  unfolding Dtn.is_subset Dtn.matches is_glob names_null is_null
  dtn_sound l (DtnPatternItem.glob p) e g c h k = ground arith
  dtn_sound l DtnPatternItem.none e g c h k = ground arith
  dtn_sound l DtnPatternItem.any e g c h k = ground arith
  dtn_sound (DtnPatternItem.exact n d) (DtnPatternItem.exact n' d') (Eid.dtn a b) g c h k =
      ground (arith, eq_str_iff n n', eq_str_iff d d')
  dtn_sound l r e g c h k = ground arith

  dtn_null :
      (l : DtnPatternItem gl) (e : Eid)
      → Item.is_some_null (Dtn.try_to_eid l) ≡ true
      → Dtn.matches l e ≡ true
      → names_null e ≡ true
  unfolding Dtn.try_to_eid Dtn.matches names_null is_null
  dtn_null l e h k = ground arith

  item_sound_lem :
      (l r : EidPatternItem gl) (e : Eid)
      → is_glob r ≡ false
      → names_null e ≡ false
      → Item.is_subset l r ≡ true
      → Item.matches l e ≡ true
      → Item.matches r e ≡ true
  unfolding Item.is_subset Item.matches Item.eid_numeric_scheme Item.numeric_scheme_of_text
      Item.same_scheme Ipn.matches Dtn.matches names_null
  item_sound_lem (EidPatternItem.ipn_pattern_item l) (EidPatternItem.ipn_pattern_item r) e g c h k =
      item_sound l r e h k
  item_sound_lem (EidPatternItem.dtn_pattern_item l) (EidPatternItem.dtn_pattern_item r) e g c h k =
      dtn_sound l r e g c h k
  item_sound_lem (EidPatternItem.ipn_pattern_item l) (EidPatternItem.dtn_pattern_item r) e g c h k =
      ground (arith, null_sound l e)
  item_sound_lem (EidPatternItem.dtn_pattern_item l) (EidPatternItem.ipn_pattern_item r) e g c h k =
      ground (arith, dtn_null l e)
  item_sound_lem (EidPatternItem.any_text_scheme s) (EidPatternItem.any_text_scheme t) e g c h k =
      ground (arith, eq_str_iff s t)
  item_sound_lem (EidPatternItem.any_numeric_scheme m) (EidPatternItem.any_text_scheme s) e g c h
        k =
      ground (arith, not_both s)
  item_sound_lem (EidPatternItem.any_numeric_scheme m) (EidPatternItem.any_numeric_scheme n) e g c h
        k =
      ground arith
  item_sound_lem (EidPatternItem.any_text_scheme s) (EidPatternItem.any_numeric_scheme n) e g c h
        k =
      ground (arith, not_both s)
  item_sound_lem (EidPatternItem.ipn_pattern_item l) (EidPatternItem.any_numeric_scheme n) e g c h
        k =
      ground arith
  item_sound_lem (EidPatternItem.ipn_pattern_item l) (EidPatternItem.any_text_scheme s) e g c h k =
      ground (arith, not_both s)
  item_sound_lem (EidPatternItem.dtn_pattern_item l) (EidPatternItem.any_numeric_scheme n) e g c h
        k =
      ground arith
  item_sound_lem (EidPatternItem.dtn_pattern_item l) (EidPatternItem.any_text_scheme s) e g c h k =
      ground (arith, not_both s)
  item_sound_lem l r e g c h k = ground arith

  any_sound :
      (l : EidPatternItem gl) (r : List (EidPatternItem gl)) (e : Eid)
      → any r (λ i. is_glob i) ≡ false
      → names_null e ≡ false
      → any r (λ i. Item.is_subset l i) ≡ true
      → Item.matches l e ≡ true
      → any r (λ i. Item.matches i e) ≡ true
  any_sound l [] e g c h k = cc
  any_sound l (i ∷ r) e g c h k = ground (arith, item_sound_lem l i e, any_sound l r e)

  all_sound :
      (l r : List (EidPatternItem gl)) (e : Eid)
      → any r (λ i. is_glob i) ≡ false
      → names_null e ≡ false
      → all l (λ i. any r (λ j. Item.is_subset i j)) ≡ true
      → any l (λ i. Item.matches i e) ≡ true
      → any r (λ i. Item.matches i e) ≡ true
  all_sound [] r e g c h k = cc
  all_sound (i ∷ l) r e g c h k = ground (arith, any_sound i r e, all_sound l r e)

  -- If a pattern p is a subset of a pattern q that holds no glob, by `is_subset`, then q matches every
  -- endpoint that p matches, other than the null endpoint and its spelling `ipn:0.0.0`.
  pub is_subset_sound :
      (p q : EidPattern gl) (e : Eid)
      → has_glob q ≡ false
      → names_null e ≡ false
      → Union.is_subset p q ≡ true
      → Union.matches p e ≡ true
      → Union.matches q e ≡ true
  unfolding Union.is_subset Union.matches has_glob
  is_subset_sound p EidPattern.any_eid e g c h k = refl
  is_subset_sound (EidPattern.set l) (EidPattern.set r) e g c h k = all_sound l r e g c h k
  is_subset_sound EidPattern.any_eid (EidPattern.set r) e g c h k = cc
