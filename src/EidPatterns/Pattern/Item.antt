-- ===== src/EidPatterns/Pattern/Item.antt =====
-- `EidPatternItem` of eid-patterns/src/lib.rs.
use hardy.Prelude.{ℕ, [], ◌∷◌, Bool, false, ◌&&◌, ◌||◌, Option, none, some, ◌==◌, if◌then◌else◌}
use hardy.Eid.{Str, IpnNodeId, Eid, eq_str, is_null}
use hardy.EidPatterns.Ipn.Item as Ipn
use hardy.EidPatterns.Ipn.Item.{IpnPatternItem}
use hardy.EidPatterns.Dtn
use hardy.EidPatterns.Dtn.{Globs, DtnPatternItem}

pub data EidPatternItem (gl : Globs) : Type 0 where
  any_numeric_scheme : ℕ → EidPatternItem gl
  any_text_scheme : Str → EidPatternItem gl
  ipn_pattern_item : IpnPatternItem → EidPatternItem gl
  dtn_pattern_item : DtnPatternItem gl → EidPatternItem gl

abbrev pub dtn_text : Str
dtn_text = b'd' ∷ b't' ∷ b'n' ∷ []

abbrev pub ipn_text : Str
ipn_text = b'i' ∷ b'p' ∷ b'n' ∷ []

unfoldable pub eid_numeric_scheme : Eid → Option ℕ
eid_numeric_scheme Eid.null = none
eid_numeric_scheme (Eid.local_node _) = some 2
eid_numeric_scheme (Eid.legacy_ipn _ _) = some 2
eid_numeric_scheme (Eid.ipn _ _) = some 2
eid_numeric_scheme (Eid.dtn _ _) = some 1
eid_numeric_scheme (Eid.unknown scheme _) = some scheme

unfoldable pub numeric_scheme_of_text : Str → Option ℕ
unfolding eq_str
numeric_scheme_of_text s =
    if eq_str s dtn_text then some 1 else if eq_str s ipn_text then some 2 else none

-- `eid_numeric_scheme(eid) == Some(n)`
abbrev pub is_scheme : Option ℕ → ℕ → Bool
is_scheme none n = false
is_scheme (some m) n = m == n

-- `is_some_and`
abbrev pub is_some_and : Option ℕ → (ℕ → Bool) → Bool
is_some_and none f = false
is_some_and (some n) f = f n

-- `e == Some(Eid::Null)`
abbrev pub is_some_null : Option Eid → Bool
is_some_null none = false
is_some_null (some e) = is_null e

-- The numeric scheme `n` is the text scheme `s`
unfoldable pub same_scheme : ℕ → Str → Bool
unfolding eq_str
same_scheme n s = (n == 1 && eq_str s dtn_text) || (n == 2 && eq_str s ipn_text)

module _ {gl : Globs} where
  unfoldable pub matches : EidPatternItem gl → Eid → Bool
  unfolding Ipn.matches Dtn.matches eid_numeric_scheme numeric_scheme_of_text
  matches (EidPatternItem.ipn_pattern_item i) e = Ipn.matches i e
  matches (EidPatternItem.dtn_pattern_item i) e = Dtn.matches i e
  matches (EidPatternItem.any_numeric_scheme n) e = is_scheme (eid_numeric_scheme e) n
  matches (EidPatternItem.any_text_scheme s) e =
      is_some_and (numeric_scheme_of_text s) (λ n. is_scheme (eid_numeric_scheme e) n)

  unfoldable pub is_subset : EidPatternItem gl → EidPatternItem gl → Bool
  unfolding Ipn.is_subset Dtn.is_subset Ipn.try_to_eid Dtn.try_to_eid eq_str is_null same_scheme
  is_subset (EidPatternItem.any_numeric_scheme l) (EidPatternItem.any_numeric_scheme r) = l == r
  is_subset (EidPatternItem.any_numeric_scheme n) (EidPatternItem.any_text_scheme s) =
      same_scheme n s
  is_subset (EidPatternItem.any_text_scheme s) (EidPatternItem.any_numeric_scheme n) =
      same_scheme n s
  is_subset (EidPatternItem.any_text_scheme l) (EidPatternItem.any_text_scheme r) = eq_str l r
  is_subset (EidPatternItem.ipn_pattern_item _) (EidPatternItem.any_numeric_scheme n) = n == 2
  is_subset (EidPatternItem.ipn_pattern_item _) (EidPatternItem.any_text_scheme s) =
      eq_str s ipn_text
  is_subset (EidPatternItem.ipn_pattern_item l) (EidPatternItem.ipn_pattern_item r) =
      Ipn.is_subset l r
  is_subset (EidPatternItem.ipn_pattern_item l) (EidPatternItem.dtn_pattern_item r) =
      is_some_null (Ipn.try_to_eid l) && is_some_null (Dtn.try_to_eid r)
  is_subset (EidPatternItem.dtn_pattern_item _) (EidPatternItem.any_numeric_scheme n) = n == 1
  is_subset (EidPatternItem.dtn_pattern_item _) (EidPatternItem.any_text_scheme s) =
      eq_str s dtn_text
  is_subset (EidPatternItem.dtn_pattern_item l) (EidPatternItem.ipn_pattern_item r) =
      is_some_null (Dtn.try_to_eid l) && is_some_null (Ipn.try_to_eid r)
  is_subset (EidPatternItem.dtn_pattern_item l) (EidPatternItem.dtn_pattern_item r) =
      Dtn.is_subset l r
  is_subset _ _ = false

  unfoldable pub expand_local_node : EidPatternItem gl → IpnNodeId → Option (EidPatternItem gl)
  unfolding Ipn.expand_local_node
  expand_local_node (EidPatternItem.ipn_pattern_item i) node_id =
      elim (Ipn.expand_local_node i node_id) [
        | some j ↦ some (EidPatternItem.ipn_pattern_item j)
        | none ↦ none
      ]
  expand_local_node _ _ = none

  unfoldable pub try_to_eid : EidPatternItem gl → Option Eid
  unfolding Ipn.try_to_eid Dtn.try_to_eid
  try_to_eid (EidPatternItem.ipn_pattern_item i) = Ipn.try_to_eid i
  try_to_eid (EidPatternItem.dtn_pattern_item i) = Dtn.try_to_eid i
  try_to_eid _ = none

  unfoldable pub specificity_score : EidPatternItem gl → Option ℕ
  unfolding Ipn.specificity_score Dtn.specificity_score
  specificity_score (EidPatternItem.ipn_pattern_item i) = Ipn.specificity_score i
  specificity_score (EidPatternItem.dtn_pattern_item i) = Dtn.specificity_score i
  specificity_score _ = some 0
