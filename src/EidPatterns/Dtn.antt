-- ===== src/EidPatterns/Dtn.antt =====
-- eid-patterns/src/dtn_pattern.rs: items of the `dtn` scheme. The crate `glob` is a parameter.
use hardy.Prelude.{
  ℕ, ◌+◌, ◌/◌, ◌%◌, ◌^◌, [], ◌∷◌, ◌++◌, Bool, true, false, not, ◌&&◌, ◌||◌, Option, some, ltb, ◌==◌,
  any as any_of, length, if◌then◌else◌,
}
use hardy.Eid.{Str, Eid, eq_str, is_null}

pub record MatchOptions : Type 0 where
  pub case_sensitive : Bool
  pub require_literal_separator : Bool
  pub require_literal_leading_dot : Bool

-- `glob::Pattern`: its text, and whether it matches a text.
pub record Globs : Type 1 where
  pub Pattern : Type 0
  pub as_str : Pattern → Str
  pub matches_with : Pattern → Str → MatchOptions → Bool

pub data DtnPatternItem (gl : Globs) : Type 0 where
  none : DtnPatternItem gl
  any : DtnPatternItem gl
  exact : Str → Str → DtnPatternItem gl
  glob : gl.Pattern → DtnPatternItem gl

-- `s.split(c).next()`
abbrev before : ℕ → Str → Str
before c [] = []
before c (b ∷ bs) = if b == c then [] else b ∷ before c bs

abbrev str_contains : ℕ → Str → Bool
str_contains c s = any_of s (λ b. b == c)

abbrev occurrences : ℕ → Str → ℕ
occurrences c [] = 0
occurrences c (b ∷ bs) = (if b == c then 1 else 0) + occurrences c bs

-- The characters other than `*`, `?`, `[` and `]`: a byte 10xxxxxx continues a character.
abbrev literal_count : Str → ℕ
literal_count [] = 0
literal_count (b ∷ bs) =
    (if b / 64 == 2 || (b == b'*' || (b == b'?' || (b == b'[' || b == b']'))) then 0 else 1)
    + literal_count bs

unfoldable pub do_glob : (gl : Globs) → Str → Str → gl.Pattern → Bool
do_glob gl node_name demux pattern = gl.matches_with pattern (node_name ++ (b'/' ∷ demux)) (record {
  case_sensitive = false;
  require_literal_separator = true;
  require_literal_leading_dot = false;
})

-- The score of a glob by its text
unfoldable pub glob_score : Str → Option ℕ
glob_score s =
    let authority = before b'/' s in
    if ltb 1 (occurrences b'*' authority)
    then Option.none
    else if str_contains b'*' authority && not (str_contains b'*' (before b'.' authority))
    then Option.none
    else some (literal_count s % 2 ^ 32)

module _ {gl : Globs} where
  unfoldable pub matches : DtnPatternItem gl → Eid → Bool
  unfolding do_glob eq_str is_null
  matches DtnPatternItem.none e = is_null e
  matches DtnPatternItem.any (Eid.dtn _ _) = true
  matches DtnPatternItem.any (Eid.unknown scheme _) = scheme == 1
  matches DtnPatternItem.any _ = false
  matches (DtnPatternItem.exact n d) (Eid.dtn node service) =
      eq_str n node.node_name && eq_str d service
  matches (DtnPatternItem.exact _ _) _ = false
  matches (DtnPatternItem.glob p) (Eid.dtn node service) = do_glob gl node.node_name service p
  matches (DtnPatternItem.glob _) _ = false

  unfoldable pub is_subset : DtnPatternItem gl → DtnPatternItem gl → Bool
  unfolding do_glob eq_str
  is_subset DtnPatternItem.none DtnPatternItem.none = true
  is_subset DtnPatternItem.none DtnPatternItem.any = false
  is_subset _ DtnPatternItem.any = true
  is_subset DtnPatternItem.any (DtnPatternItem.glob p) = eq_str (gl.as_str p) (b'*' ∷ b'*' ∷ [])
  is_subset (DtnPatternItem.exact n d) (DtnPatternItem.exact n' d') = eq_str n n' && eq_str d d'
  is_subset (DtnPatternItem.exact n d) (DtnPatternItem.glob p) = do_glob gl n d p
  is_subset (DtnPatternItem.glob _) (DtnPatternItem.glob _) = true
  is_subset _ _ = false

  unfoldable pub try_to_eid : DtnPatternItem gl → Option Eid
  try_to_eid DtnPatternItem.none = some Eid.null
  try_to_eid (DtnPatternItem.exact n d) = some (Eid.dtn (record { node_name = n }) d)
  try_to_eid _ = Option.none

  -- `len() as u32`, and sums of `u32`
  unfoldable pub specificity_score : DtnPatternItem gl → Option ℕ
  unfolding glob_score
  specificity_score DtnPatternItem.none = some 256
  specificity_score DtnPatternItem.any = some 0
  specificity_score (DtnPatternItem.exact n d) =
      some ((256 + length n % 2 ^ 32 + length d % 2 ^ 32) % 2 ^ 32)
  specificity_score (DtnPatternItem.glob p) = glob_score (gl.as_str p)
