-- ===== src/Bpa/Routing/Remove.antt =====
-- bpa/src/routing/table.rs: the removal of a routing agent's entries.
use hardy.Prelude.{
  ℕ, ◌+◌, ◌≡◌, refl, List, [], ◌∷◌, Bool, true, false, ◌&&◌, not, arith, if◌then◌else◌,
}
use hardy.Eid.{Str, eq_str}
use hardy.Eid.Laws.{eq_str_iff}
use hardy.EidPatterns.Dtn.{Globs}
use hardy.Bpa.Routing.{
  Action, Entry, Patterns, RouteTable, Removed, report, retain_entries, retain_patterns,
  retain_routes, remove_by_source,
}

-- The number of entries with a source
unfoldable count_entries : Str → List Entry → ℕ
count_entries s [] = 0
count_entries s (e ∷ es) =
    let rest = count_entries s es in if eq_str e.source s then rest + 1 else rest

abbrev is_nil {ℓ} : {A : Type ℓ} → List A → Bool
is_nil [] = true
is_nil (x ∷ xs) = false

report-count : (a : Action) (r : Removed) → (report a r).removed_count ≡ r.removed_count + 1
unfolding report
report-count a r = ground arith

entries-count :
    (source : Str) (es : List Entry) (r : Removed)
    → (retain_entries source es r).1.removed_count ≡ r.removed_count + count_entries source es
unfolding retain_entries count_entries
entries-count source [] r = omega arith
entries-count source (e ∷ es) r = ground (
  arith,
  entries-count source es r,
  entries-count source es (report e.action r),
  report-count e.action r,
)

entries-none :
    (source : Str) (es : List Entry) (r : Removed)
    → count_entries source (retain_entries source es r).0 ≡ 0
unfolding retain_entries count_entries
entries-none source [] r = refl
entries-none source (e ∷ es) r =
    ground (arith, entries-none source es r, entries-none source es (report e.action r))

not_both : (a s t : Str) → eq_str a s ≡ true → eq_str t s ≡ false → eq_str a t ≡ false
not_both a s t h k = ground (arith, eq_str_iff a s, eq_str_iff t s, eq_str_iff a t)

entries-other :
    (source other : Str) (es : List Entry) (r : Removed)
    → eq_str other source ≡ false
    → count_entries other (retain_entries source es r).0 ≡ count_entries other es
unfolding retain_entries count_entries
entries-other source other [] r h = refl
entries-other source other (e ∷ es) r h = ground (
  arith,
  entries-other source other es r h,
  entries-other source other es (report e.action r) h,
  not_both e.source source other,
)

module _ {gl : Globs} where
  unfoldable count_patterns : Str → Patterns gl → ℕ
  unfolding count_entries
  count_patterns s [] = 0
  count_patterns s (x ∷ xs) = count_entries s x.1 + count_patterns s xs

  unfoldable pub count_routes : Str → List (ℕ × Patterns gl) → ℕ
  unfolding count_patterns
  count_routes s [] = 0
  count_routes s (x ∷ xs) = count_patterns s x.1 + count_routes s xs

  -- No set and no inner map is empty.
  unfoldable patterns_tidy : Patterns gl → Bool
  patterns_tidy [] = true
  patterns_tidy (x ∷ xs) = not (is_nil x.1) && patterns_tidy xs

  unfoldable pub is_tidy : List (ℕ × Patterns gl) → Bool
  unfolding patterns_tidy
  is_tidy [] = true
  is_tidy (x ∷ xs) = not (is_nil x.1) && (patterns_tidy x.1 && is_tidy xs)

  record PatternsKeep (source : Str) (l : Patterns gl) (r : Removed) : Type 0 where
    gone : count_patterns source (retain_patterns source l r).0 ≡ 0
    counted :
        (retain_patterns source l r).1.removed_count ≡ r.removed_count + count_patterns source l
    others :
        (other : Str)
        → eq_str other source ≡ false
        → count_patterns other (retain_patterns source l r).0 ≡ count_patterns other l
    tidy : patterns_tidy (retain_patterns source l r).0 ≡ true

  patterns-keep : (source : Str) (l : Patterns gl) (r : Removed) → PatternsKeep source l r
  unfolding retain_patterns count_patterns patterns_tidy count_entries
  patterns-keep source [] r = record {
    gone = refl;
    counted = omega arith;
    others = λ o h. refl;
    tidy = refl;
  }
  patterns-keep source (x ∷ xs) r =
      let k = patterns-keep source xs (retain_entries source x.1 r).1 in
      record {
        gone = ground (arith, k.gone, entries-none source x.1 r);
        counted = ground (arith, k.counted, entries-count source x.1 r);
        others = λ o h. ground (arith, k.others o h, entries-other source o x.1 r h);
        tidy = ground (arith, k.tidy);
      }

  record RoutesKeep (source : Str) (l : List (ℕ × Patterns gl)) (r : Removed) : Type 0 where
    gone : count_routes source (retain_routes source l r).0 ≡ 0
    counted : (retain_routes source l r).1.removed_count ≡ r.removed_count + count_routes source l
    others :
        (other : Str)
        → eq_str other source ≡ false
        → count_routes other (retain_routes source l r).0 ≡ count_routes other l
    tidy : is_tidy (retain_routes source l r).0 ≡ true

  routes-keep : (source : Str) (l : List (ℕ × Patterns gl)) (r : Removed) → RoutesKeep source l r
  unfolding retain_routes count_routes is_tidy count_patterns
  routes-keep source [] r = record {
    gone = refl;
    counted = omega arith;
    others = λ o h. refl;
    tidy = unfold patterns_tidy in refl;
  }
  routes-keep source (x ∷ xs) r =
      let p = patterns-keep source x.1 r in
      let k = routes-keep source xs (retain_patterns source x.1 r).1 in
      record {
        gone = ground (arith, k.gone, p.gone);
        counted = ground (arith, k.counted, p.counted);
        others = λ o h. ground (arith, k.others o h, p.others o h);
        tidy = ground (arith, k.tidy, p.tidy);
      }

  -- `remove_by_source` removes every entry with the source, counts them, keeps the number of entries
  -- that any other source has, and leaves no empty set and no empty map in the table.
  pub remove_by_source-removes :
      (source : Str) (t : RouteTable gl)
      → (count_routes source (remove_by_source source t).0.routes ≡ 0)
        × ((remove_by_source source t).1.removed_count ≡ count_routes source t.routes)
        × ((other : Str)
            → eq_str other source ≡ false
            → count_routes other (remove_by_source source t).0.routes ≡ count_routes other t.routes)
        × (is_tidy (remove_by_source source t).0.routes ≡ true)
  unfolding remove_by_source
  remove_by_source-removes source t =
      let k = routes-keep source t.routes _ in
      (k.gone, ground (arith, k.counted), λ o h. k.others o h, k.tidy)
