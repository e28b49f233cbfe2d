-- ===== src/Bpa/Routing/Total.antt =====
-- bpa/src/routing/table.rs: the recursion of `find_recurse` ends, and its peers are sorted.
use hardy.Prelude.{
  ℕ, zero, suc, ◌+◌, ◌≤◌, ◌<◌, ◌≡◌, refl, List, [], ◌∷◌, ◌++◌, Bool, true, false, ◌||◌, not, Option,
  arith, length, if◌then◌else◌,
}
use hardy.Eid.{Eid, eq_eid}
use hardy.Eid.Laws.{eq_eid_iff}
use hardy.EidPatterns.Dtn.{Globs}
use hardy.Bpa.Routing.{RouteAction, Action, Entry, Patterns, RouteTable}
use hardy.Bpa.Routing.Find.{
  LookupResult, Lookup, answer, stuck, Scan, peers, stop, merge_sub, scan_action, scan_actions,
  scan_patterns, scan_routes, find_recurse, contains, entry_vias, pattern_vias, route_vias,
}

unfoldable is_stuck : Lookup → Bool
is_stuck stuck = true
is_stuck (answer _) = false

unfoldable stops_stuck : Scan → Bool
unfolding is_stuck
stops_stuck (stop r) = is_stuck r
stops_stuck (peers _) = false

contains-append : (v : Eid) (l r : List Eid) → contains v (l ++ r) ≡ (contains v l || contains v r)
contains-append v [] r = refl
contains-append v (x ∷ l) r = ground (arith, contains-append v l r)

-- The recursive call is no loop of its own for the targets of a list.
abbrev Calls : (Eid → Lookup) → Bool → List Eid → Type 0
Calls sub inserted vias =
    (v : Eid) → inserted ≡ true → contains v vias ≡ true → is_stuck (sub v) ≡ false

action-Calls :
    (sub : Eid → Lookup) (to : Eid) (reflects inserted : Bool) (e : Entry) (es : List Entry)
    (ps : List (ℕ × Eid))
    → Calls sub inserted (entry_vias (e ∷ es))
    → stops_stuck (scan_action sub to reflects inserted e.action ps) ≡ false
unfolding scan_action stops_stuck is_stuck merge_sub entry_vias
action-Calls sub to reflects inserted e es ps c = split e.action refl
  where
    split :
        (a : Action)
        → e.action ≡ a
        → stops_stuck (scan_action sub to reflects inserted a ps) ≡ false
    split (Action.route (RouteAction.via v)) q = ground (arith, c v, q, eq_eid_iff v v)
    split a q = ground arith

rest-Calls :
    (sub : Eid → Lookup) (inserted : Bool) (e : Entry) (es : List Entry)
    → Calls sub inserted (entry_vias (e ∷ es))
    → Calls sub inserted (entry_vias es)
unfolding entry_vias
rest-Calls sub inserted e es c v i h = ground (arith, c v)

actions-Calls :
    (sub : Eid → Lookup) (to : Eid) (reflects inserted : Bool) (es : List Entry)
    (ps : List (ℕ × Eid))
    → Calls sub inserted (entry_vias es)
    → stops_stuck (scan_actions sub to reflects inserted es ps) ≡ false
unfolding scan_actions stops_stuck is_stuck
actions-Calls sub to reflects inserted [] ps c = refl
actions-Calls sub to reflects inserted (e ∷ es) ps c =
    split (scan_action sub to reflects inserted e.action ps) refl
      (action-Calls sub to reflects inserted e es ps c)
      (λ qs. actions-Calls sub to reflects inserted es qs (rest-Calls sub inserted e es c))
  where
    split :
        (s : Scan)
        → scan_action sub to reflects inserted e.action ps ≡ s
        → stops_stuck (scan_action sub to reflects inserted e.action ps) ≡ false
        → ((qs : List (ℕ × Eid))
            → stops_stuck (scan_actions sub to reflects inserted es qs) ≡ false)
        → stops_stuck (scan_actions sub to reflects inserted (e ∷ es) ps) ≡ false
    split (stop r) q f k = ground (arith, q, f)
    split (peers qs) q f k = ground (arith, q, k qs)

module _ {gl : Globs} where
  patterns-Calls :
      (sub : Eid → Lookup) (to : Eid) (reflects inserted : Bool) (l : Patterns gl)
      → Calls sub inserted (pattern_vias l)
      → is_stuck (scan_patterns sub to reflects inserted l) ≡ false
  unfolding scan_patterns is_stuck pattern_vias stops_stuck
  patterns-Calls sub to reflects inserted [] c = refl
  patterns-Calls sub to reflects inserted (x ∷ xs) c = ground (
    arith,
    actions-Calls sub to reflects inserted x.1 []
        (λ v i h. c v i (ground (arith, h, contains-append v (entry_vias x.1) (pattern_vias xs)))),
    patterns-Calls sub to reflects inserted xs
        (λ v i h. c v i (ground (arith, h, contains-append v (entry_vias x.1) (pattern_vias xs)))),
  )

  routes-Calls :
      (sub : Eid → Lookup) (to : Eid) (reflects inserted : Bool) (l : List (ℕ × Patterns gl))
      → Calls sub inserted (route_vias l)
      → is_stuck (scan_routes sub to reflects inserted l) ≡ false
  unfolding scan_routes is_stuck route_vias
  routes-Calls sub to reflects inserted [] c = refl
  routes-Calls sub to reflects inserted (x ∷ xs) c = ground (
    arith,
    patterns-Calls sub to reflects inserted x.1
        (λ v i h. c v i (ground (arith, h, contains-append v (pattern_vias x.1) (route_vias xs)))),
    routes-Calls sub to reflects inserted xs
        (λ v i h. c v i (ground (arith, h, contains-append v (pattern_vias x.1) (route_vias xs)))),
  )

-- The targets that the trail does not hold
unfoldable fresh : List Eid → List Eid → ℕ
fresh [] trail = 0
fresh (v ∷ vs) trail = let rest = fresh vs trail in if contains v trail then rest else suc rest

fresh-le : (vs trail : List Eid) (to : Eid) → fresh vs (to ∷ trail) ≤ fresh vs trail
unfolding fresh
fresh-le [] trail to = omega arith
fresh-le (v ∷ vs) trail to = ground (arith, fresh-le vs trail to)

same-contains :
    (v to : Eid) (trail : List Eid)
    → eq_eid v to ≡ true
    → contains to trail ≡ false
    → contains v trail ≡ false
same-contains v to trail e h = ground (arith, eq_eid_iff v to, e, h)

fresh-lt :
    (vs trail : List Eid) (to : Eid)
    → contains to vs ≡ true
    → contains to trail ≡ false
    → fresh vs (to ∷ trail) < fresh vs trail
unfolding fresh
fresh-lt [] trail to h k = cc
fresh-lt (v ∷ vs) trail to h k = ground (
  arith,
  fresh-le vs trail to,
  fresh-lt vs trail to,
  same-contains v to trail,
  eq_eid_iff v to,
  eq_eid_iff to v,
)

module _ {gl : Globs} where
  -- A step of the fuel for each target that the trail does not hold, and one for an endpoint that is
  -- no target
  need : RouteTable gl → Eid → List Eid → ℕ
  need t to trail =
      fresh (route_vias t.routes) trail + (if contains to (route_vias t.routes) then 0 else 1)

  find-answers :
      (fuel : ℕ) (t : RouteTable gl) (to : Eid) (reflects : Bool) (trail : List Eid)
      → need t to trail < fuel
      → is_stuck (find_recurse fuel t to reflects trail) ≡ false
  unfolding find_recurse need
  find-answers zero t to reflects trail h = ground arith
  find-answers (suc fuel) t to reflects trail h =
      routes-Calls (λ via. find_recurse fuel t via reflects (to ∷ trail)) to reflects
        (not (contains to trail)) t.routes
        (λ v i c. find-answers fuel t v reflects (to ∷ trail) (
          ground (
            arith,
            c,
            i,
            h,
            fresh-le (route_vias t.routes) trail to,
            fresh-lt (route_vias t.routes) trail to,
          )))

fresh-length : (vs trail : List Eid) → fresh vs trail ≤ length vs
unfolding fresh
fresh-length [] trail = omega arith
fresh-length (v ∷ vs) trail = ground (arith, fresh-length vs trail)

answered : (r : Lookup) → is_stuck r ≡ false → (a : Option LookupResult) × (r ≡ answer a)
unfolding is_stuck
answered (answer a) h = (a, refl)
answered stuck h = cc

module _ {gl : Globs} where
  -- The recursion of a lookup ends, for whatever routes, targets in a circle included: it never goes
  -- deeper than the number of the routes' targets and two more calls.
  pub find_recurse-answers :
      (t : RouteTable gl) (to : Eid) (reflects : Bool) (trail : List Eid)
      → (a : Option LookupResult) × (find_recurse
            (length (route_vias t.routes) + 2)
            t
            to
            reflects
            trail
          ≡ answer a)
  unfolding need
  find_recurse-answers t to reflects trail = answered _ (
      find-answers (length (route_vias t.routes) + 2) t to reflects trail
        (ground (arith, fresh-length (route_vias t.routes) trail)))
