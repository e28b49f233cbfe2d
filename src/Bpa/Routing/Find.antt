-- ===== src/Bpa/Routing/Find.antt =====
-- bpa/src/routing/table.rs: the lookups.
use hardy.Prelude.{
  ℕ, zero, suc, List, [], ◌∷◌, ◌++◌, Bool, true, false, not, Option, none, some, leb, ltb, ◌==◌,
  any, if◌then◌else◌,
}
use hardy.Eid.{Eid, eq_eid}
use hardy.EidPatterns.Dtn.{Globs}
use hardy.EidPatterns.Pattern.Union.{EidPattern, matches, is_subset}
use hardy.Bpa.Routing.{RouteAction, InternalAction, Action, Entry, Patterns, RouteTable}

pub data LookupResult : Type 0 where
  admin_endpoint : LookupResult
  deliver : ℕ → LookupResult
  forward : ℕ → Eid → LookupResult
  forward_ecmp : List (ℕ × Eid) → LookupResult
  drop : Option ℕ → LookupResult
  reflect : LookupResult

-- What a lookup comes to; `stuck` is no value of the program: the fuel of the recursion ran out.
pub data Lookup : Type 0 where
  answer : Option LookupResult → Lookup
  stuck : Lookup

-- What the loop over the actions comes to: the peers, or a return from the function
pub data Scan : Type 0 where
  peers : List (ℕ × Eid) → Scan
  stop : Lookup → Scan

-- `sorted_insert`: the list stays sorted by the peer, and an earlier next hop stays.
unfoldable pub sorted_insert : List (ℕ × Eid) → ℕ → Eid → List (ℕ × Eid)
sorted_insert [] peer next_hop = (peer, next_hop) ∷ []
sorted_insert (x ∷ xs) peer next_hop =
    if ltb peer x.0
    then (peer, next_hop) ∷ x ∷ xs
    else if peer == x.0
    then x ∷ xs
    else x ∷ sorted_insert xs peer next_hop

unfoldable pub insert_all : List (ℕ × Eid) → List (ℕ × Eid) → List (ℕ × Eid)
unfolding sorted_insert
insert_all ps [] = ps
insert_all ps (x ∷ xs) = insert_all (sorted_insert ps x.0 x.1) xs

-- The match on the result of the recursive call
unfoldable pub merge_sub : List (ℕ × Eid) → Lookup → Scan
unfolding insert_all
merge_sub ps stuck = stop stuck
merge_sub ps (answer none) = peers ps
merge_sub ps (answer (some (LookupResult.forward peer next))) = peers (sorted_insert ps peer next)
merge_sub ps (answer (some (LookupResult.forward_ecmp sub))) = peers (insert_all ps sub)
merge_sub ps (answer (some other)) = stop (answer (some other))

-- The match on an action. `sub` is the recursive call, and `is_inserted` the test of the trail.
unfoldable pub scan_action : (Eid → Lookup) → Eid → Bool → Bool → Action → List (ℕ × Eid) → Scan
unfolding merge_sub sorted_insert
scan_action sub to reflects is_inserted (Action.route (RouteAction.drop reason)) ps =
    stop (answer (some (LookupResult.drop reason)))
scan_action sub to reflects is_inserted (Action.route RouteAction.reflect) ps =
    if reflects then stop (answer (some LookupResult.reflect)) else peers ps
scan_action sub to reflects is_inserted (Action.route (RouteAction.via via)) ps = elim is_inserted [
  | true ↦ merge_sub ps (sub via)
  | false ↦ peers ps
]
scan_action sub to reflects is_inserted (Action.internal InternalAction.admin_endpoint) ps =
    stop (answer (some LookupResult.admin_endpoint))
scan_action sub to reflects is_inserted (Action.internal (InternalAction.local service)) ps =
    stop (answer (some (LookupResult.deliver service)))
scan_action sub to reflects is_inserted (Action.internal (InternalAction.forward peer)) ps =
    peers (sorted_insert ps peer to)

unfoldable pub scan_actions :
    (Eid → Lookup) → Eid → Bool → Bool → List Entry → List (ℕ × Eid) → Scan
unfolding scan_action
scan_actions sub to reflects is_inserted [] ps = peers ps
scan_actions sub to reflects is_inserted (e ∷ es) ps =
    elim (scan_action sub to reflects is_inserted e.action ps) [
      | stop r ↦ stop r
      | peers qs ↦ scan_actions sub to reflects is_inserted es qs
    ]

-- The match on `peers.len()`
unfoldable pub selected : List (ℕ × Eid) → Option LookupResult
selected [] = none
selected (x ∷ []) = some (LookupResult.forward x.0 x.1)
selected ps = some (LookupResult.forward_ecmp ps)

-- `HashSet::contains`; an insertion succeeds where it is false.
abbrev pub contains : Eid → List Eid → Bool
contains e l = any l (λ x. eq_eid x e)

-- The targets of the routes of the table
unfoldable pub entry_vias : List Entry → List Eid
entry_vias [] = []
entry_vias (e ∷ es) = elim e.action [
  | Action.route (RouteAction.via to) ↦ to ∷ entry_vias es
  | _ ↦ entry_vias es
]

-- The inner loop of `find_service`
unfoldable pub find_local : List Entry → Option ℕ
find_local [] = none
find_local (e ∷ es) = elim e.action [
  | Action.internal (InternalAction.local s) ↦ some s
  | _ ↦ find_local es
]

module _ {gl : Globs} where
  -- The loop over the patterns of a priority. The list `peers` of the function is empty whenever the
  -- loop goes on behind the match on its length.
  unfoldable pub scan_patterns : (Eid → Lookup) → Eid → Bool → Bool → Patterns gl → Lookup
  unfolding scan_actions selected
  scan_patterns sub to reflects is_inserted [] = answer none
  scan_patterns sub to reflects is_inserted (x ∷ xs) =
      let rest = scan_patterns sub to reflects is_inserted xs in
      if matches x.0 to
      then elim (scan_actions sub to reflects is_inserted x.1 []) [
        | stop r ↦ r
        | peers ps ↦ elim (selected ps) [ some r ↦ answer (some r) | none ↦ rest ]
      ]
      else rest

  unfoldable pub scan_routes : (Eid → Lookup) → Eid → Bool → Bool → List (ℕ × Patterns gl) → Lookup
  unfolding scan_patterns
  scan_routes sub to reflects is_inserted [] = answer none
  scan_routes sub to reflects is_inserted (x ∷ xs) =
      let rest = scan_routes sub to reflects is_inserted xs in
      elim (scan_patterns sub to reflects is_inserted x.1) [
        | stuck ↦ stuck
        | answer none ↦ rest
        | answer (some r) ↦ answer (some r)
      ]

  unfoldable pub find_recurse : ℕ → RouteTable gl → Eid → Bool → List Eid → Lookup
  unfolding scan_routes
  find_recurse zero t to reflects trail = stuck
  find_recurse (suc fuel) t to reflects trail =
      scan_routes (λ via. find_recurse fuel t via reflects (to ∷ trail)) to reflects
        (not (contains to trail)) t.routes

  unfoldable pub pattern_vias : Patterns gl → List Eid
  unfolding entry_vias
  pattern_vias [] = []
  pattern_vias (x ∷ xs) = entry_vias x.1 ++ pattern_vias xs

  unfoldable pub route_vias : List (ℕ × Patterns gl) → List Eid
  unfolding pattern_vias
  route_vias [] = []
  route_vias (x ∷ xs) = pattern_vias x.1 ++ route_vias xs

  unfoldable pub service_of_patterns : Eid → Patterns gl → Option ℕ
  unfolding find_local
  service_of_patterns to [] = none
  service_of_patterns to (x ∷ xs) =
      let rest = service_of_patterns to xs in
      if matches x.0 to then elim (find_local x.1) [ some s ↦ some s | none ↦ rest ] else rest

  unfoldable pub service_of_routes : Eid → List (ℕ × Patterns gl) → Option ℕ
  unfolding service_of_patterns
  service_of_routes to [] = none
  service_of_routes to (x ∷ xs) = elim (service_of_patterns to x.1) [
    | some s ↦ some s
    | none ↦ service_of_routes to xs
  ]

  unfoldable pub find_service : RouteTable gl → Eid → Option ℕ
  unfolding service_of_routes
  find_service t to = service_of_routes to t.routes

  -- `impacted_vias`: the targets at a priority not below the given one, as the list of what is put in
  -- the set
  unfoldable pub vias_of_patterns : EidPattern gl → Patterns gl → List Eid
  unfolding entry_vias
  vias_of_patterns p [] = []
  vias_of_patterns p (x ∷ xs) =
      if is_subset x.0 p then entry_vias x.1 ++ vias_of_patterns p xs else vias_of_patterns p xs

  unfoldable pub impacted_vias : EidPattern gl → ℕ → List (ℕ × Patterns gl) → List Eid
  unfolding vias_of_patterns
  impacted_vias p priority [] = []
  impacted_vias p priority (x ∷ xs) =
      if leb priority x.0
      then vias_of_patterns p x.1 ++ impacted_vias p priority xs
      else impacted_vias p priority xs
