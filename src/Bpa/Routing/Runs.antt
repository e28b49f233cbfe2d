-- ===== src/Bpa/Routing/Runs.antt =====
-- Runs of bpa/src/routing/table.rs on a table with a circle of routes.
use hardy.Prelude.{ℕ, ◌+◌, ◌≤◌, ◌≡◌, refl, List, [], ◌∷◌, true, false, Option, none, some, length}
use hardy.Eid.{Str, Eid, eq_str, eq_eid, eq_ipn}
use hardy.EidPatterns.Dtn.{Globs}
use hardy.EidPatterns.Ipn.Component
use hardy.EidPatterns.Ipn.Item as Ipn
use hardy.EidPatterns.Pattern.Item
use hardy.EidPatterns.Pattern.Item.{EidPatternItem}
use hardy.EidPatterns.Pattern.Union.{EidPattern, matches}
use hardy.Bpa.Routing.{RouteAction, InternalAction, Action, Entry, RouteTable, remove_by_source}
use hardy.Bpa.Routing.Find.{
  LookupResult, answer, merge_sub, scan_action, scan_actions, scan_patterns, scan_routes,
  find_recurse, selected, sorted_insert, insert_all, route_vias,
}
use hardy.Bpa.Routing.{Orders, Ordering, cmp_number}
use hardy.Bpa.Routing.Total.{find_recurse-answers}
use hardy.Bpa.Routing.Peers.{is_sorted, find_recurse-sorted}
use hardy.Bpa.Routing.Remove.{count_routes, is_tidy, remove_by_source-removes}

abbrev texts : Globs
texts = record { Pattern = Str; as_str = λ p. p; matches_with = λ p s o. false }

abbrev eid : ℕ → Eid
eid n = Eid.ipn (record { allocator_id = 0; node_number = n }) 0

abbrev node : ℕ → EidPattern texts
node n = EidPattern.set (EidPatternItem.ipn_pattern_item (Ipn.new 0 n none) ∷ [])

abbrev via : ℕ → Entry
via n = record { action = Action.route (RouteAction.via (eid n)); source = b'a' ∷ [] }

abbrev forward : ℕ → Entry
forward n = record { action = Action.internal (InternalAction.forward n); source = b'b' ∷ [] }

-- 2 goes via 3 and 4, 3 via 2 and to the peer 30, and 4 to the peer 20.
abbrev table : RouteTable texts
table = record {
  routes =
      (
        1,
        (node 2, via 3 ∷ via 4 ∷ [])
            ∷ (node 3, forward 30 ∷ via 2 ∷ [])
            ∷ (node 4, forward 20 ∷ [])
            ∷ [],
      )
      ∷ [];
  node_ids = record { ipn = none; dtn = none };
}

abbrev both_peers : List (ℕ × Eid)
both_peers = (20, eid 4) ∷ (30, eid 3) ∷ []

circle_run :
    find_recurse 5 table (eid 2) false [] ≡ answer (some (LookupResult.forward_ecmp both_peers))
unfolding find_recurse scan_routes scan_patterns scan_actions scan_action merge_sub insert_all
    sorted_insert selected matches Item.matches Ipn.matches Ipn.matches_at Ipn.new Component.matches
    eq_eid eq_ipn
circle_run = refl

find_recurse-answers_example :
    (a : Option LookupResult) × (find_recurse
        (length (route_vias table.routes) + 2)
        table
        (eid 2)
        false
        []
      ≡ answer a)
find_recurse-answers_example = find_recurse-answers table (eid 2) false []

find_recurse-sorted_example : (is_sorted both_peers ≡ true) × (2 ≤ length both_peers)
find_recurse-sorted_example = find_recurse-sorted 5 table (eid 2) false [] both_peers circle_run

remove_by_source-removes_example :
    (count_routes (b'a' ∷ []) (remove_by_source (b'a' ∷ []) table).0.routes ≡ 0)
    × ((remove_by_source (b'a' ∷ []) table).1.removed_count ≡ count_routes (b'a' ∷ []) table.routes)
    × ((other : Str)
        → eq_str other (b'a' ∷ []) ≡ false
        → count_routes other (remove_by_source (b'a' ∷ []) table).0.routes
          ≡ count_routes other table.routes)
    × (is_tidy (remove_by_source (b'a' ∷ []) table).0.routes ≡ true)
remove_by_source-removes_example = remove_by_source-removes (b'a' ∷ []) table

-- Orders that tell sources apart by their lengths, and eids and patterns not at all
abbrev orders : Orders texts
orders = record {
  cmp_eid = λ a b. Ordering.equal;
  cmp_reason = λ a b. Ordering.equal;
  cmp_str = λ a b. cmp_number (length a) (length b);
  cmp_pattern = λ a b. Ordering.equal;
}

abbrev empty : RouteTable texts
empty = record { routes = []; node_ids = record { ipn = none; dtn = none } }

abbrev inserted : RouteTable texts
inserted = record empty { routes = (7, (node 2, forward 1 ∷ []) ∷ []) ∷ [] }
