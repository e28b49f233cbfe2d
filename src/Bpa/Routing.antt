-- ===== src/Bpa/Routing.antt =====
-- bpa/src/routing/table.rs and action.rs: the route table. A service is its id.
pub mod Find
pub mod Total
pub mod Peers
pub mod Remove
pub mod Insert
mod Runs
use hardy.Prelude.{
  ℕ, ◌+◌, List, [], ◌∷◌, ◌++◌, Bool, true, false, ◌&&◌, ◌||◌, not, Option, none, some, leb, ltb,
  ◌==◌, if◌then◌else◌,
}
use hardy.Eid.{Str, Eid, eq_str, eq_eid, is_null}
use hardy.EidPatterns.Dtn.{Globs}
use hardy.EidPatterns.Pattern.Union.{EidPattern, into_atoms}
use hardy.Bpa.NodeIds.{NodeIds, is_local}

pub data RouteAction : Type 0 where
  via : Eid → RouteAction
  reflect : RouteAction
  drop : Option ℕ → RouteAction

pub data InternalAction : Type 0 where
  forward : ℕ → InternalAction
  local : ℕ → InternalAction
  admin_endpoint : InternalAction

pub data Action : Type 0 where
  route : RouteAction → Action
  internal : InternalAction → Action

pub record Entry : Type 0 where
  pub action : Action
  pub source : Str

pub data Ordering : Type 0 where
  less equal greater : Ordering

-- The derived orders of `Eid`, of `Option<ReasonCode>` and of patterns, and the order of strings
pub record Orders (gl : Globs) : Type 0 where
  pub cmp_eid : Eid → Eid → Ordering
  pub cmp_reason : Option ℕ → Option ℕ → Ordering
  pub cmp_str : Str → Str → Ordering
  pub cmp_pattern : EidPattern gl → EidPattern gl → Ordering

abbrev pub cmp_number : ℕ → ℕ → Ordering
cmp_number a b = if ltb a b then less else if a == b then equal else greater

-- `Ordering::then_with`
abbrev pub then_with : Ordering → Ordering → Ordering
then_with equal o = o
then_with less o = less
then_with greater o = greater

-- The tables are sorted maps, as lists of their entries: by priority, by pattern, and the entries.
abbrev pub Patterns : Globs → Type 0
Patterns gl = List (EidPattern gl × List Entry)

pub record RouteTable (gl : Globs) : Type 0 where
  pub routes : List (ℕ × Patterns gl)
  pub node_ids : NodeIds

pub data InsertError : Type 0 where
  null_next_hop : InsertError
  via_own_node : Eid → InsertError

pub data Inserted (gl : Globs) : Type 0 where
  ok : RouteTable gl → Bool → Inserted gl
  err : InsertError → Inserted gl

module _ {gl : Globs} (o : Orders gl) where
  unfoldable pub cmp_route : RouteAction → RouteAction → Ordering
  cmp_route (RouteAction.drop a) (RouteAction.drop b) = o.cmp_reason a b
  cmp_route (RouteAction.drop a) _ = less
  cmp_route RouteAction.reflect (RouteAction.drop b) = greater
  cmp_route RouteAction.reflect RouteAction.reflect = equal
  cmp_route RouteAction.reflect (RouteAction.via b) = less
  cmp_route (RouteAction.via a) (RouteAction.via b) = o.cmp_eid a b
  cmp_route (RouteAction.via a) _ = greater

  unfoldable pub cmp_internal : InternalAction → InternalAction → Ordering
  cmp_internal InternalAction.admin_endpoint InternalAction.admin_endpoint = equal
  cmp_internal InternalAction.admin_endpoint _ = less
  cmp_internal (InternalAction.local a) InternalAction.admin_endpoint = greater
  cmp_internal (InternalAction.local a) (InternalAction.local b) = cmp_number a b
  cmp_internal (InternalAction.local a) (InternalAction.forward b) = less
  cmp_internal (InternalAction.forward a) (InternalAction.forward b) = cmp_number a b
  cmp_internal (InternalAction.forward a) _ = greater

  unfoldable pub rank : Action → ℕ
  rank (Action.route (RouteAction.drop _)) = 0
  rank (Action.internal InternalAction.admin_endpoint) = 1
  rank (Action.internal (InternalAction.local _)) = 2
  rank (Action.internal (InternalAction.forward _)) = 3
  rank (Action.route RouteAction.reflect) = 4
  rank (Action.route (RouteAction.via _)) = 5

  unfoldable pub cmp_same_rank : Action → Action → Ordering
  unfolding cmp_route cmp_internal
  cmp_same_rank (Action.route a) (Action.route b) = cmp_route a b
  cmp_same_rank (Action.internal a) (Action.internal b) = cmp_internal a b
  cmp_same_rank _ _ = equal

  unfoldable pub cmp_action : Action → Action → Ordering
  unfolding cmp_same_rank
  cmp_action a b = then_with (cmp_number (rank a) (rank b)) (cmp_same_rank a b)

  unfoldable pub cmp_entry : Entry → Entry → Ordering
  unfolding cmp_action
  cmp_entry a b = then_with (cmp_action a.action b.action) (o.cmp_str a.source b.source)

  -- `BTreeSet::insert`: the set, and whether the entry is new
  unfoldable pub set_insert : Entry → List Entry → List Entry × Bool
  unfolding cmp_entry
  set_insert e [] = (e ∷ [], true)
  set_insert e (x ∷ xs) = elim (cmp_entry e x) [
    | less ↦ (e ∷ x ∷ xs, true)
    | equal ↦ (x ∷ xs, false)
    | greater ↦ (let r = set_insert e xs in (x ∷ r.0, r.1))
  ]

  -- `BTreeSet::remove`
  unfoldable pub set_remove : Entry → List Entry → List Entry × Bool
  unfolding cmp_entry
  set_remove e [] = ([], false)
  set_remove e (x ∷ xs) = elim (cmp_entry e x) [
    | less ↦ (x ∷ xs, false)
    | equal ↦ (xs, true)
    | greater ↦ (let r = set_remove e xs in (x ∷ r.0, r.1))
  ]

  -- The entry of the inner map at a pattern
  unfoldable pub insert_pattern : EidPattern gl → Entry → Patterns gl → Patterns gl × Bool
  unfolding set_insert
  insert_pattern p e [] = ((p, e ∷ []) ∷ [], true)
  insert_pattern p e (x ∷ xs) = elim (o.cmp_pattern p x.0) [
    | less ↦ ((p, e ∷ []) ∷ x ∷ xs, true)
    | equal ↦ (let r = set_insert e x.1 in ((x.0, r.0) ∷ xs, r.1))
    | greater ↦ (let r = insert_pattern p e xs in (x ∷ r.0, r.1))
  ]

  -- The entry of the outer map at a priority
  unfoldable pub insert_route :
      ℕ → EidPattern gl → Entry → List (ℕ × Patterns gl) → List (ℕ × Patterns gl) × Bool
  unfolding insert_pattern
  insert_route n p e [] = ((n, (p, e ∷ []) ∷ []) ∷ [], true)
  insert_route n p e (x ∷ xs) = elim (cmp_number n x.0) [
    | less ↦ ((n, (p, e ∷ []) ∷ []) ∷ x ∷ xs, true)
    | equal ↦ (let r = insert_pattern p e x.1 in ((x.0, r.0) ∷ xs, r.1))
    | greater ↦ (let r = insert_route n p e xs in (x ∷ r.0, r.1))
  ]

  -- The loop over the atoms of the pattern
  unfoldable pub insert_atoms :
      List (EidPattern gl)
      → Entry
      → ℕ
      → List (ℕ × Patterns gl)
      → Bool
      → List (ℕ × Patterns gl) × Bool
  unfolding insert_route
  insert_atoms [] e n routes inserted = (routes, inserted)
  insert_atoms (p ∷ ps) e n routes inserted =
      let r = insert_route n p e routes in insert_atoms ps e n r.0 (inserted || r.1)

  -- The checks on the next hop
  unfoldable pub next_hop_error : NodeIds → Action → Option InsertError
  next_hop_error ids (Action.route (RouteAction.via next_hop)) =
      if is_null next_hop
      then some null_next_hop
      else if is_local ids next_hop
      then some (via_own_node next_hop)
      else none
  next_hop_error ids _ = none

  unfoldable pub insert : EidPattern gl → Entry → ℕ → RouteTable gl → Inserted gl
  insert pattern e priority t = elim (next_hop_error t.node_ids e.action) [
    | some x ↦ err x
    | none ↦
        let r = insert_atoms (into_atoms pattern) e priority t.routes false in
        ok (record t { routes = r.0 }) r.1
  ]

  -- The removal from the inner map, with the emptied set
  unfoldable pub remove_pattern : EidPattern gl → Entry → Patterns gl → Patterns gl × Bool
  unfolding set_remove
  remove_pattern p e [] = ([], false)
  remove_pattern p e (x ∷ xs) = elim (o.cmp_pattern p x.0) [
    | less ↦ (x ∷ xs, false)
    | equal ↦
        let r = set_remove e x.1 in
        elim r.0 [ [] ↦ (if r.1 then xs else x ∷ xs, r.1) | _ ∷ _ ↦ ((x.0, r.0) ∷ xs, r.1) ]
    | greater ↦ (let r = remove_pattern p e xs in (x ∷ r.0, r.1))
  ]

  unfoldable pub remove_route :
      ℕ → EidPattern gl → Entry → List (ℕ × Patterns gl) → List (ℕ × Patterns gl) × Bool
  unfolding remove_pattern
  remove_route n p e [] = ([], false)
  remove_route n p e (x ∷ xs) = elim (cmp_number n x.0) [
    | less ↦ (x ∷ xs, false)
    | equal ↦
        let r = remove_pattern p e x.1 in
        elim r.0 [ [] ↦ (if r.1 then xs else x ∷ xs, r.1) | _ ∷ _ ↦ ((x.0, r.0) ∷ xs, r.1) ]
    | greater ↦ (let r = remove_route n p e xs in (x ∷ r.0, r.1))
  ]

  unfoldable pub remove_atoms :
      List (EidPattern gl)
      → Entry
      → ℕ
      → List (ℕ × Patterns gl)
      → Bool
      → List (ℕ × Patterns gl) × Bool
  unfolding remove_route
  remove_atoms [] e n routes removed = (routes, removed)
  remove_atoms (p ∷ ps) e n routes removed =
      let r = remove_route n p e routes in remove_atoms ps e n r.0 (removed || r.1)

  unfoldable pub remove : EidPattern gl → Entry → ℕ → RouteTable gl → RouteTable gl × Bool
  remove pattern e priority t =
      let r = remove_atoms (into_atoms pattern) e priority t.routes false in
      (record t { routes = r.0 }, r.1)

-- What `remove_by_source` reports, with the sets as lists of what was put in
pub record Removed : Type 0 where
  pub vias : List Eid
  pub forward_peers : List ℕ
  pub has_local : Bool
  pub removed_count : ℕ

-- The report with one more entry. A count of entries in memory does not overflow a `u64`.
unfoldable pub report : Action → Removed → Removed
report (Action.route (RouteAction.via to)) r = record r {
  vias = to ∷ r.vias;
  removed_count = r.removed_count + 1;
}
report (Action.internal (InternalAction.forward peer)) r = record r {
  forward_peers = peer ∷ r.forward_peers;
  removed_count = r.removed_count + 1;
}
report (Action.internal (InternalAction.local _)) r = record r {
  has_local = true;
  removed_count = r.removed_count + 1;
}
report _ r = record r { removed_count = r.removed_count + 1 }

-- The three nested `retain`s
unfoldable pub retain_entries : Str → List Entry → Removed → List Entry × Removed
unfolding report eq_str
retain_entries source [] r = ([], r)
retain_entries source (e ∷ es) r =
    if eq_str e.source source
    then retain_entries source es (report e.action r)
    else (let k = retain_entries source es r in (e ∷ k.0, k.1))

module _ {gl : Globs} where
  unfoldable pub retain_patterns : Str → Patterns gl → Removed → Patterns gl × Removed
  unfolding retain_entries
  retain_patterns source [] r = ([], r)
  retain_patterns source (x ∷ xs) r =
      let k = retain_entries source x.1 r in
      let rest = retain_patterns source xs k.1 in
      elim k.0 [ [] ↦ rest | _ ∷ _ ↦ ((x.0, k.0) ∷ rest.0, rest.1) ]

  unfoldable pub retain_routes :
      Str → List (ℕ × Patterns gl) → Removed → List (ℕ × Patterns gl) × Removed
  unfolding retain_patterns
  retain_routes source [] r = ([], r)
  retain_routes source (x ∷ xs) r =
      let k = retain_patterns source x.1 r in
      let rest = retain_routes source xs k.1 in
      elim k.0 [ [] ↦ rest | _ ∷ _ ↦ ((x.0, k.0) ∷ rest.0, rest.1) ]

  unfoldable pub remove_by_source : Str → RouteTable gl → RouteTable gl × Removed
  unfolding retain_routes
  remove_by_source source t =
      let r =
        retain_routes source t.routes
          (record { vias = []; forward_peers = []; has_local = false; removed_count = 0 }) in
      (record t { routes = r.0 }, r.1)
