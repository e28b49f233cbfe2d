-- ===== src/Bpa/Routing/Peers.antt =====
-- bpa/src/routing/table.rs: the peers of a lookup are sorted, each once.
use hardy.Prelude.{
  ℕ, zero, suc, ◌≤◌, ◌<◌, ◌≡◌, refl, List, [], ◌∷◌, Bool, true, ◌&&◌, not, none, some, leb, ltb,
  arith, length,
}
use hardy.Eid.{Eid}
use hardy.EidPatterns.Dtn.{Globs}
use hardy.Bpa.Routing.{RouteAction, InternalAction, Action, Entry, Patterns, RouteTable}
use hardy.Bpa.Routing.Find.{
  LookupResult, Lookup, answer, stuck, Scan, peers, stop, merge_sub, scan_action, scan_actions,
  scan_patterns, scan_routes, find_recurse, contains, selected, sorted_insert, insert_all,
}

unfoldable starts_above : ℕ → List (ℕ × Eid) → Bool
starts_above n [] = true
starts_above n (x ∷ xs) = ltb n x.0

unfoldable pub is_sorted : List (ℕ × Eid) → Bool
unfolding starts_above
is_sorted [] = true
is_sorted (x ∷ xs) = starts_above x.0 xs && is_sorted xs

starts_above-sorted_insert :
    (n peer : ℕ) (next : Eid) (ps : List (ℕ × Eid))
    → n < peer
    → starts_above n ps ≡ true
    → starts_above n (sorted_insert ps peer next) ≡ true
unfolding starts_above sorted_insert
starts_above-sorted_insert n peer next [] h k = ground arith
starts_above-sorted_insert n peer next (x ∷ xs) h k = ground arith

sorted_insert-is_sorted :
    (ps : List (ℕ × Eid)) (peer : ℕ) (next : Eid)
    → is_sorted ps ≡ true
    → is_sorted (sorted_insert ps peer next) ≡ true
unfolding is_sorted sorted_insert
sorted_insert-is_sorted [] peer next h = unfold starts_above in refl
sorted_insert-is_sorted (x ∷ xs) peer next h =
    unfold starts_above in
    ground
      (arith, sorted_insert-is_sorted xs peer next, starts_above-sorted_insert x.0 peer next xs)

insert_all-is_sorted :
    (ps qs : List (ℕ × Eid)) → is_sorted ps ≡ true → is_sorted (insert_all ps qs) ≡ true
unfolding insert_all
insert_all-is_sorted ps [] h = h
insert_all-is_sorted ps (x ∷ xs) h =
    insert_all-is_sorted (sorted_insert ps x.0 x.1) xs (sorted_insert-is_sorted ps x.0 x.1 h)

-- Several peers are sorted, each once, and at least two.
unfoldable is_well : Lookup → Bool
is_well (answer (some (LookupResult.forward_ecmp ps))) = is_sorted ps && leb 2 (length ps)
is_well _ = true

unfoldable scans_well : Scan → Bool
unfolding is_well
scans_well (stop r) = is_well r
scans_well (peers ps) = is_sorted ps

merge_sub-scans_well :
    (ps : List (ℕ × Eid)) (r : Lookup) → is_sorted ps ≡ true → scans_well (merge_sub ps r) ≡ true
unfolding merge_sub scans_well is_well
merge_sub-scans_well ps stuck h = refl
merge_sub-scans_well ps (answer none) h = h
merge_sub-scans_well ps (answer (some (LookupResult.forward peer next))) h =
    sorted_insert-is_sorted ps peer next h
merge_sub-scans_well ps (answer (some (LookupResult.forward_ecmp sub))) h =
    insert_all-is_sorted ps sub h
merge_sub-scans_well ps (answer (some r)) h = refl

module _ (sub : Eid → Lookup) (to : Eid) (reflects inserted : Bool) where
  action-scans_well :
      (a : Action) (ps : List (ℕ × Eid))
      → is_sorted ps ≡ true
      → scans_well (scan_action sub to reflects inserted a ps) ≡ true
  unfolding scan_action scans_well is_well
  action-scans_well (Action.route (RouteAction.via v)) ps h =
      ground (arith, merge_sub-scans_well ps (sub v) h)
  action-scans_well (Action.internal (InternalAction.forward p)) ps h =
      sorted_insert-is_sorted ps p to h
  action-scans_well a ps h = ground arith

  actions-scans_well :
      (es : List Entry) (ps : List (ℕ × Eid))
      → is_sorted ps ≡ true
      → scans_well (scan_actions sub to reflects inserted es ps) ≡ true
  unfolding scan_actions scans_well
  actions-scans_well [] ps h = h
  actions-scans_well (e ∷ es) ps h =
      split (scan_action sub to reflects inserted e.action ps) refl
        (action-scans_well e.action ps h) (λ qs k. actions-scans_well es qs k)
    where
      split :
          (s : Scan)
          → scan_action sub to reflects inserted e.action ps ≡ s
          → scans_well (scan_action sub to reflects inserted e.action ps) ≡ true
          → ((qs : List (ℕ × Eid))
              → is_sorted qs ≡ true
              → scans_well (scan_actions sub to reflects inserted es qs) ≡ true)
          → scans_well (scan_actions sub to reflects inserted (e ∷ es) ps) ≡ true
      split (stop r) q f k = ground (arith, q, f)
      split (peers qs) q f k = ground (arith, q, f, k qs)

selected-is_well :
    (ps : List (ℕ × Eid)) → is_sorted ps ≡ true → is_well (answer (selected ps)) ≡ true
unfolding selected is_well
selected-is_well [] h = refl
selected-is_well (x ∷ []) h = refl
selected-is_well (x ∷ y ∷ ps) h = ground arith

module _ {gl : Globs} (sub : Eid → Lookup) (to : Eid) (reflects inserted : Bool) where
  patterns-is_well : (l : Patterns gl) → is_well (scan_patterns sub to reflects inserted l) ≡ true
  unfolding scan_patterns is_well scans_well
  patterns-is_well [] = refl
  patterns-is_well (x ∷ xs) =
      split (scan_actions sub to reflects inserted x.1 []) refl
        (actions-scans_well sub to reflects inserted x.1 [] (unfold is_sorted in refl))
        (patterns-is_well xs)
    where
      split :
          (s : Scan)
          → scan_actions sub to reflects inserted x.1 [] ≡ s
          → scans_well (scan_actions sub to reflects inserted x.1 []) ≡ true
          → is_well (scan_patterns sub to reflects inserted xs) ≡ true
          → is_well (scan_patterns sub to reflects inserted (x ∷ xs)) ≡ true
      split (stop r) q f k = ground (arith, q, f, k)
      split (peers ps) q f k = ground (arith, q, f, k, selected-is_well ps)

  routes-is_well :
      (l : List (ℕ × Patterns gl)) → is_well (scan_routes sub to reflects inserted l) ≡ true
  unfolding scan_routes is_well
  routes-is_well [] = refl
  routes-is_well (x ∷ xs) = ground (arith, patterns-is_well x.1, routes-is_well xs)

module _ {gl : Globs} where
  -- Where a lookup answers with several peers, they are in ascending order, each once, and at least two.
  pub find_recurse-sorted :
      (fuel : ℕ) (t : RouteTable gl) (to : Eid) (reflects : Bool) (trail : List Eid)
      (ps : List (ℕ × Eid))
      → find_recurse fuel t to reflects trail ≡ answer (some (LookupResult.forward_ecmp ps))
      → (is_sorted ps ≡ true) × (2 ≤ length ps)
  unfolding find_recurse is_well
  find_recurse-sorted zero t to reflects trail ps h = cc
  find_recurse-sorted (suc fuel) t to reflects trail ps h =
      let k =
        routes-is_well (λ via. find_recurse fuel t via reflects (to ∷ trail)) to reflects
          (not (contains to trail)) t.routes in
      (ground (arith, h, k), ground (arith, h, k))
