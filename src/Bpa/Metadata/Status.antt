-- ===== src/Bpa/Metadata/Status.antt =====
-- bpa/src/bundle/status.rs: `BundleStatus`. Creation timestamps are numbers.
use hardy.Prelude.{ℕ, ◌≡◌, ◌↔◌, Bool, true, false, ◌&&◌, ◌==◌, arith}
use hardy.Eid.{Eid, eq_eid}
use hardy.Eid.Laws.{eq_eid_iff}

pub data BundleStatus : Type 0 where
  new dispatch_pending dispatching : BundleStatus
  forward_pending : ℕ → ℕ → Eid → BundleStatus
  forward_ack_pending : ℕ → BundleStatus
  deliver_pending : Eid → BundleStatus
  delivery_ack_pending : Eid → BundleStatus
  adu_fragment : Eid → ℕ → BundleStatus
  waiting : BundleStatus
  waiting_for_service : Eid → BundleStatus

-- The derived `PartialEq`
unfoldable pub eq_status : BundleStatus → BundleStatus → Bool
eq_status new new = true
eq_status dispatch_pending dispatch_pending = true
eq_status dispatching dispatching = true
eq_status (forward_pending p q n) (forward_pending p' q' n') = p == p' && (q == q' && eq_eid n n')
eq_status (forward_ack_pending p) (forward_ack_pending p') = p == p'
eq_status (deliver_pending s) (deliver_pending s') = eq_eid s s'
eq_status (delivery_ack_pending s) (delivery_ack_pending s') = eq_eid s s'
eq_status (adu_fragment s t) (adu_fragment s' t') = eq_eid s s' && t == t'
eq_status waiting waiting = true
eq_status (waiting_for_service s) (waiting_for_service s') = eq_eid s s'
eq_status _ _ = false

unfoldable pub defers_expiry : BundleStatus → Bool
defers_expiry (forward_ack_pending _) = true
defers_expiry (delivery_ack_pending _) = true
defers_expiry _ = false

unfoldable pub same_queue : BundleStatus → BundleStatus → Bool
unfolding eq_status
same_queue (forward_pending a b _) (forward_pending x y _) = a == x && b == y
same_queue s other = eq_status s other

pub eq_status_iff : (a b : BundleStatus) → (eq_status a b ≡ true) ↔ (a ≡ b)
unfolding eq_status
eq_status_iff (forward_pending p q n) (forward_pending p' q' n') = ground (arith, eq_eid_iff n n')
eq_status_iff (deliver_pending s) (deliver_pending s') = ground (arith, eq_eid_iff s s')
eq_status_iff (delivery_ack_pending s) (delivery_ack_pending s') = ground (arith, eq_eid_iff s s')
eq_status_iff (adu_fragment s t) (adu_fragment s' t') = ground (arith, eq_eid_iff s s')
eq_status_iff (waiting_for_service s) (waiting_for_service s') = ground (arith, eq_eid_iff s s')
eq_status_iff _ _ = ground arith
