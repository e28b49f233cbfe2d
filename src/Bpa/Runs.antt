-- ===== src/Bpa/Runs.antt =====
-- Runs of bpa/src on concrete states.
use hardy.Prelude.{
  ℕ, zero, suc, ◌<◌, ◌≡◌, refl, List, [], ◌∷◌, Bool, true, false, ◌||◌, none, some, arith, any,
  ◌==◌, take,
}
use hardy.Eid.{IpnNodeId, Eid, Service, is_admin_endpoint}
use hardy.Bpa.NodeIds.{
  NodeIds, service_is_admin_endpoint, resolve_eid, local_service_eid, is_local, get_admin_endpoint,
  resolve_eid-local, get_admin_endpoint-local,
}
use hardy.Bpa.Channel.{
  ChannelState, Storage, Sending, Poller, System, send_step, poll_step, channel, exchange,
  should_reopen, elem,
}
use hardy.Bpa.Channel.Steps.{Tasks, Step, Reachable}
use hardy.Bpa.Channel.Delivery.{waiting-delivered}
use hardy.Bpa.Channel.Covered.{is_running, is_down}
use hardy.Bpa.Channel.Closing.{
  run_send, run_send-returns, step-closing, congested-noted, is_notifying, is_restarting,
}

abbrev node : IpnNodeId
node = record { allocator_id = 0; node_number = 2 }

abbrev ids : NodeIds
ids = record { ipn = some node; dtn = none }

resolve_eid-local_example :
    (local_service_eid ids (Eid.ipn node 7) ≡ some (Eid.ipn node 7))
    × (is_local ids (Eid.ipn node 7) ≡ true)
    × (is_admin_endpoint (Eid.ipn node 7) ≡ service_is_admin_endpoint (Service.ipn 7))
unfolding resolve_eid
resolve_eid-local_example = resolve_eid-local ids (Service.ipn 7) (Eid.ipn node 7) refl

get_admin_endpoint-local_example :
    (is_local ids (Eid.ipn node 0) ≡ true) × (is_admin_endpoint (Eid.ipn node 0) ≡ true)
unfolding get_admin_endpoint
get_admin_endpoint-local_example =
    get_admin_endpoint-local ids (Eid.unknown 9 []) (Eid.ipn node 0) refl

-- A backend that sends the first bundles of its list
first_pending : (l : List ℕ) (n : ℕ) → 0 < n → take n l ≡ [] → l ≡ []
first_pending [] n h e = refl
first_pending (x ∷ l) zero h e = ground arith
first_pending (x ∷ l) (suc n) h e = cc

abbrev backend : Storage
backend = record { poll_pending = λ l n. take n l; poll_pending-nil = first_pending }

abbrev never : ℕ → Bool
never b = false

-- The poller finds nothing, and a call sends the bundle 9 to the buffer.
abbrev sent_tasks : Tasks
sent_tasks = record {
  system = record (channel [] []) {
    buffer = 9 ∷ [];
    permit = false;
    pending = 9 ∷ [];
    poller = Poller.waiting;
  };
  senders = Sending.sent ∷ [];
}

sent-Reachable : Reachable backend never 4 sent_tasks
unfolding channel poll_step send_step exchange should_reopen
sent-Reachable =
    let polls =
      Reachable.next
        (Reachable.next
          (Reachable.next
            (Reachable.next
              (Reachable.next
                (Reachable.next (Reachable.next (Reachable.start [] (9 ∷ [])) Step.poll) Step.poll)
                Step.poll)
              Step.poll)
            Step.poll)
          Step.poll)
        Step.poll in
    Reachable.next
      (Reachable.next
        (Reachable.next (Reachable.next polls (Step.call 9))
          (Step.send [] [] (Sending.swapping 9) refl))
        (Step.send [] [] (Sending.loading 9) refl))
      (Step.send [] [] (Sending.matching 9 ChannelState.opened) refl)

waiting-delivered_example :
    (elem 9 sent_tasks.system.buffer || elem 9 sent_tasks.system.handed) ≡ true
unfolding is_running is_down channel
waiting-delivered_example =
    waiting-delivered backend never 4 sent_tasks 9 (omega arith) (λ c. refl) sent-Reachable refl
      refl refl refl refl

run_send-returns_example :
    is_running (
      run_send 4 (Sending.swapping 9) (
        sent_tasks.system
        ∷ channel [] (9 ∷ [])
        ∷ sent_tasks.system
        ∷ sent_tasks.system
        ∷ sent_tasks.system
        ∷ []))
    ≡ false
run_send-returns_example =
    run_send-returns 4 9
      (sent_tasks.system
        ∷ channel [] (9 ∷ [])
        ∷ sent_tasks.system
        ∷ sent_tasks.system
        ∷ sent_tasks.system
        ∷ [])
      (omega arith)

abbrev closing_tasks : Tasks
closing_tasks = record sent_tasks {
  system = record sent_tasks.system { state = ChannelState.closing };
}

step-closing_example : (poll_step backend never 4 closing_tasks.system).state ≡ ChannelState.closing
step-closing_example =
    step-closing backend never 4 closing_tasks
      (record closing_tasks { system = poll_step backend never 4 closing_tasks.system }) refl
      Step.poll

-- The buffer is full, the poller drains, and a call that sends the bundle 8 congests the channel.
abbrev congested_tasks : Tasks
congested_tasks = record {
  system = record (channel [] []) {
    state = ChannelState.congested;
    permit = false;
    pending = 8 ∷ [];
    poller = Poller.polling;
  };
  senders = Sending.notifying 8 ∷ [];
}

congested-Reachable : Reachable backend never 4 congested_tasks
unfolding channel poll_step send_step exchange
congested-Reachable =
    let polls =
      Reachable.next
        (Reachable.next (Reachable.next (Reachable.start [] (8 ∷ [])) Step.poll) Step.poll)
        Step.poll in
    Reachable.next
      (Reachable.next
        (Reachable.next
          (Reachable.next (Reachable.next polls (Step.call 8))
            (Step.send [] [] (Sending.swapping 8) refl))
          (Step.send [] [] (Sending.loading 8) refl))
        (Step.send [] [] (Sending.matching 8 ChannelState.draining) refl))
      (Step.send [] [] (Sending.congesting 8) refl)

congested-noted_example :
    (congested_tasks.system.permit
      || (any congested_tasks.senders is_notifying || is_restarting congested_tasks.system.poller))
    ≡ true
congested-noted_example =
    congested-noted backend never 4 congested_tasks congested-Reachable (unfold channel in refl)

abbrev expired_8 : ℕ → Bool
expired_8 b = b == 8

abbrev polls : ℕ → System → System
polls zero y = y
polls (suc n) y = polls n (poll_step backend expired_8 1 y)

-- With a capacity of one and an expired bundle before a live one, the poller comes to wait, and the live
-- bundle is neither in the buffer nor notified of.
stalled_run :
    polls 8 (channel (8 ∷ 9 ∷ []) [])
    ≡ record (channel (8 ∷ 9 ∷ []) []) { permit = false; poller = Poller.waiting }
unfolding channel poll_step exchange should_reopen
stalled_run = refl
