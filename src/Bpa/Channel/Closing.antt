-- ===== src/Bpa/Channel/Closing.antt =====
-- bpa/src/storage/channel.rs: the end of a call, and the states `Closing` and `Congested`.
use mathlib.Core.Path.{subst}
use hardy.Prelude.{
  ℕ, ◌+◌, ◌≤◌, ◌≡◌, refl, sym, List, [], ◌∷◌, Bool, true, false, ◌||◌, ◌⊎◌, not, any, arith, length,
  some,
}
use hardy.Bpa.Channel.{
  ChannelState, Storage, Sending, Poller, System, send_step, poll_step, close_step, recv_step,
  claim, sweep, channel, eq_state, as_usize, from_usize, exchange, should_reopen,
}
use hardy.Bpa.Channel.Steps.{Tasks, Step, Reachable}
use hardy.Bpa.Channel.Covered.{is_running}
use hardy.Bpa.Channel.Delivery.{any_middle}

from_usize-as_usize : (s : ChannelState) → from_usize (as_usize s) ≡ some s
unfolding from_usize
from_usize-as_usize s = ground arith

-- What a call of `send_to` comes to, when its steps find the given systems.
unfoldable pub run_send : ℕ → Sending → List System → Sending
run_send size s [] = s
run_send size s (y ∷ ys) = run_send size (send_step size s y).1 ys

-- The steps that a call takes yet, at most
rank : Sending → ℕ
rank (Sending.swapping _) = 5
rank (Sending.loading _) = 4
rank (Sending.matching _ _) = 3
rank (Sending.degrading _) = 2
rank (Sending.congesting _) = 2
rank (Sending.notifying _) = 1
rank (Sending.refusing _) = 1
rank Sending.sent = 0
rank (Sending.send_error _) = 0

rank-send_step :
    (size : ℕ) (s : Sending) (y : System) (n : ℕ) → rank s ≤ n + 1 → rank (send_step size s y).1 ≤ n
unfolding rank send_step
rank-send_step size s y n h = ground arith

rank-run_send :
    (size : ℕ) (s : Sending) (ys : List System) → rank s ≤ length ys → rank (run_send size s ys) ≤ 0
unfolding run_send
rank-run_send size s [] h = h
rank-run_send size s (y ∷ ys) h =
    rank-run_send size (send_step size s y).1 ys
      (rank-send_step size s y (length ys) (omega (arith, h)))

running-rank : (s : Sending) → rank s ≤ 0 → is_running s ≡ false
unfolding rank is_running
running-rank s h = ground arith

-- A call of `send_to` never waits: it has returned after five steps of its own, whatever the other
-- tasks do between them.
pub run_send-returns :
    (size b : ℕ) (ys : List System)
    → 5 ≤ length ys
    → is_running (run_send size (Sending.swapping b) ys) ≡ false
unfolding rank
run_send-returns size b ys h =
    running-rank (run_send size (Sending.swapping b) ys)
      (rank-run_send size (Sending.swapping b) ys h)

-- The poller is about to set the state to `Draining`.
unfoldable pub is_restarting : Poller → Bool
is_restarting Poller.entering = true
is_restarting (Poller.exchanging _) = true
is_restarting _ = false

unfoldable pub is_notifying : Sending → Bool
is_notifying (Sending.notifying _) = true
is_notifying _ = false

unfoldable is_noted : System → Bool → Bool
unfolding is_restarting
is_noted y notifying =
    not (eq_state y.state ChannelState.congested)
    || (y.permit || (notifying || is_restarting y.poller))

record Noted (y : System) (notifying : Bool) : Type 0 where
  noted : is_noted y notifying ≡ true
  saw : y.poller ≡ Poller.exchanging ChannelState.closing → y.state ≡ ChannelState.closing

poll-Noted :
    (storage : Storage) (has_expired : ℕ → Bool) (size : ℕ) (y : System) (o : Bool) (p : Poller)
    → y.poller ≡ p
    → Noted y o
    → Noted (poll_step storage has_expired size y) o
unfolding poll_step exchange is_noted is_restarting
poll-Noted storage has_expired size y o p e k = record {
  noted = ground (arith, k.noted, k.saw);
  saw = λ h. ground (arith, k.saw);
}

send-Noted :
    (size : ℕ) (y : System) (o : Bool) (s : Sending)
    → Noted y (is_notifying s || o)
    → Noted (send_step size s y).0 (is_notifying (send_step size s y).1 || o)
unfolding send_step exchange is_noted is_restarting is_notifying
send-Noted size y o s k = record {
  noted = ground (arith, k.noted);
  saw = λ h. ground (arith, k.saw);
}

close-Noted : (y : System) (o : Bool) → Noted y o → Noted (close_step y) o
unfolding close_step is_noted
close-Noted y o k = record { noted = ground (arith, k.noted); saw = λ h. ground (arith, k.saw) }

-- A step that leaves the poller, the state and a set permit
same-Noted :
    (y z : System) (o : Bool)
    → z.poller ≡ y.poller
    → z.permit ≡ y.permit
    → (z.state ≡ y.state) ⊎ (z.state ≡ ChannelState.closing)
    → Noted y o
    → Noted z o
unfolding is_noted
same-Noted y z o e f g k = record {
  noted = ground (arith, k.noted);
  saw = λ h. ground (arith, k.saw);
}

module _ (storage : Storage) (has_expired : ℕ → Bool) (size : ℕ) where
  -- No step leaves the state `Closing`.
  pub step-closing :
      (t u : Tasks)
      → t.system.state ≡ ChannelState.closing
      → Step storage has_expired size t u
      → u.system.state ≡ ChannelState.closing
  unfolding send_step poll_step close_step recv_step claim sweep exchange should_reopen
  step-closing t _ h (Step.call b) = h
  step-closing t _ h (Step.send before after s e) = ground arith
  step-closing t _ h (Step.lost before after c e) = h
  step-closing t _ h (Step.requeued before after c e p) = h
  step-closing t _ h Step.poll = ground arith
  step-closing t _ h Step.close = ground arith
  step-closing t _ h Step.recv = ground arith
  step-closing t _ h (Step.claimed b) = ground arith
  step-closing t _ h (Step.swept b keep) = h
  step-closing t _ h Step.cancel = h

  step-Noted :
      (t u : Tasks)
      → Noted t.system (any t.senders is_notifying)
      → Step storage has_expired size t u
      → Noted u.system (any u.senders is_notifying)
  unfolding is_notifying
  step-Noted t _ k (Step.call b) = record { noted = k.noted; saw = k.saw }
  step-Noted t _ k (Step.send before after s e) =
      subst (Noted (send_step size s t.system).0)
        (sym (any_middle before after (send_step size s t.system).1 is_notifying))
        (send-Noted size t.system (any before is_notifying || any after is_notifying) s (
          subst (Noted t.system) (any_middle before after s is_notifying)
            (subst (λ l. Noted t.system (any l is_notifying)) e k)))
  step-Noted t _ k (Step.lost before after c e) =
      subst (Noted t.system) (sym (any_middle before after Sending.sent is_notifying)) (
        subst (Noted t.system) (any_middle before after (Sending.swapping c) is_notifying)
          (subst (λ l. Noted t.system (any l is_notifying)) e k))
  step-Noted t _ k (Step.requeued before after c e p) =
      subst (Noted t.system) (sym (any_middle before after (Sending.loading c) is_notifying)) (
        subst (Noted t.system) (any_middle before after (Sending.swapping c) is_notifying)
          (subst (λ l. Noted t.system (any l is_notifying)) e k))
  step-Noted t _ k Step.poll = poll-Noted storage has_expired size t.system _ t.system.poller refl k
  step-Noted t _ k Step.close = close-Noted t.system _ k
  step-Noted t _ k Step.recv =
      unfold recv_step in same-Noted t.system _ _ (ground arith) (ground arith) (ground arith) k
  step-Noted t _ k (Step.claimed b) =
      unfold claim in same-Noted t.system _ _ (ground arith) (ground arith) (ground arith) k
  step-Noted t _ k (Step.swept b keep) =
      unfold sweep in same-Noted t.system _ _ refl refl (ground arith) k
  step-Noted t _ k Step.cancel = same-Noted t.system _ _ refl refl (ground arith) k

  Reachable-Noted :
      (t : Tasks)
      → Reachable storage has_expired size t
      → Noted t.system (any t.senders is_notifying)
  unfolding channel is_noted
  Reachable-Noted _ (Reachable.start pending others) = record {
    noted = ground arith;
    saw = λ h. ground arith;
  }
  Reachable-Noted u (Reachable.next {t} r s) = step-Noted t u (Reachable-Noted t r) s

  -- In every interleaving: while the state is `Congested`, the poller has a notification to come, or is
  -- on its way to set the state to `Draining`.
  pub congested-noted :
      (t : Tasks)
      → Reachable storage has_expired size t
      → t.system.state ≡ ChannelState.congested
      → (t.system.permit || (any t.senders is_notifying || is_restarting t.system.poller)) ≡ true
  unfolding is_noted
  congested-noted t r h = ground (arith, (Reachable-Noted t r).noted)
