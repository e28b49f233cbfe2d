-- ===== src/Bpa/Channel/Keeps.antt =====
-- bpa/src/storage/channel.rs: each step keeps every pending bundle from being forgotten.
use mathlib.Core.Path.{subst}
use hardy.Prelude.{ℕ, ◌<◌, ◌≡◌, refl, List, [], ◌∷◌, Bool, true, false, ◌||◌, ◌==◌, arith}
use hardy.Bpa.Channel.{
  ChannelState, Storage, Sending, Poller, System, send_step, poll_step, close_step, recv_step,
  claim, sweep, elem, exchange, should_reopen,
}
use hardy.Bpa.Channel.Covered.{
  any-append, elem-without, not_elem-without, elem-remove, is_active, owes, saw_closing,
  poller_saw_closing, is_down, is_covered, Keeps,
}

module _ (storage : Storage) (has_expired : ℕ → Bool) (size : ℕ) where
  -- The invariant after a step of the poller, which stands at `p`
  poll-covers :
      (y : System) (owed : ℕ → Bool) (saw : Bool)
      → 0 < size
      → ((b : ℕ) → has_expired b ≡ false)
      → Keeps y owed saw
      → (p : Poller) → y.poller ≡ p
      → (b : ℕ) → elem b y.pending ≡ true
      → is_covered (poll_step storage has_expired size y) (owed b) b ≡ true
  unfolding poll_step exchange should_reopen is_covered is_down is_active poller_saw_closing
  poll-covers y owed saw positive fresh k (Poller.pushing (c ∷ rest) one) e b h =
      ground (arith, k.covers b h, fresh c, any-append y.buffer (c ∷ []) (λ x. x == b))
  poll-covers y owed saw positive fresh k (Poller.parked c rest one) e b h =
      ground (arith, k.covers b h, any-append y.buffer (c ∷ []) (λ x. x == b))
  poll-covers y owed saw positive fresh k (Poller.pushing [] one) e b h =
      ground (arith, k.covers b h)
  poll-covers y owed saw positive fresh k Poller.polling e b h =
      ground (arith, k.covers b h, storage.poll_pending-nil y.pending size positive)
  poll-covers y owed saw positive fresh k (Poller.exchanging c) e b h =
      ground (arith, k.covers b h, k.poller_down)
  poll-covers y owed saw positive fresh k p e b h = ground (arith, k.covers b h)

  poll-down :
      (y : System) (owed : ℕ → Bool) (saw : Bool)
      → Keeps y owed saw
      → is_down y ≡ true
      → is_down (poll_step storage has_expired size y) ≡ true
  unfolding poll_step exchange is_down should_reopen
  poll-down y owed saw k h = ground arith

  poll-poller_down :
      (y : System) (owed : ℕ → Bool) (saw : Bool)
      → Keeps y owed saw
      → poller_saw_closing (poll_step storage has_expired size y).poller ≡ true
      → is_down (poll_step storage has_expired size y) ≡ true
  unfolding poll_step exchange is_down should_reopen poller_saw_closing
  poll-poller_down y owed saw k h = ground (arith, k.poller_down)

  poll-pending : (y : System) → (poll_step storage has_expired size y).pending ≡ y.pending
  unfolding poll_step exchange
  poll-pending y = ground arith

  pub poll-Keeps :
      (y : System) (owed : ℕ → Bool) (saw : Bool)
      → 0 < size
      → ((b : ℕ) → has_expired b ≡ false)
      → Keeps y owed saw
      → Keeps (poll_step storage has_expired size y) owed saw
  poll-Keeps y owed saw positive fresh k = record {
    covers = λ b h.
        poll-covers y owed saw positive fresh k y.poller refl b
          (subst (λ l. elem b l ≡ true) (poll-pending y) h);
    sender_down = λ h. poll-down y owed saw k (k.sender_down h);
    poller_down = λ h. poll-poller_down y owed saw k h;
  }

-- A step of a call of `send_to`, seen through the two tests
pub record SendKeeps (size : ℕ) (y : System) (s : Sending) : Type 0 where
  pub still_covers :
      (b : ℕ) (o : Bool)
      → elem b (send_step size s y).0.pending ≡ true
      → (elem b y.pending ≡ true → is_covered y (owes b s || o) b ≡ true)
      → is_covered (send_step size s y).0 (owes b (send_step size s y).1 || o) b ≡ true
  pub still_down : is_down y ≡ true → is_down (send_step size s y).0 ≡ true
  pub seen : saw_closing (send_step size s y).1 ≡ true → is_down y ≡ true
  pub same_poller : (send_step size s y).0.poller ≡ y.poller

pub send-SendKeeps :
    (size : ℕ) (y : System) (s : Sending)
    → (saw_closing s ≡ true → is_down y ≡ true)
    → SendKeeps size y s
unfolding send_step is_covered is_down owes saw_closing exchange
send-SendKeeps size y (Sending.swapping c) g = record {
  still_covers = λ b o h k.
      ground (arith, k, any-append y.pending (c ∷ []) (λ x. x == b), elem-without b c y.others);
  still_down = λ h. ground arith;
  seen = λ h. ground arith;
  same_poller = ground arith;
}
send-SendKeeps size y (Sending.matching c ChannelState.opened) g = record {
  still_covers = λ b o h k. ground (arith, k, any-append y.buffer (c ∷ []) (λ x. x == b));
  still_down = λ h. ground arith;
  seen = λ h. ground arith;
  same_poller = ground arith;
}
send-SendKeeps size y s g = record {
  still_covers = λ b o h k. ground (arith, k, g);
  still_down = λ h. ground arith;
  seen = λ h. ground (arith, g);
  same_poller = ground arith;
}

other-Keeps :
    (y z : System) (owed : ℕ → Bool) (saw : Bool)
    → Keeps y owed saw
    → z.poller ≡ y.poller
    → (is_down y ≡ true → is_down z ≡ true)
    → ((b : ℕ)
        → elem b z.pending ≡ true
        → is_covered y (owed b) b ≡ true
        → is_covered z (owed b) b ≡ true)
    → ((b : ℕ) → elem b z.pending ≡ true → elem b y.pending ≡ true)
    → Keeps z owed saw
other-Keeps y z owed saw k e d c p = record {
  covers = λ b h. c b h (k.covers b (p b h));
  sender_down = λ h. d (k.sender_down h);
  poller_down = λ h. d (k.poller_down (subst (λ q. poller_saw_closing q ≡ true) e h));
}

pub close-Keeps :
    (y : System) (owed : ℕ → Bool) (saw : Bool) → Keeps y owed saw → Keeps (close_step y) owed saw
unfolding close_step is_down is_covered
close-Keeps y owed saw k =
    other-Keeps y (close_step y) owed saw k (ground arith) (λ h. ground arith)
      (λ b h c. ground arith) (λ b h. ground arith)

pub recv-Keeps :
    (y : System) (owed : ℕ → Bool) (saw : Bool) → Keeps y owed saw → Keeps (recv_step y) owed saw
unfolding recv_step is_down is_covered
recv-Keeps y owed saw k =
    other-Keeps y (recv_step y) owed saw k (ground arith) (λ h. ground arith)
      (λ b h c. moved b y.buffer refl c) (λ b h. ground arith)
  where
    moved :
        (b : ℕ) (l : List ℕ)
        → y.buffer ≡ l
        → is_covered y (owed b) b ≡ true
        → is_covered (recv_step y) (owed b) b ≡ true
    moved b [] e c = ground arith
    moved b (x ∷ l) e c = ground (arith, any-append y.handed (x ∷ []) (λ z. z == b))

pub claim-Keeps :
    (c : ℕ) (y : System) (owed : ℕ → Bool) (saw : Bool)
    → Keeps y owed saw
    → Keeps (claim c y) owed saw
unfolding claim is_down is_covered
claim-Keeps c y owed saw k =
    other-Keeps y (claim c y) owed saw k (ground arith) (λ h. ground arith)
      (λ b h k'. ground (arith, not_elem-without c y.pending, elem-remove b c y.handed))
      (λ b h. ground (arith, elem-without b c y.pending))

pub sweep-Keeps :
    (c : ℕ) (keep : Bool) (y : System) (owed : ℕ → Bool) (saw : Bool)
    → Keeps y owed saw
    → Keeps (sweep c keep y) owed saw
unfolding sweep is_down is_covered
sweep-Keeps c keep y owed saw k =
    other-Keeps y (sweep c keep y) owed saw k refl (λ h. ground arith) (λ b h k'. ground arith)
      (λ b h. elem-without b c y.pending h)

pub cancel-Keeps :
    (y : System) (owed : ℕ → Bool) (saw : Bool)
    → Keeps y owed saw
    → Keeps (record y { cancelled = true }) owed saw
unfolding is_down is_covered
cancel-Keeps y owed saw k =
    other-Keeps y (record y { cancelled = true }) owed saw k refl (λ h. ground arith)
      (λ b h k'. ground arith) (λ b h. h)
