-- ===== src/Bpa/Channel/Covered.antt =====
-- bpa/src/storage/channel.rs: what keeps a pending bundle from being forgotten.
use hardy.Prelude.{ℕ, ◌≡◌, refl, List, [], ◌∷◌, ◌++◌, Bool, true, false, ◌||◌, any, ◌==◌, arith}
use hardy.Bpa.Channel.{ChannelState, Sending, Poller, System, elem, without, remove, eq_state}
use hardy.Bpa.Channel.Steps.{Tasks}

pub any-append {ℓ} :
    {A : Type ℓ} (l r : List A) (p : A → Bool) → any (l ++ r) p ≡ (any l p || any r p)
any-append [] r p = refl
any-append (x ∷ l) r p = ground (arith, any-append l r p)

pub elem-without : (b c : ℕ) (l : List ℕ) → elem b (without c l) ≡ true → elem b l ≡ true
elem-without b c [] h = h
elem-without b c (x ∷ l) h = ground (arith, elem-without b c l)

pub not_elem-without : (b : ℕ) (l : List ℕ) → elem b (without b l) ≡ false
not_elem-without b [] = refl
not_elem-without b (x ∷ l) = ground (arith, not_elem-without b l)

pub elem-remove :
    (b c : ℕ) (l : List ℕ) → elem b l ≡ true → (b == c) ≡ false → elem b (remove c l) ≡ true
elem-remove b c [] h n = cc
elem-remove b c (x ∷ l) h n = ground (arith, elem-remove b c l)

-- The poller will ask storage again.
unfoldable pub is_active : Poller → Bool
is_active Poller.entering = true
is_active (Poller.exchanging _) = true
is_active Poller.polling = true
is_active (Poller.pushing [] pushed_one) = pushed_one
is_active (Poller.pushing (_ ∷ _) _) = true
is_active (Poller.parked _ _ _) = true
is_active _ = false

-- A call of `send_to` that put the bundle in the queue and has yet to send it or to notify.
unfoldable pub owes : ℕ → Sending → Bool
owes b (Sending.loading c) = c == b
owes b (Sending.matching c _) = c == b
owes b (Sending.degrading c) = c == b
owes b (Sending.congesting c) = c == b
owes b (Sending.notifying c) = c == b
owes b _ = false

-- The call has not returned.
unfoldable pub is_running : Sending → Bool
is_running Sending.sent = false
is_running (Sending.send_error _) = false
is_running _ = true

pub not_owed : (l : List Sending) (b : ℕ) → any l is_running ≡ false → any l (owes b) ≡ false
unfolding owes is_running
not_owed [] b h = refl
not_owed (s ∷ l) b h = ground (arith, not_owed l b)

unfoldable pub saw_closing : Sending → Bool
saw_closing (Sending.matching _ ChannelState.closing) = true
saw_closing _ = false

unfoldable pub poller_saw_closing : Poller → Bool
poller_saw_closing (Poller.exchanging ChannelState.closing) = true
poller_saw_closing Poller.returned = true
poller_saw_closing _ = false

-- The channel was closed, or the store is shutting down.
unfoldable pub is_down : System → Bool
is_down y = eq_state y.state ChannelState.closing || (y.tx_is_closed || y.cancelled)

unfoldable pub is_covered : System → Bool → ℕ → Bool
unfolding is_active is_down
is_covered y owed b =
    elem b y.buffer
    || (elem b y.handed || (owed || (y.permit || (is_active y.poller || is_down y))))

-- What the tasks keep up, with the calls of `send_to` seen through the two tests on them.
pub record Keeps (y : System) (owed : ℕ → Bool) (saw : Bool) : Type 0 where
  pub covers : (b : ℕ) → elem b y.pending ≡ true → is_covered y (owed b) b ≡ true
  pub sender_down : saw ≡ true → is_down y ≡ true
  pub poller_down : poller_saw_closing y.poller ≡ true → is_down y ≡ true

abbrev pub Holds : Tasks → Type 0
Holds t = Keeps t.system (λ b. any t.senders (owes b)) (any t.senders saw_closing)
