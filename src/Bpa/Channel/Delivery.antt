-- ===== src/Bpa/Channel/Delivery.antt =====
-- bpa/src/storage/channel.rs: no bundle that waits in storage is forgotten.
use mathlib.Core.Path.{subst}
use hardy.Prelude.{refl, ℕ, ◌<◌, ◌≡◌, sym, List, ◌∷◌, ◌++◌, Bool, true, false, ◌||◌, any, arith}
use hardy.Bpa.Channel.{Storage, Sending, Poller, System, send_step, channel, elem}
use hardy.Bpa.Channel.Steps.{Tasks, Step, Reachable}
use hardy.Bpa.Channel.Covered.{
  any-append, is_active, owes, is_running, not_owed, saw_closing, poller_saw_closing, is_down,
  is_covered, Holds,
}
use hardy.Bpa.Channel.Keeps.{
  poll-Keeps, send-SendKeeps, close-Keeps, recv-Keeps, claim-Keeps, sweep-Keeps, cancel-Keeps,
}

pub any_middle {ℓ} :
    {A : Type ℓ} (l r : List A) (x : A) (p : A → Bool)
    → any (l ++ (x ∷ r)) p ≡ (p x || (any l p || any r p))
any_middle l r x p = ground (arith, any-append l (x ∷ r) p)

senders-Holds :
    (size : ℕ) (y : System) (before after : List Sending) (s : Sending)
    → Holds (record { system = y; senders = before ++ (s ∷ after) })
    → Holds (record {
      system = (send_step size s y).0;
      senders = before ++ ((send_step size s y).1 ∷ after);
    })
senders-Holds size y before after s k =
    let x =
      send-SendKeeps size y s
        (λ h. k.sender_down (ground (arith, any_middle before after s saw_closing))) in
    let z : System × Sending = send_step size s y in
    record {
      covers = λ b h.
          subst (λ o. is_covered z.0 o b ≡ true) (sym (any_middle before after z.1 (owes b)))
            (x.still_covers b (any before (owes b) || any after (owes b)) h (λ h'.
              subst (λ o. is_covered y o b ≡ true) (any_middle before after s (owes b))
                (k.covers b h')));
      sender_down = λ h. x.still_down (
          ground (
            arith,
            k.sender_down,
            x.seen,
            any_middle before after z.1 saw_closing,
            any_middle before after s saw_closing,
          ));
      poller_down = λ h.
          x.still_down (k.poller_down (subst (λ q. poller_saw_closing q ≡ true) x.same_poller h));
    }

-- A call whose swap fails, or leaves the bundle where it is
swapped-Holds :
    (y : System) (before after : List Sending) (c : ℕ) (s : Sending)
    → saw_closing s ≡ false
    → Holds (record { system = y; senders = before ++ (Sending.swapping c ∷ after) })
    → Holds (record { system = y; senders = before ++ (s ∷ after) })
unfolding owes saw_closing is_covered
swapped-Holds y before after c s n k = record {
  covers = λ b h. ground (
    arith,
    any_middle before after (Sending.swapping c) (owes b),
    any_middle before after s (owes b),
    k.covers b h,
  );
  sender_down = λ h. ground (
    arith,
    any_middle before after (Sending.swapping c) saw_closing,
    any_middle before after s saw_closing,
    k.sender_down,
    n,
    h,
  );
  poller_down = k.poller_down;
}

module _ (storage : Storage) (has_expired : ℕ → Bool) (size : ℕ) where
  step-Holds :
      (t u : Tasks)
      → 0 < size
      → ((b : ℕ) → has_expired b ≡ false)
      → Holds t
      → Step storage has_expired size t u
      → Holds u
  unfolding owes saw_closing
  step-Holds t _ positive fresh k (Step.call b) = record {
    covers = k.covers;
    sender_down = k.sender_down;
    poller_down = k.poller_down;
  }
  step-Holds t _ positive fresh k (Step.send before after s e) =
      senders-Holds size t.system before after s
        (subst (λ l. Holds (record { system = t.system; senders = l })) e k)
  step-Holds t _ positive fresh k (Step.lost before after c e) =
      swapped-Holds t.system before after c Sending.sent refl
        (subst (λ l. Holds (record { system = t.system; senders = l })) e k)
  step-Holds t _ positive fresh k (Step.requeued before after c e p) =
      swapped-Holds t.system before after c (Sending.loading c) refl
        (subst (λ l. Holds (record { system = t.system; senders = l })) e k)
  step-Holds t _ positive fresh k Step.poll =
      poll-Keeps storage has_expired size t.system _ _ positive fresh k
  step-Holds t _ positive fresh k Step.close = close-Keeps t.system _ _ k
  step-Holds t _ positive fresh k Step.recv = recv-Keeps t.system _ _ k
  step-Holds t _ positive fresh k (Step.claimed b) = claim-Keeps b t.system _ _ k
  step-Holds t _ positive fresh k (Step.swept b keep) = sweep-Keeps b keep t.system _ _ k
  step-Holds t _ positive fresh k Step.cancel = cancel-Keeps t.system _ _ k

  Reachable-Holds :
      (t : Tasks)
      → 0 < size
      → ((b : ℕ) → has_expired b ≡ false)
      → Reachable storage has_expired size t
      → Holds t
  unfolding channel is_covered is_down poller_saw_closing
  Reachable-Holds _ positive fresh (Reachable.start pending others) = record {
    covers = λ b h. ground arith;
    sender_down = λ h. ground arith;
    poller_down = λ h. ground arith;
  }
  Reachable-Holds u positive fresh (Reachable.next {t} r s) =
      step-Holds t u positive fresh (Reachable-Holds t positive fresh r) s

  -- In every interleaving of the calls of `send_to`, the poller, the receiver, `close` and other tasks,
  -- when the capacity
  -- is not zero and no bundle expires: if the poller waits with no notification, every call has returned, and the
  -- channel is neither closed nor shut down, then each bundle that has the channel's status in storage
  -- is in the buffer, or the receiver has it and has not claimed it.
  pub waiting-delivered :
      (t : Tasks) (b : ℕ)
      → 0 < size
      → ((c : ℕ) → has_expired c ≡ false)
      → Reachable storage has_expired size t
      → t.system.poller ≡ Poller.waiting
      → t.system.permit ≡ false
      → any t.senders is_running ≡ false
      → is_down t.system ≡ false
      → elem b t.system.pending ≡ true
      → (elem b t.system.buffer || elem b t.system.handed) ≡ true
  unfolding is_covered is_active
  waiting-delivered t b positive fresh r waits silent quiet up h =
      let k = (Reachable-Holds t positive fresh r).covers b h in
      ground (arith, k, not_owed t.senders b quiet)
