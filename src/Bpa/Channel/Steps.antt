-- ===== src/Bpa/Channel/Steps.antt =====
-- The tasks around a channel of bpa/src/storage/channel.rs, in any interleaving.
use hardy.Prelude.{ℕ, ◌≡◌, List, [], ◌∷◌, ◌++◌, Bool, true}
use hardy.Bpa.Channel.{
  Storage, Sending, System, send_step, poll_step, close_step, recv_step, claim, sweep, channel,
  elem,
}

-- The system with the calls of `send_to` that were made
pub record Tasks : Type 0 where
  pub system : System
  pub senders : List Sending

module _ (storage : Storage) (has_expired : ℕ → Bool) (cap : ℕ) where
  pub data Step (t : Tasks) : Tasks → Type 0 where
    call : (b : ℕ) → Step t (record t { senders = Sending.swapping b ∷ t.senders })
    send :
        (before after : List Sending) (s : Sending)
        → t.senders ≡ before ++ (s ∷ after)
        → Step t (record {
          system = (send_step cap s t.system).0;
          senders = before ++ ((send_step cap s t.system).1 ∷ after);
        })
    -- The sender's copy of the bundle does not have the status that the store has.
    lost :
        (before after : List Sending) (b : ℕ)
        → t.senders ≡ before ++ (Sending.swapping b ∷ after)
        → Step t (record t { senders = before ++ (Sending.sent ∷ after) })
    -- The bundle has a status of the queue already, which the sender's copy has.
    requeued :
        (before after : List Sending) (b : ℕ)
        → t.senders ≡ before ++ (Sending.swapping b ∷ after)
        → elem b t.system.pending ≡ true
        → Step t (record t { senders = before ++ (Sending.loading b ∷ after) })
    poll : Step t (record t { system = poll_step storage has_expired cap t.system })
    close : Step t (record t { system = close_step t.system })
    recv : Step t (record t { system = recv_step t.system })
    claimed : (b : ℕ) → Step t (record t { system = claim b t.system })
    swept : (b : ℕ) (keep : Bool) → Step t (record t { system = sweep b keep t.system })
    cancel : Step t (record t { system = record (t.system) { cancelled = true } })

  -- The states that a new channel reaches, whatever storage held before.
  pub data Reachable : Tasks → Type 0 where
    start :
        (pending others : List ℕ)
        → Reachable (record { system = channel pending others; senders = [] })
    next : {t u : Tasks} → Reachable t → Step t u → Reachable u
