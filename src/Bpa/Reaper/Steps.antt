-- ===== src/Bpa/Reaper/Steps.antt =====
-- The task `Reaper::run` of bpa/src/storage/reaper.rs between the calls of `watch`, in any order.
use hardy.Prelude.{ℕ, ◌≤◌, ◌≡◌, Bool, true, false, ◌||◌, Option, some, List, []}
use hardy.Eid.{Eid}
use hardy.Bpa.Metadata.Bundles.{Bundle}
use hardy.Bpa.Reaper.{
  CacheEntry, IdOrders, first_expiry, pop_dead, Watched, watch, entry_of, passes_over,
}

-- Where the task is: before the sleep, asleep until a time or for ever, or before the pass
pub data Phase : Type 0 where
  awake : Phase
  asleep : Option ℕ → Phase
  woken : Phase

-- The cache, whether `wakeup` holds a notification, and the task
pub record Reaper : Type 0 where
  pub cache : List CacheEntry
  pub notified : Bool
  pub phase : Phase

-- A call of `watch`, and one row that `refill_cache` takes from storage
module _ (orders : IdOrders) (cache_size : ℕ) where
  pub data Step (s : Reaper) : Reaper → Type 0 where
    watched :
        (b : Bundle) (destination : Eid) (cap : Bool) (w : Watched)
        → watch orders cache_size (entry_of b destination) cap s.cache ≡ some w
        → Step s (record s { cache = w.cache; notified = s.notified || w.notifies })
    refilled :
        (b : Bundle) (destination : Eid) (w : Watched)
        → passes_over b ≡ false
        → watch orders cache_size (entry_of b destination) false s.cache ≡ some w
        → Step s (record s { cache = w.cache; notified = s.notified || w.notifies })
    sleep : s.phase ≡ Phase.awake → Step s (record s { phase = asleep (first_expiry s.cache) })
    notified :
        (until : Option ℕ)
        → s.phase ≡ asleep until
        → s.notified ≡ true
        → Step s (record s { notified = false; phase = woken })
    timeout :
        (time now : ℕ)
        → s.phase ≡ asleep (some time)
        → time ≤ now
        → Step s (record s { phase = woken })
    pass :
        (now : ℕ)
        → s.phase ≡ woken
        → Step s (record s { cache = (pop_dead now s.cache).1; phase = Phase.awake })

  pub data Reachable : Reaper → Type 0 where
    start : Reachable (record { cache = []; notified = false; phase = Phase.awake })
    step : {s u : Reaper} → Reachable s → Step s u → Reachable u
