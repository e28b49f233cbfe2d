-- ===== src/Bpa/Reaper.antt =====
-- bpa/src/storage/reaper.rs: the bundles that expire soonest, and the task that waits for them.
pub mod Sorted
pub mod Steps
pub mod Wakes
pub mod Expires
mod Runs
use hardy.Prelude.{
  ℕ, suc, Bool, true, false, not, ◌&&◌, ◌||◌, Option, none, some, List, [], ◌∷◌, ltb, leb,
  if◌then◌else◌, length,
}
use hardy.Eid.{Eid}
use hardy.Bpa.Reassembly.{BundleId}
use hardy.Bpa.Routing.{Ordering, less, equal, greater, cmp_number, then_with}
use hardy.Bpa.Metadata.Status.{BundleStatus, new, eq_status, defers_expiry}
use hardy.Bpa.Metadata.Bundles.{Bundle, expiry}

pub record CacheEntry : Type 0 where
  pub expiry : ℕ
  pub id : BundleId
  pub destination : Eid

-- The derived orders of `Eid` and of `Id`
pub record IdOrders : Type 0 where
  pub cmp_eid : Eid → Eid → Ordering
  pub cmp_id : BundleId → BundleId → Ordering

-- `BTreeSet::first`, `last` and `pop_last` on the list of a set's entries in order
unfoldable pub first_expiry : List CacheEntry → Option ℕ
first_expiry [] = none
first_expiry (e ∷ es) = some e.expiry

unfoldable pub last_expiry : List CacheEntry → Option ℕ
last_expiry [] = none
last_expiry (e ∷ []) = some e.expiry
last_expiry (e ∷ f ∷ es) = last_expiry (f ∷ es)

unfoldable pub pop_last : List CacheEntry → List CacheEntry
pop_last [] = []
pop_last (e ∷ []) = []
pop_last (e ∷ f ∷ es) = e ∷ pop_last (f ∷ es)

-- What the loop of `run` pops: the entries that expired before `now`, and the rest
unfoldable pub pop_dead : ℕ → List CacheEntry → List CacheEntry × List CacheEntry
pop_dead now [] = ([], [])
pop_dead now (e ∷ es) =
    let rest = pop_dead now es in if leb now e.expiry then ([], e ∷ es) else (e ∷ rest.0, rest.1)

-- Whether the new entry is to wake the task, after the first expiry that there was
unfoldable pub wakes : Option ℕ → ℕ → Bool
wakes none new_expiry = true
wakes (some old) new_expiry = ltb new_expiry old

-- The set after `watch`, and whether it calls `notify_one`
pub record Watched : Type 0 where
  pub cache : List CacheEntry
  pub notifies : Bool

module _ (orders : IdOrders) where
  -- `Ord for CacheEntry`
  unfoldable pub cmp_entry : CacheEntry → CacheEntry → Ordering
  cmp_entry a b =
      then_with
        (then_with (cmp_number a.expiry b.expiry) (orders.cmp_eid a.destination b.destination))
        (orders.cmp_id a.id b.id)

  -- `BTreeSet::insert`: whether the entry is new, and the set with it
  unfoldable pub insert_at :
      Ordering
      → CacheEntry
      → CacheEntry
      → Bool × List CacheEntry
      → List CacheEntry
      → Bool × List CacheEntry
  insert_at less e f rest fs = (true, e ∷ f ∷ fs)
  insert_at equal e f rest fs = (false, f ∷ fs)
  insert_at greater e f rest fs = (rest.0, f ∷ rest.1)

  unfoldable pub insert : CacheEntry → List CacheEntry → Bool × List CacheEntry
  insert e [] = (true, e ∷ [])
  insert e (f ∷ fs) = insert_at (cmp_entry e f) e f (insert e fs) fs

  -- The set with a new entry wakes the task where the entry comes first.
  unfoldable pub inserted : Option ℕ → CacheEntry → Bool × List CacheEntry → Watched
  inserted old e (added, cache) = record { cache = cache; notifies = added && wakes old e.expiry }

  -- A full set that gives up its last entry for one that expires sooner. `unwrap` panics on none.
  unfoldable pub replace_last : Option ℕ → CacheEntry → List CacheEntry → Option Watched
  replace_last none e cache = none
  replace_last (some last) e cache =
      if ltb e.expiry last
      then some (inserted (first_expiry cache) e (insert e (pop_last cache)))
      else some (record { cache = cache; notifies = false })

  unfoldable pub watch : ℕ → CacheEntry → Bool → List CacheEntry → Option Watched
  watch cache_size e cap cache =
      if not cap || ltb (length cache) cache_size
      then some (inserted (first_expiry cache) e (insert e cache))
      else replace_last (last_expiry cache) e cache

-- The entry of a bundle, with the destination that its primary block has
unfoldable pub entry_of : Bundle → Eid → CacheEntry
entry_of b destination = record { expiry = expiry b; id = b.id; destination = destination }

-- Whether `refill_cache` passes a bundle over
unfoldable pub passes_over : Bundle → Bool
passes_over b = eq_status b.status new || defers_expiry b.status
