-- ===== src/Bpa/Reaper/Runs.antt =====
-- bpa/src/storage/reaper.rs with a cache of two entries.
use hardy.Prelude.{ℕ, ◌≡◌, ◌++◌, ◌<◌, ◌≤◌, refl, true, false, some, none, [], ◌∷◌}
use hardy.Cbor.Bytes.{All}
use hardy.Eid.{Eid}
use hardy.Bpa.Routing.{equal}
use hardy.Bpa.Metadata.Status.{waiting}
use hardy.Bpa.Metadata.Bundles.{Bundle, expiry, creation_time}
use hardy.Bpa.Reaper.{
  CacheEntry, IdOrders, first_expiry, last_expiry, pop_last, pop_dead, wakes, cmp_entry, insert_at,
  insert, inserted, replace_last, watch, entry_of,
}
use hardy.Bpa.Reaper.Steps.{Reaper, asleep, watched, sleep, notified, pass, Reachable, start, step}
use hardy.Bpa.Reaper.Wakes.{Covered, reachable_in_time}
use hardy.Bpa.Reaper.Expires.{pass_takes_expired}

-- Orders that tell bundles apart by their expiry alone
abbrev orders : IdOrders
orders = record { cmp_eid = λ a b. equal; cmp_id = λ a b. equal }

abbrev bundle : ℕ → Bundle
bundle n = record {
  id = record { source = Eid.local_node 7; timestamp = n; fragment_info = none };
  created = some n;
  lifetime = 0;
  age = none;
  received_at = n;
  status = waiting;
  payload = 0;
}

abbrev entry : ℕ → CacheEntry
entry n = record { expiry = n; id = (bundle n).id; destination = Eid.local_node 9 }

-- The task sleeps until 20, and then the bundle that expires at 10 is watched.
abbrev sooner : Reaper
sooner = record { cache = entry 10 ∷ entry 20 ∷ []; notified = true; phase = asleep (some 20) }

sooner-Reachable : Reachable orders 2 sooner
unfolding watch replace_last inserted insert insert_at cmp_entry first_expiry last_expiry pop_last
    wakes entry_of expiry creation_time pop_dead
sooner-Reachable =
    step
      (step
        (step
          (step
            (step (step start (sleep refl)) (watched (bundle 20) (Eid.local_node 9) true _ refl))
            (notified none refl refl))
          (pass 5 refl))
        (sleep refl))
      (watched (bundle 10) (Eid.local_node 9) true _ refl)

-- The task wakes, finds nothing expired, and sleeps again.
abbrev settled : Reaper
settled = record { cache = entry 10 ∷ entry 20 ∷ []; notified = false; phase = asleep (some 10) }

settled-Reachable : Reachable orders 2 settled
unfolding pop_dead first_expiry
settled-Reachable =
    step (step (step sooner-Reachable (notified (some 20) refl refl)) (pass 7 refl)) (sleep refl)

reachable_in_time_example : Covered (some 10) settled.cache
reachable_in_time_example = reachable_in_time orders 2 (some 10) settled-Reachable refl refl

pass_takes_expired_example :
    ((pop_dead 15 settled.cache).0 ++ (pop_dead 15 settled.cache).1 ≡ settled.cache)
    × All (λ f. f.expiry < 15) (pop_dead 15 settled.cache).0
    × All (λ f. 15 ≤ f.expiry) (pop_dead 15 settled.cache).1
pass_takes_expired_example = pass_takes_expired orders 2 15 settled-Reachable

-- A full cache leaves out the bundle that expires at 30. The pass at 15 makes room, which the bundle
-- that expires at 40 takes. The pass at 35 does not take the one that expired at 30, and the cache is
-- not empty, so nothing is read from storage.
skipped_run :
    (watch orders 2 (entry 30) true (entry 10 ∷ entry 20 ∷ [])
      ≡ some (record { cache = entry 10 ∷ entry 20 ∷ []; notifies = false }))
    × ((pop_dead 15 (entry 10 ∷ entry 20 ∷ [])).1 ≡ entry 20 ∷ [])
    × (watch orders 2 (entry 40) true (entry 20 ∷ [])
        ≡ some (record { cache = entry 20 ∷ entry 40 ∷ []; notifies = false }))
    × (pop_dead 35 (entry 20 ∷ entry 40 ∷ []) ≡ (entry 20 ∷ [], entry 40 ∷ []))
unfolding watch replace_last inserted insert insert_at cmp_entry first_expiry last_expiry pop_last
    wakes pop_dead
skipped_run = (refl, refl, refl, refl)
