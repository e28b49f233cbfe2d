-- ===== src/Bpa/Reaper/Expires.antt =====
-- The pass over the cache of bpa/src/storage/reaper.rs that drops what has expired.
use hardy.Prelude.{
  ℕ, ◌≤◌, ◌<◌, ◌≡◌, inl, inr, refl, List, [], ◌∷◌, ◌++◌, leb, arith, Bool-cases, ap,
}
use hardy.Cbor.Bytes.{All}
use hardy.Bpa.Reaper.{CacheEntry, IdOrders, pop_dead}
use hardy.Bpa.Reaper.Sorted.{IsSorted}
use hardy.Bpa.Reaper.Steps.{Reaper, Reachable}
use hardy.Bpa.Reaper.Wakes.{reachable-IsSorted}

none_dead :
    (now time : ℕ) (es : List CacheEntry)
    → now ≤ time
    → All (λ f. time ≤ f.expiry) es
    → All (λ f. now ≤ f.expiry) es
none_dead now time [] h a = tt
none_dead now time (f ∷ fs) h (p, a) = (omega arith, none_dead now time fs h a)

split :
    (now : ℕ) (es : List CacheEntry)
    → IsSorted es
    → ((pop_dead now es).0 ++ (pop_dead now es).1 ≡ es)
      × All (λ f. f.expiry < now) (pop_dead now es).0
      × All (λ f. now ≤ f.expiry) (pop_dead now es).1
unfolding pop_dead IsSorted
split now [] h = (refl, tt, tt)
split now (e ∷ es) (a, h) =
    let r = split now es h in
    elim (Bool-cases (leb now e.expiry)) [
      | inl p ↦ rw p (refl, tt, (ground arith, none_dead now e.expiry es (ground arith) a))
      | inr p ↦ rw p (ap (λ xs. e ∷ xs) r.0, (ground arith, r.1), r.2)
    ]

module _ (orders : IdOrders) (size : ℕ) where
  -- In every state that the reaper reaches, the pass at a time takes exactly the bundles of the cache that expired before that time, in their order, and leaves the others.
  pub pass_takes_expired :
      (now : ℕ) {s : Reaper}
      → Reachable orders size s
      → ((pop_dead now s.cache).0 ++ (pop_dead now s.cache).1 ≡ s.cache)
        × All (λ f. f.expiry < now) (pop_dead now s.cache).0
        × All (λ f. now ≤ f.expiry) (pop_dead now s.cache).1
  pass_takes_expired now {s} r = split now s.cache (reachable-IsSorted orders size r)
