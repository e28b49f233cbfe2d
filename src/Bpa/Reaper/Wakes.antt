-- ===== src/Bpa/Reaper/Wakes.antt =====
-- The sleep of the task of bpa/src/storage/reaper.rs, against the expiries that it waits for.
use hardy.Prelude.{
  ℕ, ◌≤◌, ◌≡◌, ◌⊎◌, inl, inr, ◌∙◌, sym, Bool, true, false, Option, none, some, List, [], ◌∷◌, ltb,
  leb, arith, Bool-cases, ap, ◌||◌, not, length,
}
use hardy.Cbor.Bytes.{All}
use hardy.Bpa.Reaper.{
  CacheEntry, IdOrders, first_expiry, last_expiry, pop_last, pop_dead, wakes, Watched, insert,
  inserted, replace_last, watch, entry_of,
}
use hardy.Bpa.Reaper.Sorted.{
  IsSorted, All-insert, All-pop_last, insert_old, insert-IsSorted, pop_last-IsSorted,
}
use hardy.Bpa.Reaper.Steps.{
  Reaper, asleep, watched, refilled, sleep, notified, timeout, pass, Reachable, start, step,
}

-- Whether a sleep ends no later than a time
unfoldable pub ends_by : Option ℕ → ℕ → Bool
ends_by none time = false
ends_by (some until) time = leb until time

-- The sleep ends no later than the expiry of each entry.
abbrev pub Covered : Option ℕ → List CacheEntry → Type 0
Covered until es = All (λ e. ends_by until e.expiry ≡ true) es

ends_by_mono :
    (until : Option ℕ) (m n : ℕ) → m ≤ n → ends_by until m ≡ true → ends_by until n ≡ true
unfolding ends_by
ends_by_mono none m n h p = p
ends_by_mono (some until) m n h p = ground arith

first_covers : (es : List CacheEntry) → IsSorted es → Covered (first_expiry es) es
unfolding IsSorted first_expiry ends_by
first_covers [] h = tt
first_covers (e ∷ es) (a, h) = (ground arith, later es a)
  where
    later :
        (fs : List CacheEntry)
        → All (λ f. e.expiry ≤ f.expiry) fs
        → All (λ f. leb e.expiry f.expiry ≡ true) fs
    later [] a = tt
    later (f ∷ fs) (p, a) = (ground arith, later fs a)

some-inj : {a b : Watched} → some a ≡ some b → a ≡ b
some-inj h = cc

module _ (orders : IdOrders) where
  added_covers :
      (until : Option ℕ) (cache es : List CacheEntry) (e : CacheEntry)
      → Covered until cache
      → Covered until es
      → wakes (first_expiry cache) e.expiry ≡ false
      → Covered until (insert orders e es).1
  unfolding wakes first_expiry
  added_covers until [] es e c d w = cc
  added_covers until (f ∷ fs) es e (p, c) d w =
      All-insert orders (λ e. ends_by until e.expiry ≡ true) e es
        (ends_by_mono until f.expiry e.expiry (ground arith) p) d

  inserted_covers :
      (until : Option ℕ) (cache es : List CacheEntry) (e : CacheEntry)
      → Covered until cache
      → Covered until es
      → (inserted orders (first_expiry cache) e (insert orders e es)).notifies ≡ false
      → Covered until (inserted orders (first_expiry cache) e (insert orders e es)).cache
  unfolding inserted
  inserted_covers until cache es e c d w = elim (Bool-cases (insert orders e es).0) [
    | inl h ↦ added_covers until cache es e c d (ground arith)
    | inr h ↦ rw (insert_old orders e es h) d
  ]

  -- The set after a call holds what it held, or the entry is put into it or into all but its last.
  replace_cases :
      (last : Option ℕ) (e : CacheEntry) (es : List CacheEntry) (w : Watched)
      → replace_last orders last e es ≡ some w
      → (w ≡ record { cache = es; notifies = false })
        ⊎ (w ≡ inserted orders (first_expiry es) e (insert orders e es))
        ⊎ (w ≡ inserted orders (first_expiry es) e (insert orders e (pop_last es)))
  unfolding replace_last
  replace_cases none e es w h = cc
  replace_cases (some last) e es w h = elim (Bool-cases (ltb e.expiry last)) [
    | inl p ↦ inr (inr (sym (some-inj (rw p at h))))
    | inr p ↦ inl (sym (some-inj (rw p at h)))
  ]

  watch_cases :
      (size : ℕ) (e : CacheEntry) (cap : Bool) (es : List CacheEntry) (w : Watched)
      → watch orders size e cap es ≡ some w
      → (w ≡ record { cache = es; notifies = false })
        ⊎ (w ≡ inserted orders (first_expiry es) e (insert orders e es))
        ⊎ (w ≡ inserted orders (first_expiry es) e (insert orders e (pop_last es)))
  unfolding watch
  watch_cases size e cap es w h = elim (Bool-cases (not cap || ltb (length es) size)) [
    | inl p ↦ inr (inl (sym (some-inj (rw p at h))))
    | inr p ↦ replace_cases (last_expiry es) e es w (rw p at h)
  ]

  watch_covers :
      (size : ℕ) (until : Option ℕ) (e : CacheEntry) (cap : Bool) (es : List CacheEntry)
      (w : Watched)
      → watch orders size e cap es ≡ some w
      → Covered until es
      → w.notifies ≡ false
      → Covered until w.cache
  watch_covers size until e cap es w h c d = elim (watch_cases size e cap es w h) [
    | inl p ↦ rw p c
    | inr (inl p) ↦ rw p (inserted_covers until es es e c c (ap (λ v. v.notifies) (sym p) ∙ d))
    | inr (inr p) ↦ rw p (
        inserted_covers until es (pop_last es) e c
          (All-pop_last (λ f. ends_by until f.expiry ≡ true) es c)
          (ap (λ v. v.notifies) (sym p) ∙ d))
  ]

  watch-IsSorted :
      (size : ℕ) (e : CacheEntry) (cap : Bool) (es : List CacheEntry) (w : Watched)
      → watch orders size e cap es ≡ some w
      → IsSorted es
      → IsSorted w.cache
  unfolding inserted
  watch-IsSorted size e cap es w h c = elim (watch_cases size e cap es w h) [
    | inl p ↦ rw p c
    | inr (inl p) ↦ rw p (insert-IsSorted orders e es c)
    | inr (inr p) ↦ rw p (insert-IsSorted orders e (pop_last es) (pop_last-IsSorted es c))
  ]

module _ (orders : IdOrders) (size : ℕ) where
  pass-IsSorted : (now : ℕ) (es : List CacheEntry) → IsSorted es → IsSorted (pop_dead now es).1
  unfolding pop_dead IsSorted
  pass-IsSorted now [] h = tt
  pass-IsSorted now (e ∷ es) (a, h) =
      let r = pass-IsSorted now es h in
      elim (Bool-cases (leb now e.expiry)) [ inl p ↦ rw p (a, h) | inr p ↦ rw p r ]

  pub reachable-IsSorted : {s : Reaper} → Reachable orders size s → IsSorted s.cache
  unfolding IsSorted
  reachable-IsSorted start = tt
  reachable-IsSorted (step {s} r (watched b to cap w h)) =
      watch-IsSorted orders size (entry_of b to) cap s.cache w h (reachable-IsSorted r)
  reachable-IsSorted (step {s} r (refilled b to w p h)) =
      watch-IsSorted orders size (entry_of b to) false s.cache w h (reachable-IsSorted r)
  reachable-IsSorted (step r (sleep p)) = reachable-IsSorted r
  reachable-IsSorted (step r (notified u p n)) = reachable-IsSorted r
  reachable-IsSorted (step r (timeout u now p n)) = reachable-IsSorted r
  reachable-IsSorted (step {s} r (pass now p)) = pass-IsSorted now s.cache (reachable-IsSorted r)

  watched_covers :
      (until : Option ℕ) (s : Reaper) (e : CacheEntry) (cap : Bool) (w : Watched)
      → watch orders size e cap s.cache ≡ some w
      → (s.notified ≡ false → Covered until s.cache)
      → s.notified || w.notifies ≡ false
      → Covered until w.cache
  watched_covers until s e cap w h c n =
      watch_covers orders size until e cap s.cache w h (c (ground arith)) (ground arith)

  -- However watches, refills and the task's steps follow each other: while the task sleeps and no notification is held for it, its sleep ends no later than the expiry of any bundle in the cache.
  pub reachable_in_time :
      {s : Reaper} (until : Option ℕ)
      → Reachable orders size s
      → s.phase ≡ asleep until
      → s.notified ≡ false
      → Covered until s.cache
  reachable_in_time until start p n = cc
  reachable_in_time until (step {s} r (watched b to cap w h)) p n =
      watched_covers until s (entry_of b to) cap w h (reachable_in_time until r p) n
  reachable_in_time until (step {s} r (refilled b to w q h)) p n =
      watched_covers until s (entry_of b to) false w h (reachable_in_time until r p) n
  reachable_in_time until (step {s} r (sleep q)) p n =
      let i : first_expiry s.cache ≡ until = cc in
      rw (← i) (first_covers s.cache (reachable-IsSorted r))
  reachable_in_time until (step r (notified u q m)) p n = cc
  reachable_in_time until (step r (timeout u now q m)) p n = cc
  reachable_in_time until (step r (pass now q)) p n = cc
