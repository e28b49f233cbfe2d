-- ===== src/Bpa/Reaper/Sorted.antt =====
-- The cache of bpa/src/storage/reaper.rs stays in order of expiry.
use hardy.Prelude.{
  ◌<◌, not, ◌||◌, ltb, some, length, none, ◌≢◌, Bool, ℕ, Bool-cases, ◌≤◌, ◌≡◌, ◌⊎◌, inl, inr, refl,
  false, List, [], ◌∷◌, arith, ap,
}
use hardy.Cbor.Bytes.{All}
use hardy.Bpa.Routing.{Ordering, less, equal, greater}
use hardy.Bpa.Reaper.{
  Watched, watch, replace_last, last_expiry, CacheEntry, IdOrders, pop_last, cmp_entry, insert_at,
  insert,
}

unfoldable pub IsSorted : List CacheEntry → Type 0
IsSorted [] = Unit
IsSorted (e ∷ es) = All (λ f. e.expiry ≤ f.expiry) es × IsSorted es

All-later :
    (m n : ℕ) (es : List CacheEntry)
    → m ≤ n
    → All (λ f. n ≤ f.expiry) es
    → All (λ f. m ≤ f.expiry) es
All-later m n [] h a = tt
All-later m n (e ∷ es) h (p, a) = (omega arith, All-later m n es h a)

pub All-pop_last {ℓ} :
    (P : CacheEntry → Type ℓ) (es : List CacheEntry) → All P es → All P (pop_last es)
unfolding pop_last
All-pop_last P [] a = tt
All-pop_last P (e ∷ []) a = tt
All-pop_last P (e ∷ f ∷ es) (p, a) = (p, All-pop_last P (f ∷ es) a)

pub pop_last-IsSorted : (es : List CacheEntry) → IsSorted es → IsSorted (pop_last es)
unfolding pop_last IsSorted
pop_last-IsSorted [] h = tt
pop_last-IsSorted (e ∷ []) h = tt
pop_last-IsSorted (e ∷ f ∷ es) (a, h) =
    (All-pop_last (λ g. e.expiry ≤ g.expiry) (f ∷ es) a, pop_last-IsSorted (f ∷ es) h)

module _ (orders : IdOrders) where
  pub All-insert {ℓ} :
      (P : CacheEntry → Type ℓ) (e : CacheEntry) (es : List CacheEntry)
      → P e
      → All P es
      → All P (insert orders e es).1
  unfolding insert insert_at
  All-insert P e [] p a = (p, tt)
  All-insert P e (f ∷ fs) p (q, a) =
      elim (cmp_entry orders e f)
        as (λ o. All P (insert_at orders o e f (insert orders e fs) fs).1) [
          | less ↦ (p, (q, a))
          | equal ↦ (q, a)
          | greater ↦ (q, All-insert P e fs p a)
        ]

  -- An entry that is there already leaves the set as it is.
  pub insert_old :
      (e : CacheEntry) (es : List CacheEntry)
      → (insert orders e es).0 ≡ false
      → (insert orders e es).1 ≡ es
  unfolding insert insert_at
  insert_old e [] h = cc
  insert_old e (f ∷ fs) h =
      elim (cmp_entry orders e f)
          as (λ o.
            (insert_at orders o e f (insert orders e fs) fs).0 ≡ false
            → (insert_at orders o e f (insert orders e fs) fs).1 ≡ f ∷ fs) [
              | less ↦ λ h. cc
              | equal ↦ λ h. refl
              | greater ↦ λ h. ap (λ xs. f ∷ xs) (insert_old e fs h)
            ]
        h

  cmp_less : (e f : CacheEntry) → cmp_entry orders e f ≡ less → e.expiry ≤ f.expiry
  unfolding cmp_entry
  cmp_less e f h = ground arith

  cmp_greater : (e f : CacheEntry) → cmp_entry orders e f ≡ greater → f.expiry ≤ e.expiry
  unfolding cmp_entry
  cmp_greater e f h = ground arith

  Ordering-cases : (o : Ordering) → (o ≡ less) ⊎ (o ≡ equal) ⊎ (o ≡ greater)
  Ordering-cases less = inl refl
  Ordering-cases equal = inr (inl refl)
  Ordering-cases greater = inr (inr refl)

  pub insert-IsSorted :
      (e : CacheEntry) (es : List CacheEntry) → IsSorted es → IsSorted (insert orders e es).1
  unfolding insert insert_at IsSorted
  insert-IsSorted e [] h = (tt, tt)
  insert-IsSorted e (f ∷ fs) (a, h) =
      let r = insert-IsSorted e fs h in
      elim (Ordering-cases (cmp_entry orders e f)) [
        | inl o ↦ rw o ((cmp_less e f o, All-later e.expiry f.expiry fs (cmp_less e f o) a), (a, h))
        | inr (inl o) ↦ rw o (a, h)
        | inr (inr o) ↦ rw o (All-insert (λ g. f.expiry ≤ g.expiry) e fs (cmp_greater e f o) a, r)
      ]

  some_none : {w : Watched} → some w ≢ none
  some_none h = cc

  last_there : (e : CacheEntry) (es : List CacheEntry) → (n : ℕ) × (last_expiry (e ∷ es) ≡ some n)
  unfolding last_expiry
  last_there e [] = (e.expiry, refl)
  last_there e (f ∷ fs) = last_there f fs

  -- A cache for one entry or more always has a last one to compare with, so `watch` does not panic.
  pub watch_returns :
      (size : ℕ) (e : CacheEntry) (cap : Bool) (es : List CacheEntry)
      → 0 < size
      → watch orders size e cap es ≢ none
  unfolding watch replace_last last_expiry
  watch_returns size e cap [] h n = ground arith
  watch_returns size e cap (f ∷ fs) h n =
      let last = last_there f fs in
      elim (Bool-cases (not cap || ltb (length (f ∷ fs)) size)) [
        | inl p ↦ some_none (rw p at n)
        | inr p ↦ elim (Bool-cases (ltb e.expiry last.0)) [
          | inl q ↦ some_none (rw (p, last.1, q) at n)
          | inr q ↦ some_none (rw (p, last.1, q) at n)
        ]
      ]
