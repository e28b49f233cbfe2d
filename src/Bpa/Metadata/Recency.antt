-- ===== src/Bpa/Metadata/Recency.antt =====
-- What the crate lru documents of its cache: a list of entries, the most recently used first, as long
-- as its capacity at most.
pub mod Laws
pub mod Moves
use hardy.Prelude.{
  ℕ, ◌≡◌, ◌<◌, List, [], ◌∷◌, ◌++◌, Bool, true, false, ◌||◌, Option, none, some, ltb, length,
  if◌then◌else◌,
}
use hardy.Bpa.Reassembly.{BundleId}
use hardy.Bpa.Metadata.Bundles.{eq_id}

module _ {V : Type 0} where
  -- The value of a key
  unfoldable pub find : BundleId → List (BundleId × V) → Option V
  find k [] = none
  find k ((j, v) ∷ es) = if eq_id j k then some v else find k es

  -- The entries of the other keys
  unfoldable pub erase : BundleId → List (BundleId × V) → List (BundleId × V)
  erase k [] = []
  erase k ((j, v) ∷ es) = if eq_id j k then es else (j, v) ∷ erase k es

  -- A write to the value of a key, which stays where it is
  unfoldable pub write_at : BundleId → V → List (BundleId × V) → List (BundleId × V)
  write_at k w [] = []
  write_at k w ((j, v) ∷ es) = if eq_id j k then (j, w) ∷ es else (j, v) ∷ write_at k w es

  unfoldable pub map_values : (V → V) → List (BundleId × V) → List (BundleId × V)
  map_values f [] = []
  map_values f ((j, v) ∷ es) = (j, f v) ∷ map_values f es

  -- The entry that was used longest ago, and the others
  unfoldable pub split_last :
      BundleId × V → List (BundleId × V) → List (BundleId × V) × (BundleId × V)
  split_last e [] = ([], e)
  split_last e (d ∷ es) = let (front, last) = split_last d es in (e ∷ front, last)

  -- `LruCache::push`: the entries afterwards, and the entry that was replaced or evicted
  unfoldable pub push_entries :
      ℕ → BundleId → V → List (BundleId × V) → List (BundleId × V) × Option (BundleId × V)
  push_entries capacity k v es = elim (find k es) [
    | some old ↦ ((k, v) ∷ erase k es, some (k, old))
    | none ↦ if ltb (length es) capacity then ((k, v) ∷ es, none) else elim es [
      | [] ↦ ((k, v) ∷ [], none)
      | e ∷ rest ↦ ((k, v) ∷ (split_last e rest).0, some (split_last e rest).1)
    ]
  ]

  -- `LruCache::promote` and `LruCache::demote`
  unfoldable pub promote_entries : BundleId → List (BundleId × V) → List (BundleId × V)
  promote_entries k es = elim (find k es) [ none ↦ es | some v ↦ (k, v) ∷ erase k es ]

  unfoldable pub demote_entries : BundleId → List (BundleId × V) → List (BundleId × V)
  demote_entries k es = elim (find k es) [ none ↦ es | some v ↦ erase k es ++ ((k, v) ∷ []) ]

-- The crate lru, with `iter` as `entries`: what the store uses of it, and what its documentation says.
pub record LruCache (V : Type 0) : Type 1 where
  pub Cache : Type 0
  pub new : ℕ → Cache
  pub capacity : Cache → ℕ
  pub entries : Cache → List (BundleId × V)
  pub peek : Cache → BundleId → Option V
  pub push : Cache → BundleId → V → Cache × Option (BundleId × V)
  pub promote : Cache → BundleId → Cache
  pub demote : Cache → BundleId → Cache
  pub set_peeked : Cache → BundleId → V → Cache
  pub update_all : Cache → (V → V) → Cache
  pub entries-new : (n : ℕ) → entries (new n) ≡ []
  pub capacity-new : (n : ℕ) → capacity (new n) ≡ n
  pub peek_lem : (c : Cache) (k : BundleId) → peek c k ≡ find k (entries c)
  pub entries-push :
      (c : Cache) (k : BundleId) (v : V)
      → entries (push c k v).0 ≡ (push_entries (capacity c) k v (entries c)).0
  pub push_out :
      (c : Cache) (k : BundleId) (v : V)
      → (push c k v).1 ≡ (push_entries (capacity c) k v (entries c)).1
  pub capacity-push : (c : Cache) (k : BundleId) (v : V) → capacity (push c k v).0 ≡ capacity c
  pub entries-promote :
      (c : Cache) (k : BundleId) → entries (promote c k) ≡ promote_entries k (entries c)
  pub capacity-promote : (c : Cache) (k : BundleId) → capacity (promote c k) ≡ capacity c
  pub entries-demote :
      (c : Cache) (k : BundleId) → entries (demote c k) ≡ demote_entries k (entries c)
  pub capacity-demote : (c : Cache) (k : BundleId) → capacity (demote c k) ≡ capacity c
  pub entries-set_peeked :
      (c : Cache) (k : BundleId) (v : V) → entries (set_peeked c k v) ≡ write_at k v (entries c)
  pub capacity-set_peeked :
      (c : Cache) (k : BundleId) (v : V) → capacity (set_peeked c k v) ≡ capacity c
  pub entries-update_all :
      (c : Cache) (f : V → V) → entries (update_all c f) ≡ map_values f (entries c)
  pub capacity-update_all : (c : Cache) (f : V → V) → capacity (update_all c f) ≡ capacity c
