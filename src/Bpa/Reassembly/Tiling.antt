-- ===== src/Bpa/Reassembly/Tiling.antt =====
-- bpa/src/storage/adu_reassembly.rs: what the check of the extents says of the fragments.
use hardy.Prelude.{
  ℕ, ◌+◌, ◌-◌, ◌^◌, ◌≤◌, ◌<◌, ◌≡◌, refl, sym, ◌∙◌, List, [], ◌∷◌, Bool, true, false, ◌&&◌, ◌||◌,
  not, some, ltb, ◌==◌, arith,
}
use hardy.Bpa.Reassembly.{Adu, len, saturating_add, get, insert_extent, sorted_extents, tile}

unfoldable pub member : ℕ → ℕ → List (ℕ × ℕ) → Bool
member k n [] = false
member k n (e ∷ es) = (e.0 == k && e.1 == n) || member k n es

-- Some fragment has the offset `k` and the length `n`.
unfoldable pub has : ℕ → ℕ → List (ℕ × Adu) → Bool
has k n [] = false
has k n (e ∷ es) = (e.0 == k && len e.1.payload == n) || has k n es

member-insert_extent :
    (k n : ℕ) (x : ℕ × ℕ) (l : List (ℕ × ℕ))
    → member k n (insert_extent x l) ≡ ((x.0 == k && x.1 == n) || member k n l)
unfolding member insert_extent
member-insert_extent k n x [] = refl
member-insert_extent k n x (y ∷ l) = ground (arith, member-insert_extent k n x l)

member-sorted_extents : (k n : ℕ) (l : List (ℕ × Adu)) → member k n (sorted_extents l) ≡ has k n l
unfolding has sorted_extents
member-sorted_extents k n [] = unfold member in refl
member-sorted_extents k n (e ∷ l) = ground (
  arith,
  member-insert_extent k n (e.0, len e.1.payload) (sorted_extents l),
  member-sorted_extents k n l,
)

tile-le : (l : List (ℕ × ℕ)) (c t : ℕ) → tile l c ≡ some t → t < 2 ^ 64 - 1 → c ≤ t
unfolding tile
tile-le [] c t h b = ground arith
tile-le (e ∷ l) c t h b = ground (arith, tile-le l (saturating_add c e.1) t)

tile-inside :
    (l : List (ℕ × ℕ)) (c t k n : ℕ)
    → tile l c ≡ some t
    → t < 2 ^ 64 - 1
    → member k n l ≡ true
    → (c ≤ k) × (k + n ≤ t)
unfolding tile member
tile-inside [] c t k n h b m = cc
tile-inside (e ∷ l) c t k n h b m =
    ground (arith, tile-le l (saturating_add c e.1) t, tile-inside l (saturating_add c e.1) t k n)

tile-apart :
    (l : List (ℕ × ℕ)) (c t k n k' n' : ℕ)
    → tile l c ≡ some t
    → t < 2 ^ 64 - 1
    → member k n l ≡ true
    → member k' n' l ≡ true
    → k < k'
    → k + n ≤ k'
unfolding tile member
tile-apart [] c t k n k' n' h b m m' less = cc
tile-apart (e ∷ l) c t k n k' n' h b m m' less = ground (
  arith,
  tile-le l (saturating_add c e.1) t,
  tile-inside l (saturating_add c e.1) t k n,
  tile-inside l (saturating_add c e.1) t k' n',
  tile-apart l (saturating_add c e.1) t k n k' n',
)

tile-covers :
    (l : List (ℕ × ℕ)) (c t i : ℕ)
    → tile l c ≡ some t
    → t < 2 ^ 64 - 1
    → c ≤ i
    → i < t
    → (k : ℕ) × (n : ℕ) × (member k n l ≡ true) × (k ≤ i) × (i < k + n)
unfolding tile member
tile-covers [] c t i h b le lt = ground arith
tile-covers (e ∷ l) c t i h b le lt = split (ltb i (c + e.1)) refl (λ ge.
    tile-covers l (saturating_add c e.1) t i (ground arith) b
      (ground (arith, tile-le l (saturating_add c e.1) t)) lt)
  where
    split :
        (x : Bool)
        → ltb i (c + e.1) ≡ x
        → (c + e.1 ≤ i → (k : ℕ) × (n : ℕ) × (member k n l ≡ true) × (k ≤ i) × (i < k + n))
        → (k : ℕ) × (n : ℕ) × (member k n (e ∷ l) ≡ true) × (k ≤ i) × (i < k + n)
    split true q rest = (e.0, e.1, ground arith, ground arith, ground arith)
    split false q rest =
        let (k, n, m, lo, hi) = rest (ground arith) in (k, n, ground (arith, m), lo, hi)

-- The offsets are the keys of a map: each occurs once.
unfoldable pub has_key : ℕ → List (ℕ × Adu) → Bool
has_key k [] = false
has_key k (e ∷ es) = e.0 == k || has_key k es

unfoldable pub unique : List (ℕ × Adu) → Bool
unfolding has_key
unique [] = true
unique (e ∷ es) = not (has_key e.0 es) && unique es

pub has-key : (k n : ℕ) (l : List (ℕ × Adu)) → has k n l ≡ true → has_key k l ≡ true
unfolding has has_key
has-key k n [] h = cc
has-key k n (e ∷ l) h = ground (arith, has-key k n l)

pub has-get :
    (k n : ℕ) (l : List (ℕ × Adu))
    → unique l ≡ true
    → has k n l ≡ true
    → (a : Adu) × (get k l ≡ some a) × (len a.payload ≡ n)
unfolding has get unique has_key
has-get k n [] u h = cc
has-get k n (e ∷ l) u h = split (e.0 == k) refl (has-get k n l (ground arith))
  where
    split :
        (x : Bool)
        → (e.0 == k) ≡ x
        → (has k n l ≡ true → (a : Adu) × (get k l ≡ some a) × (len a.payload ≡ n))
        → (a : Adu) × (get k (e ∷ l) ≡ some a) × (len a.payload ≡ n)
    split true q rest = (e.1, ground (arith, q), ground (arith, q, has-key k n l))
    split false q rest = let (a, g, z) = rest (ground (arith, q)) in (a, ground (arith, q, g), z)

pub get-has :
    (k : ℕ) (a : Adu) (l : List (ℕ × Adu)) → get k l ≡ some a → has k (len a.payload) l ≡ true
unfolding has get
get-has k a [] h = cc
get-has k a (e ∷ l) h = ground (arith, get-has k a l)

-- What the check of the extents says, when it comes to `total`
pub record Tiles (l : List (ℕ × Adu)) (total : ℕ) : Type 0 where
  pub inside : (k n : ℕ) → has k n l ≡ true → k + n ≤ total
  pub apart : (k n k' n' : ℕ) → has k n l ≡ true → has k' n' l ≡ true → k < k' → k + n ≤ k'
  pub covers : (i : ℕ) → i < total → (k : ℕ) × (n : ℕ) × (has k n l ≡ true) × (k ≤ i) × (i < k + n)

pub tile-Tiles :
    (l : List (ℕ × Adu)) (total : ℕ)
    → tile (sorted_extents l) 0 ≡ some total
    → total < 2 ^ 63
    → Tiles l total
tile-Tiles l total h b = record {
  inside = λ k n m.
      (tile-inside (sorted_extents l) 0 total k n h (omega arith)
        (member-sorted_extents k n l ∙ m)).1;
  apart = λ k n k' n' m m' less.
      tile-apart (sorted_extents l) 0 total k n k' n' h (omega arith)
        (member-sorted_extents k n l ∙ m) (member-sorted_extents k' n' l ∙ m') less;
  covers = λ i less.
      let (k, n, m, lo, hi) =
        tile-covers (sorted_extents l) 0 total i h (omega arith) (omega arith) less in
      (k, n, sym (member-sorted_extents k n l) ∙ m, lo, hi);
}
