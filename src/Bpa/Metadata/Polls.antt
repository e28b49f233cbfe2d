-- ===== src/Bpa/Metadata/Polls.antt =====
-- bpa/src/storage/metadata_mem.rs: which bundles a poll sends, and in which order.
use hardy.Prelude.{
  ℕ, zero, suc, ◌≤◌, ◌≡◌, ◌⊎◌, refl, sym, ap, length-take, Bool, true, Bool-cases, inl, inr, List,
  [], ◌∷◌, length, take, leb, arith,
}
use hardy.Cbor.Bytes.{All}
use hardy.Bpa.Reassembly.{BundleId}
use hardy.Bpa.Metadata.Status.{BundleStatus, same_queue}
use hardy.Bpa.Metadata.Bundles.{Bundle}
use hardy.Bpa.Metadata.Recency.{LruCache}
use hardy.Bpa.Metadata.Store.{
  Entry, live, tombstone, MetadataMemStorage, insert_by, sort_by_key, live_where, poll_pending,
}

module _ {A : Type 0} where
  abbrev pub In : A → List A → Type 0
  In a [] = ⊥
  In a (x ∷ xs) = (a ≡ x) ⊎ In a xs

  -- Each element's key is at most those behind it.
  abbrev pub IsAscending : (A → ℕ) → List A → Type 0
  IsAscending key [] = Unit
  IsAscending key (x ∷ xs) = All (λ y. key x ≤ key y) xs × IsAscending key xs

  All-mono :
      (key : A → ℕ) (n m : ℕ) (l : List A) → m ≤ n → All (λ y. n ≤ key y) l → All (λ y. m ≤ key y) l
  All-mono key n m [] h a = tt
  All-mono key n m (y ∷ ys) h a = (omega (arith, a.0), All-mono key n m ys h a.1)

  insert_by-All :
      (key : A → ℕ) (n : ℕ) (x : A) (l : List A)
      → n ≤ key x
      → All (λ y. n ≤ key y) l
      → All (λ y. n ≤ key y) (insert_by key x l)
  unfolding insert_by
  insert_by-All key n x [] h a = (h, tt)
  insert_by-All key n x (y ∷ ys) h a =
      let deeper = insert_by-All key n x ys h a.1 in
      elim (Bool-cases (leb (key x) (key y))) [ inl e ↦ rw e (h, a) | inr e ↦ rw e (a.0, deeper) ]

  insert_by-IsAscending :
      (key : A → ℕ) (x : A) (l : List A) → IsAscending key l → IsAscending key (insert_by key x l)
  unfolding insert_by
  insert_by-IsAscending key x [] a = (tt, tt)
  insert_by-IsAscending key x (y ∷ ys) a =
      let deeper = insert_by-IsAscending key x ys a.1 in
      elim (Bool-cases (leb (key x) (key y))) [
        | inl e ↦
            let h : key x ≤ key y = ground (arith, e) in
            rw e ((h, All-mono key (key y) (key x) ys h a.0), a)
        | inr e ↦
            let h : key y ≤ key x = ground (arith, e) in
            rw e (insert_by-All key (key y) x ys h a.0, deeper)
      ]

  sort_by_key-IsAscending : (key : A → ℕ) (l : List A) → IsAscending key (sort_by_key key l)
  unfolding sort_by_key
  sort_by_key-IsAscending key [] = tt
  sort_by_key-IsAscending key (x ∷ xs) =
      insert_by-IsAscending key x (sort_by_key key xs) (sort_by_key-IsAscending key xs)

  In-insert_by : (key : A → ℕ) (a x : A) (l : List A) → In a (x ∷ l) → In a (insert_by key x l)
  unfolding insert_by
  In-insert_by key a x [] h = h
  In-insert_by key a x (y ∷ ys) h = elim (Bool-cases (leb (key x) (key y))) [
    | inl e ↦ rw e h
    | inr e ↦ rw e (moved h (In-insert_by key a x ys))
  ]
    where
      moved :
          In a (x ∷ y ∷ ys)
          → (In a (x ∷ ys) → In a (insert_by key x ys))
          → In a (y ∷ insert_by key x ys)
      moved (inl p) f = inr (f (inl p))
      moved (inr (inl p)) f = inl p
      moved (inr (inr p)) f = inr (f (inr p))

  In-of_insert_by : (key : A → ℕ) (a x : A) (l : List A) → In a (insert_by key x l) → In a (x ∷ l)
  unfolding insert_by
  In-of_insert_by key a x [] h = h
  In-of_insert_by key a x (y ∷ ys) h = elim (Bool-cases (leb (key x) (key y))) [
    | inl e ↦ rw e at h
    | inr e ↦ moved (rw e at h) (In-of_insert_by key a x ys)
  ]
    where
      moved :
          In a (y ∷ insert_by key x ys)
          → (In a (insert_by key x ys) → In a (x ∷ ys))
          → In a (x ∷ y ∷ ys)
      moved (inl p) f = inr (inl p)
      moved (inr p) f = elim (f p) [ inl q ↦ inl q | inr q ↦ inr (inr q) ]

  In-sort_by_key : (key : A → ℕ) (a : A) (l : List A) → In a l → In a (sort_by_key key l)
  unfolding sort_by_key
  In-sort_by_key key a [] h = h
  In-sort_by_key key a (x ∷ xs) (inl p) = In-insert_by key a x (sort_by_key key xs) (inl p)
  In-sort_by_key key a (x ∷ xs) (inr p) =
      In-insert_by key a x (sort_by_key key xs) (inr (In-sort_by_key key a xs p))

  In-of_sort_by_key : (key : A → ℕ) (a : A) (l : List A) → In a (sort_by_key key l) → In a l
  unfolding sort_by_key
  In-of_sort_by_key key a [] h = h
  In-of_sort_by_key key a (x ∷ xs) h = elim (In-of_insert_by key a x (sort_by_key key xs) h) [
    | inl p ↦ inl p
    | inr p ↦ inr (In-of_sort_by_key key a xs p)
  ]

  All-In : (P : A → Type 0) (a : A) (l : List A) → All P l → In a l → P a
  All-In P a [] h i = elim i [ ]
  All-In P a (x ∷ xs) h (inl p) = rw p h.0
  All-In P a (x ∷ xs) h (inr p) = All-In P a xs h.1 p

  In-of_take : (n : ℕ) (a : A) (l : List A) → In a (take n l) → In a l
  In-of_take zero a l i = elim i [ ]
  In-of_take (suc n) a [] i = elim i [ ]
  In-of_take (suc n) a (x ∷ xs) (inl p) = inl p
  In-of_take (suc n) a (x ∷ xs) (inr p) = inr (In-of_take n a xs p)

  take-All : (P : A → Type 0) (n : ℕ) (l : List A) → All P l → All P (take n l)
  take-All P zero l h = tt
  take-All P (suc n) [] h = tt
  take-All P (suc n) (x ∷ xs) h = (h.0, take-All P n xs h.1)

  take-IsAscending :
      (key : A → ℕ) (n : ℕ) (l : List A) → IsAscending key l → IsAscending key (take n l)
  take-IsAscending key zero l h = tt
  take-IsAscending key (suc n) [] h = tt
  take-IsAscending key (suc n) (x ∷ xs) h =
      (take-All (λ y. key x ≤ key y) n xs h.0, take-IsAscending key n xs h.1)

  -- What is cut off comes no earlier than what is taken.
  In-take :
      (key : A → ℕ) (n : ℕ) (a : A) (l : List A)
      → IsAscending key l
      → In a l
      → In a (take n l) ⊎ ((length (take n l) ≡ n) × All (λ y. key y ≤ key a) (take n l))
  In-take key zero a l h i = inr (refl, tt)
  In-take key (suc n) a [] h i = elim i [ ]
  In-take key (suc n) a (x ∷ xs) h (inl p) = inl (inl p)
  In-take key (suc n) a (x ∷ xs) h (inr p) = elim (In-take key n a xs h.1 p) [
    | inl q ↦ inl (inr q)
    | inr (q, r) ↦ inr (ap suc q, (All-In (λ y. key x ≤ key y) a xs h.0 p, r))
  ]

-- A bundle is live in a list of entries.
abbrev pub Held : Bundle → List (BundleId × Entry) → Type 0
Held b [] = ⊥
Held b ((k, e) ∷ es) = (e ≡ live b) ⊎ Held b es

In-live_where :
    (p : Bundle → Bool) (b : Bundle) (es : List (BundleId × Entry))
    → Held b es
    → p b ≡ true
    → In b (live_where p es)
unfolding live_where
In-live_where p b [] h q = elim h [ ]
In-live_where p b ((k, live c) ∷ es) (inl h) q = let same : c ≡ b = cc in rw same (rw q (inl refl))
In-live_where p b ((k, tombstone x) ∷ es) (inl h) q = cc
In-live_where p b ((k, tombstone x) ∷ es) (inr h) q = In-live_where p b es h q
In-live_where p b ((k, live c) ∷ es) (inr h) q =
    let deeper = In-live_where p b es h q in
    elim (Bool-cases (p c)) [ inl e ↦ rw e (inr deeper) | inr e ↦ rw e deeper ]

In-of_live_where :
    (p : Bundle → Bool) (b : Bundle) (es : List (BundleId × Entry))
    → In b (live_where p es)
    → Held b es × (p b ≡ true)
unfolding live_where
In-of_live_where p b [] h = elim h [ ]
In-of_live_where p b ((k, tombstone x) ∷ es) h =
    let (i, q) = In-of_live_where p b es h in (inr i, q)
In-of_live_where p b ((k, live c) ∷ es) h = elim (Bool-cases (p c)) [
  | inl e ↦ found e (rw e at h) (In-of_live_where p b es)
  | inr e ↦ let (i, q) = In-of_live_where p b es (rw e at h) in (inr i, q)
]
  where
    found :
        p c ≡ true
        → (b ≡ c) ⊎ In b (live_where p es)
        → (In b (live_where p es) → Held b es × (p b ≡ true))
        → Held b ((k, live c) ∷ es) × (p b ≡ true)
    found e (inl s) f = (inl (ap live (sym s)), rw s e)
    found e (inr s) f = let (i, q) = f s in (inr i, q)

module _ (lru : LruCache Entry) where
  -- A poll of a queue sends live bundles of that queue, as many as the limit at most, in the order in
  -- which they were received; a live bundle of the queue that is not sent was received no earlier than
  -- any that is, and is left out only where the limit is reached.
  pub poll_pending-Earliest :
      (state : BundleStatus) (limit : ℕ) (s : MetadataMemStorage (lru.Cache)) (b : Bundle)
      → IsAscending (λ c. c.received_at) (poll_pending lru state limit s)
        × (length (poll_pending lru state limit s) ≤ limit)
        × (In b (poll_pending lru state limit s)
            → Held b (lru.entries s.inner.entries) × (same_queue b.status state ≡ true))
        × (Held b (lru.entries s.inner.entries)
            → same_queue b.status state ≡ true
            → In b (poll_pending lru state limit s)
              ⊎ ((length (poll_pending lru state limit s) ≡ limit)
                  × All (λ c. c.received_at ≤ b.received_at) (poll_pending lru state limit s)))
  unfolding poll_pending
  poll_pending-Earliest state limit s b =
      let es = lru.entries s.inner.entries in
      let queue = live_where (λ c. same_queue c.status state) es in
      let key = λ (c : Bundle). c.received_at in
      let up = sort_by_key-IsAscending key queue in
      (
        take-IsAscending key limit (sort_by_key key queue) up,
        omega (arith, length-take limit (sort_by_key key queue)),
        λ i. In-of_live_where _ b es (In-of_sort_by_key key b queue (In-of_take limit b _ i)),
        λ h q.
            In-take key limit b (sort_by_key key queue) up
              (In-sort_by_key key b queue (In-live_where _ b es h q)),
      )
