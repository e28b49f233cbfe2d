-- ===== src/Bpv7/CreationTimestamp/Unique.antt =====
-- What the calls of `CreationTimestamp::now` return: pairs in ascending order.
use hardy.Prelude.{ℕ, ◌<◌, ◌≤◌, ◌≡◌, List, [], ◌∷◌, map, true, arith, lt→ltb, ◌∙◌}
use hardy.Cbor.Bytes.{All}
use hardy.Bpv7.DtnTime.{Instants, u64_max}
use hardy.Bpv7.CreationTimestamp.{CreationTimestamp, is_before, unpack, next}
use hardy.Bpv7.CreationTimestamp.Order.{is_before-unpack}
use hardy.Bpv7.CreationTimestamp.Steps.{Issuing, now, load, exchange, fail, Reachable, start, step}

-- Each pair is after all that stand behind it.
unfoldable pub IsDescending : List CreationTimestamp → Type 0
IsDescending [] = Unit
IsDescending (x ∷ xs) = All (λ y. is_before y x ≡ true) xs × IsDescending xs

IsFalling : List ℕ → Type 0
IsFalling [] = Unit
IsFalling (x ∷ xs) = All (λ y. y < x) xs × IsFalling xs

All-weaken : (m n : ℕ) (xs : List ℕ) → m ≤ n → All (λ y. y ≤ m) xs → All (λ y. y ≤ n) xs
All-weaken m n [] h a = tt
All-weaken m n (x ∷ xs) h (p, a) = (omega arith, All-weaken m n xs h a)

All-below : (m n : ℕ) (xs : List ℕ) → m < n → All (λ y. y ≤ m) xs → All (λ y. y < n) xs
All-below m n [] h a = tt
All-below m n (x ∷ xs) h (p, a) = (omega arith, All-below m n xs h a)

before-unpack :
    (x : ℕ) (xs : List ℕ)
    → All (λ y. y < x) xs
    → All (λ y. is_before y (unpack x) ≡ true) (map unpack xs)
before-unpack x [] a = tt
before-unpack x (y ∷ ys) (p, a) = (is_before-unpack y x ∙ lt→ltb y x p, before-unpack x ys a)

unpack-IsDescending : (xs : List ℕ) → IsFalling xs → IsDescending (map unpack xs)
unfolding IsDescending IsFalling
unpack-IsDescending [] h = tt
unpack-IsDescending (x ∷ xs) (a, h) = (before-unpack x xs a, unpack-IsDescending xs h)

module _ {OffsetDateTime : Type 0} (clock : Instants OffsetDateTime) where
  kept :
      {s : Issuing}
      → Reachable clock s
      → s.last_issued < u64_max
      → All (λ y. y ≤ s.last_issued) s.issued × IsFalling s.issued
  unfolding next IsFalling
  kept start h = (tt, tt)
  kept (step r (now t)) h = kept r h
  kept (step r (load b a c l e)) h = kept r h
  kept (step r (fail b a c l v e)) h = kept r h
  kept (step {s} r (exchange b a c l e f)) h =
      let k = kept r (omega arith) in
      (
        (omega arith, All-weaken s.last_issued (next l c) s.issued (omega arith) k.0),
        (All-below s.last_issued (next l c) s.issued (omega arith) k.0, k.1),
      )

  -- In every interleaving of calls of `now`, with any times that the clock shows them, and any old values that their loads read: as long as the last number issued is not the largest of 64 bits, each pair that an exchange issues is after every pair issued before it, in the derived order of timestamps.
  pub reachable-IsDescending :
      {s : Issuing}
      → Reachable clock s
      → s.last_issued < u64_max
      → IsDescending (map unpack s.issued)
  reachable-IsDescending {s} r h = unpack-IsDescending s.issued (kept r h).1
