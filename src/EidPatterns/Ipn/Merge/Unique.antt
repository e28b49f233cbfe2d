-- ===== src/EidPatterns/Ipn/Merge/Unique.antt =====
-- The merged form of a set of numbers is unique.
use hardy.Prelude.{
  ℕ, ◌+◌, ◌≤◌, ◌<◌, ◌≡◌, refl, ap, ◌∙◌, sym, List, [], ◌∷◌, true, false, arith, map,
}
use hardy.Eid.{u32_max}
use hardy.EidPatterns.Ipn.Interval.{Span}
use hardy.EidPatterns.Ipn.Merge.{AllSpans, range_of, close, collapse}
use hardy.EidPatterns.Ipn.Merge.Union.{
  covers, SeparatedFrom, merged, covers-merged, merged-SeparatedFrom,
}

-- Two unions hold the same `u32` numbers.
abbrev pub SameNumbers : List Span → List Span → Type 0
SameNumbers l k = (v : ℕ) → v ≤ u32_max → covers l v ≡ covers k v

below-covers : (lo v : ℕ) (l : List Span) → SeparatedFrom lo l → v < lo → covers l v ≡ false
below-covers lo v [] h p = refl
below-covers lo v (x ∷ xs) (le, hx, h) p = ground (arith, below-covers (x.end + 2) v xs h)

-- Heads of two merged lists that hold the same numbers begin alike, and one does not end before
-- the other.
start-le :
    (lo lo' : ℕ) (x y : Span) (xs ys : List Span)
    → SeparatedFrom lo (x ∷ xs)
    → SeparatedFrom lo' (y ∷ ys)
    → SameNumbers (x ∷ xs) (y ∷ ys)
    → y.start ≤ x.start
start-le lo lo' x y xs ys (_, hx, h) (_, hy, k) same =
    ground (arith, same x.start, below-covers (y.end + 2) x.start ys k)

end-le :
    (lo lo' : ℕ) (x y : Span) (xs ys : List Span)
    → SeparatedFrom lo (x ∷ xs)
    → SeparatedFrom lo' (y ∷ ys)
    → SameNumbers (x ∷ xs) (y ∷ ys)
    → x.start ≡ y.start
    → y.end ≤ x.end
end-le lo lo' x y xs ys (_, hx, h) (_, hy, k) same e =
    ground (arith, same (x.end + 1), below-covers (x.end + 2) (x.end + 1) xs h)

tail-SameNumbers :
    (lo lo' : ℕ) (x y : Span) (xs ys : List Span)
    → SeparatedFrom lo (x ∷ xs)
    → SeparatedFrom lo' (y ∷ ys)
    → SameNumbers (x ∷ xs) (y ∷ ys)
    → x ≡ y
    → SameNumbers xs ys
tail-SameNumbers lo lo' x y xs ys (_, hx, h) (_, hy, k) same e v le =
    ground (arith, same v, below-covers (x.end + 2) v xs h, below-covers (y.end + 2) v ys k)

covers-nil :
    (lo : ℕ) (x : Span) (xs : List Span)
    → SeparatedFrom lo (x ∷ xs)
    → (covers (x ∷ xs) x.start ≡ true) × (x.start ≤ u32_max)
covers-nil lo x xs (_, hx, h) = ground arith

merged_unique :
    (lo lo' : ℕ) (l k : List Span)
    → SeparatedFrom lo l
    → SeparatedFrom lo' k
    → SameNumbers l k
    → l ≡ k
merged_unique lo lo' [] [] h h' same = refl
merged_unique lo lo' [] (y ∷ ys) h h' same = ground (arith, covers-nil lo' y ys h', same y.start)
merged_unique lo lo' (x ∷ xs) [] h h' same = ground (arith, covers-nil lo x xs h, same x.start)
merged_unique lo lo' (x ∷ xs) (y ∷ ys) h h' same =
    let back : SameNumbers (y ∷ ys) (x ∷ xs) = λ v le. sym (same v le) in
    let starts : x.start ≡ y.start =
      omega (arith, start-le lo lo' x y xs ys h h' same, start-le lo' lo y x ys xs h' h back) in
    let ends : x.end ≡ y.end = omega (
      arith,
      end-le lo lo' x y xs ys h h' same starts,
      end-le lo' lo y x ys xs h' h back (sym starts),
    ) in
    let heads : x ≡ y = ground (arith, starts, ends) in
    cc (
      heads,
      merged_unique (x.end + 2) (y.end + 2) xs ys h.2 h'.2
          (tail-SameNumbers lo lo' x y xs ys h h' same heads),
    )

-- Two lists of intervals that hold the same numbers are parsed to equal patterns, in whatever order
-- the intervals stand and however they overlap.
pub range_of_unique :
    (l k : List Span) → AllSpans l → AllSpans k → SameNumbers l k → range_of l ≡ range_of k
unfolding range_of
range_of_unique l k h h' same =
    ap (λ m. collapse (map close m))
      (merged_unique 0 0 (merged l) (merged k) (merged-SeparatedFrom l h)
        (merged-SeparatedFrom k h')
        (λ v le. covers-merged l v h ∙ same v le ∙ sym (covers-merged k v h')))
