-- ===== src/EidPatterns/Ipn/Merge/Union.antt =====
-- Merging keeps the numbers that the intervals hold, and leaves gaps between them.
use hardy.Prelude.{
  ℕ, ◌+◌, ◌≤◌, max, ◌≡◌, refl, ap, ◌∙◌, List, [], ◌∷◌, Bool, true, false, ◌||◌, arith, leb, any,
  map, Bool-cases, inl, inr,
}
use hardy.EidPatterns.Ipn.Interval.{Span, IpnInterval, number, range, contains}
use hardy.EidPatterns.Ipn.Interval
use hardy.EidPatterns.Ipn.Component
use hardy.EidPatterns.Ipn.Component.{IpnPattern}
use hardy.EidPatterns.Ipn.Merge.{
  insert, sort_by_start, saturating_suc, merge, close, collapse, merge_sorted, range_of, IsSpan,
  AllSpans,
}

-- The union of the intervals
abbrev pub covers : List Span → ℕ → Bool
covers l v = any l (λ r. contains r v)

abbrev SortedFrom : ℕ → List Span → Type 0
SortedFrom lo [] = Unit
SortedFrom lo (x ∷ xs) = (lo ≤ x.start) × SortedFrom x.start xs

-- Intervals in ascending order with a number between any two, from `lo` on.
abbrev pub SeparatedFrom : ℕ → List Span → Type 0
SeparatedFrom lo [] = Unit
SeparatedFrom lo (x ∷ xs) = (lo ≤ x.start) × IsSpan x × SeparatedFrom (x.end + 2) xs

covers-insert :
    (x : Span) (l : List Span) (v : ℕ) → covers (insert x l) v ≡ (contains x v || covers l v)
unfolding insert
covers-insert x [] v = refl
covers-insert x (y ∷ ys) v = ground (arith, covers-insert x ys v)

covers-sort : (l : List Span) (v : ℕ) → covers (sort_by_start l) v ≡ covers l v
unfolding sort_by_start
covers-sort [] v = refl
covers-sort (x ∷ xs) v =
    covers-insert x (sort_by_start xs) v ∙ ap (λ b. contains x v || b) (covers-sort xs v)

AllSpans-insert : (x : Span) (l : List Span) → IsSpan x → AllSpans l → AllSpans (insert x l)
unfolding insert
AllSpans-insert x [] hx h = (hx, tt)
AllSpans-insert x (y ∷ ys) hx h = ground (arith, AllSpans-insert x ys hx)

AllSpans-sort : (l : List Span) → AllSpans l → AllSpans (sort_by_start l)
unfolding sort_by_start
AllSpans-sort [] h = tt
AllSpans-sort (x ∷ xs) (hx, h) = AllSpans-insert x (sort_by_start xs) hx (AllSpans-sort xs h)

SortedFrom-insert :
    (lo : ℕ) (x : Span) (l : List Span)
    → lo ≤ x.start
    → SortedFrom lo l
    → SortedFrom lo (insert x l)
unfolding insert
SortedFrom-insert lo x [] hx h = (hx, tt)
SortedFrom-insert lo x (y ∷ ys) hx (hy, h) = elim (Bool-cases (leb x.start y.start)) [
  | inl le ↦ rw le (hx, (ground arith, h))
  | inr gt ↦ rw gt (hy, SortedFrom-insert y.start x ys (ground arith) h)
]

SortedFrom-sort : (l : List Span) → SortedFrom 0 (sort_by_start l)
unfolding sort_by_start
SortedFrom-sort [] = tt
SortedFrom-sort (x ∷ xs) =
    SortedFrom-insert 0 x (sort_by_start xs) (omega arith) (SortedFrom-sort xs)

SortedFrom-weaken : (lo lo' : ℕ) (l : List Span) → lo ≤ lo' → SortedFrom lo' l → SortedFrom lo l
SortedFrom-weaken lo lo' [] le h = tt
SortedFrom-weaken lo lo' (x ∷ xs) le h = (omega arith, h.1)

SeparatedFrom-weaken :
    (lo lo' : ℕ) (l : List Span) → lo ≤ lo' → SeparatedFrom lo' l → SeparatedFrom lo l
SeparatedFrom-weaken lo lo' [] le h = tt
SeparatedFrom-weaken lo lo' (x ∷ xs) le h = (omega arith, h.1, h.2)

-- Two intervals that overlap or touch, as one.
abbrev join : Span → Span → Span
join c x = record { start = c.start; end = max c.end x.end }

join-IsSpan : (c x : Span) → IsSpan c → IsSpan x → IsSpan (join c x)
join-IsSpan c x hc hx = omega arith

contains-join :
    (c x : Span) (v : ℕ)
    → IsSpan c
    → IsSpan x
    → c.start ≤ x.start
    → leb x.start (saturating_suc c.end) ≡ true
    → contains (join c x) v ≡ (contains c v || contains x v)
contains-join c x v hc hx lo near = ground arith

gap : (c x : Span) → IsSpan x → leb x.start (saturating_suc c.end) ≡ false → c.end + 2 ≤ x.start
gap c x hx far = ground arith

or_assoc : (a b c : Bool) → ((a || b) || c) ≡ (a || (b || c))
or_assoc a b c = ground arith

covers-merge :
    (c : Span) (l : List Span) (v : ℕ)
    → IsSpan c
    → AllSpans l
    → SortedFrom c.start l
    → covers (merge c l) v ≡ (contains c v || covers l v)
unfolding merge
covers-merge c [] v hc h s = refl
covers-merge c (x ∷ xs) v hc (hx, h) (lo, s) =
    elim (Bool-cases (leb x.start (saturating_suc c.end))) [
      | inl near ↦
          rw (near, merge)
            (covers-merge (join c x) xs v (join-IsSpan c x hc hx) h
                (SortedFrom-weaken c.start x.start xs lo s)
              ∙ ap (λ b. b || covers xs v) (contains-join c x v hc hx lo near)
              ∙ or_assoc (contains c v) (contains x v) (covers xs v))
      | inr far ↦ rw (far, merge) (ap (λ b. contains c v || b) (covers-merge x xs v hx h s))
    ]

merge-SeparatedFrom :
    (c : Span) (l : List Span)
    → IsSpan c
    → AllSpans l
    → SortedFrom c.start l
    → SeparatedFrom c.start (merge c l)
unfolding merge
merge-SeparatedFrom c [] hc h s = (omega arith, hc, tt)
merge-SeparatedFrom c (x ∷ xs) hc (hx, h) (lo, s) =
    elim (Bool-cases (leb x.start (saturating_suc c.end))) [
      | inl near ↦
          rw (near, merge)
            (merge-SeparatedFrom (join c x) xs (join-IsSpan c x hc hx) h
              (SortedFrom-weaken c.start x.start xs lo s))
      | inr far ↦
          rw (far, merge)
            (
              omega arith,
              hc,
              SeparatedFrom-weaken (c.end + 2) x.start (merge x xs) (gap c x hx far)
                  (merge-SeparatedFrom x xs hx h s),
            )
    ]

covers-merge_sorted :
    (l : List Span) (v : ℕ) → AllSpans l → SortedFrom 0 l → covers (merge_sorted l) v ≡ covers l v
unfolding merge_sorted
covers-merge_sorted [] v h s = refl
covers-merge_sorted (x ∷ xs) v (hx, h) (lo, s) = covers-merge x xs v hx h s

merge_sorted-SeparatedFrom :
    (l : List Span) → AllSpans l → SortedFrom 0 l → SeparatedFrom 0 (merge_sorted l)
unfolding merge_sorted
merge_sorted-SeparatedFrom [] h s = tt
merge_sorted-SeparatedFrom (x ∷ xs) (hx, h) (lo, s) =
    SeparatedFrom-weaken 0 x.start (merge x xs) lo (merge-SeparatedFrom x xs hx h s)

-- The merged form of a list of intervals.
abbrev pub merged : List Span → List Span
merged l = merge_sorted (sort_by_start l)

pub covers-merged : (l : List Span) (v : ℕ) → AllSpans l → covers (merged l) v ≡ covers l v
covers-merged l v h =
    covers-merge_sorted (sort_by_start l) v (AllSpans-sort l h) (SortedFrom-sort l)
    ∙ covers-sort l v

pub merged-SeparatedFrom : (l : List Span) → AllSpans l → SeparatedFrom 0 (merged l)
merged-SeparatedFrom l h =
    merge_sorted-SeparatedFrom (sort_by_start l) (AllSpans-sort l h) (SortedFrom-sort l)

matches-close : (r : Span) (v : ℕ) → IsSpan r → Interval.matches (close r) v ≡ contains r v
unfolding close Interval.matches
matches-close r v h = ground arith

matches-close_all :
    (lo : ℕ) (l : List Span) (v : ℕ)
    → SeparatedFrom lo l
    → any (map close l) (λ i. Interval.matches i v) ≡ covers l v
matches-close_all lo [] v h = refl
matches-close_all lo (x ∷ xs) v (_, hx, h) =
    rw (matches-close x v hx) (ap (λ b. contains x v || b) (matches-close_all (x.end + 2) xs v h))

or_false : (b : Bool) → (b || false) ≡ b
or_false true = refl
or_false false = refl

matches-collapse :
    (l : List IpnInterval) (v : ℕ)
    → Component.matches (collapse l) v ≡ any l (λ i. Interval.matches i v)
unfolding collapse Component.matches
matches-collapse [] v = refl
matches-collapse (number n ∷ []) v = unfold Interval.matches in rw or_false
matches-collapse (number n ∷ i ∷ l) v = refl
matches-collapse (range r ∷ l) v = refl

-- Sorting, merging and collapsing a list of intervals keeps the numbers that it matches: the pattern
-- of `[i1,...,in]` matches exactly the numbers that lie in one of the intervals.
pub matches-range_of :
    (l : List Span) (v : ℕ) → AllSpans l → Component.matches (range_of l) v ≡ covers l v
unfolding range_of
matches-range_of l v h =
    matches-collapse (map close (merged l)) v
    ∙ matches-close_all 0 (merged l) v (merged-SeparatedFrom l h)
    ∙ covers-merged l v h
